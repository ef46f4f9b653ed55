-- ===== src/Account.antt =====
-- Accounts: internal/usecase/user/user.go, and the bans of internal/usecase/admin/admin.go. bcrypt and
-- the token manager (pkg/jwt over golang-jwt) are parameters.
pub mod Access
pub mod Ban
pub mod Gate
pub mod Http
pub mod Memory
mod Tests
use pine_vid_backend.Prelude.{String, Bool, true, false}
use pine_vid_backend.Effects.{
  Error, Result, ok, err, panic, Exec, pure, guard, query, wrapping, failing_with, wrap, ◌>>=◌,
  ◌>>◌, invalid_credentials, user_not_found, user_banned,
}
use pine_vid_backend.Prelude.{not}
use pine_vid_backend.Entity.Video.{Time}
use pine_vid_backend.Entity.User.{User, Token, role_user}
use pine_vid_backend.Video.Mapper.{or_keep}

pub record UserRepo (W : Type 0) : Type 0 where
  pub store : User → Exec W Unit
  pub get_by_id : String → W → Result User
  pub get_by_email : String → W → Result User
  pub get_by_username : String → W → Result User
  pub update : User → Exec W Unit

-- `bcrypt.GenerateFromPassword` (its salt comes from the world) and `CompareHashAndPassword`
pub record Bcrypt (W : Type 0) : Type 0 where
  pub generate_from_password : String → W → Result String
  pub compare_hash_and_password : String → String → Result Unit

-- `jwt.Manager`: a token of a user at a time, and the user of a token that is still good.
pub record Manager : Type 0 where
  pub generate_token : String → Time → Result String
  pub parse_token : String → Time → Result String

pub record UseCase (W : Type 0) : Type 0 where
  pub repo : UserRepo W
  pub bcrypt : Bcrypt W
  pub jwt : Manager

unfoldable pub new_user : String → String → String → String → Time → User
new_user id username email hash now = record {
  id = id;
  username = username;
  email = email;
  avatar = "";
  password_hash = hash;
  role = role_user;
  is_banned = false;
  created_at = now;
  updated_at = now;
}

module _ {W : Type 0} (u : UseCase W) where
  -- `id` is a new UUID.
  unfoldable pub register : String → String → String → String → Time → Exec W User
  register username email password id now = do
    hash ←
        wrapping "UserUseCase - Register - bcrypt.GenerateFromPassword"
          (query (u.bcrypt.generate_from_password password))
    let user = new_user id username email hash now
    wrapping "UserUseCase - Register - uc.repo.Store" (u.repo.store user)
    pure user

  unfoldable pub login : String → String → Time → Exec W String
  login email password now = do
    user ← failing_with invalid_credentials (query (u.repo.get_by_email email))
    failing_with invalid_credentials
        (query (λ _. u.bcrypt.compare_hash_and_password user.password_hash password))
    guard (not user.is_banned) user_banned
    wrapping "UserUseCase - Login - uc.jwt.GenerateToken"
        (query (λ _. u.jwt.generate_token user.id now))

  -- By ID, else by name.
  unfoldable pub get_user : String → Exec W User
  get_user user_id w = elim (u.repo.get_by_id user_id w) [
    | ok user ↦ (ok user, w)
    | err e ↦ elim (u.repo.get_by_username user_id w) [
      | ok user ↦ (ok user, w)
      | err _ ↦ (err (wrap "UserUseCase - GetUser" e), w)
      | panic ↦ (panic, w)
    ]
    | panic ↦ (panic, w)
  ]

  unfoldable pub update_user : String → String → String → String → Time → Exec W User
  update_user user_id username email avatar now = do
    user ← wrapping "UserUseCase - UpdateUser - uc.repo.GetByID" (query (u.repo.get_by_id user_id))
    let user' = record user {
      username = or_keep username user.username;
      email = or_keep email user.email;
      avatar = or_keep avatar user.avatar;
      updated_at = now;
    }
    wrapping "UserUseCase - UpdateUser - uc.repo.Update" (u.repo.update user')
    pure user'

  unfoldable pub refresh_token : String → Time → Exec W Token
  refresh_token token now = do
    user_id ← failing_with invalid_credentials (query (λ _. u.jwt.parse_token token now))
    user ← failing_with user_not_found (query (u.repo.get_by_id user_id))
    guard (not user.is_banned) user_banned
    fresh ←
        wrapping "UserUseCase - RefreshToken - uc.jwt.GenerateToken"
          (query (λ _. u.jwt.generate_token user.id now))
    pure (record { token = fresh })

module _ {W : Type 0} (users : UserRepo W) where
  -- `setUserBanned` of the admin use case, and its two callers.
  unfoldable pub set_user_banned : String → Bool → Time → Exec W Unit
  set_user_banned user_id banned now = do
    user ← query (users.get_by_id user_id)
    users.update (record user { is_banned = banned; updated_at = now })

  unfoldable pub ban_user : String → Time → Exec W Unit
  unfolding set_user_banned
  ban_user user_id now = set_user_banned user_id true now

  unfoldable pub unban_user : String → Time → Exec W Unit
  unfolding set_user_banned
  unban_user user_id now = set_user_banned user_id false now
