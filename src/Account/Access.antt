-- ===== src/Account/Access.antt =====
-- Who gets a token.
use pine_vid_backend.Prelude.{String, false, ◌≡◌, ◌⊎◌, inl, inr, arith}
use pine_vid_backend.Effects.{Error, ok, err, invalid_credentials, Result-cases, outcome_cases}
use pine_vid_backend.Entity.Video.{Time}
use pine_vid_backend.Entity.User.{User}
use pine_vid_backend.Account.{UseCase, new_user, register, login}

-- The row that `Store` inserts: it leaves the avatar and the ban to the table's defaults.
abbrev pub stored_row : User → User
stored_row user = record user { avatar = ""; is_banned = false }

-- What the accounts rely on: a password matches its own hash, and a row that has been stored is found
-- by its email, as inserted, if the email was free.
pub record IsAccounts {W : Type 0} (u : UseCase W) : Type 0 where
  pub compare-generate :
      (password hash : String) (w : W)
      → u.bcrypt.generate_from_password password w ≡ ok hash
      → u.bcrypt.compare_hash_and_password hash password ≡ ok tt
  pub get_email-store :
      (user : User) (w w' : W) (e : Error)
      → u.repo.get_by_email user.email w ≡ err e
      → u.repo.store user w ≡ (ok tt, w')
      → u.repo.get_by_email user.email w' ≡ ok (stored_row user)

module _ {W : Type 0} (u : UseCase W) (laws : IsAccounts u) where
  -- Who has registered with a free email can log in with the password given then, and gets the
  -- token of the new user; the login writes nothing.
  pub login-register :
      (username email password id token : String) (now later : Time) (w w' : W) (user : User)
      (e : Error)
      → u.repo.get_by_email email w ≡ err e
      → register u username email password id now w ≡ (ok user, w')
      → u.jwt.generate_token id later ≡ ok token
      → login u email password later w' ≡ (ok token, w')
  unfolding register login new_user
  login-register username email password id token now later w w' user e free registered signed =
      elim (Result-cases (u.bcrypt.generate_from_password password w)) [
        | inl (hash, hashed) ↦
            let row = new_user id username email hash now in
            elim (outcome_cases (u.repo.store row w)) [
              | inl (a, t, stored) ↦ ground (
                arith,
                laws.compare-generate password hash w hashed,
                laws.get_email-store row w t e free stored,
              )
              | inr (inl (x, t, failed)) ↦ absurd (ground arith)
              | inr (inr (t, failed)) ↦ absurd (ground arith)
            ]
        | inr (inl (x, failed)) ↦ absurd (ground arith)
        | inr (inr failed) ↦ absurd (ground arith)
      ]

module _ {W : Type 0} (u : UseCase W) (email password : String) (now : Time) (w : W) where
  -- A login with an unknown email and one with a wrong password cannot be told apart: both get the
  -- same error, whether the user is banned or not, and nothing is changed.
  pub login_failures_alike :
      (e : Error)
      → (u.repo.get_by_email email w ≡ err e)
        ⊎ ((user : User) × (u.repo.get_by_email email w ≡ ok user)
            × (u.bcrypt.compare_hash_and_password user.password_hash password ≡ err e))
      → login u email password now w ≡ (err invalid_credentials, w)
  unfolding login
  login_failures_alike e (inl unknown) = ground arith
  login_failures_alike e (inr (user, found, wrong)) = ground arith
