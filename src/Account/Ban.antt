-- ===== src/Account/Ban.antt =====
-- A ban keeps a user from new tokens.
use pine_vid_backend.Prelude.{String, Bool, true, false, ◌≡◌, inl, inr, arith}
use pine_vid_backend.Effects.{ok, err, user_banned, Result-cases}
use pine_vid_backend.Entity.Video.{Time}
use pine_vid_backend.Entity.User.{User}
use pine_vid_backend.Account.{
  UseCase, UserRepo, refresh_token, ban_user, unban_user, set_user_banned,
}

-- The row `old` after an update to `v`.
abbrev pub written : User → User → User
written old v = record old {
  username = v.username;
  email = v.email;
  avatar = v.avatar;
  is_banned = v.is_banned;
  updated_at = v.updated_at;
}

pub record IsUserStore {W : Type 0} (r : UserRepo W) : Type 0 where
  pub get_id : (id : String) (w : W) (v : User) → r.get_by_id id w ≡ ok v → v.id ≡ id
  pub get-update :
      (id : String) (v old : User) (w w' : W)
      → v.id ≡ id
      → r.get_by_id id w ≡ ok old
      → r.update v w ≡ (ok tt, w')
      → r.get_by_id id w' ≡ ok (written old v)

module _ {W : Type 0} (u : UseCase W) (laws : IsUserStore u.repo) (user_id : String) where
  -- After a successful ban or unban the row is as before but for the flag and the time.
  set_user_banned-row :
      (banned : Bool) (now : Time) (w w' : W)
      → set_user_banned u.repo user_id banned now w ≡ (ok tt, w')
      → (v : User) × (u.repo.get_by_id user_id w ≡ ok v)
        × (u.repo.get_by_id user_id w' ≡ ok (record v { is_banned = banned; updated_at = now }))
  unfolding set_user_banned
  set_user_banned-row banned now w w' done = elim (Result-cases (u.repo.get_by_id user_id w)) [
    | inl (v, found) ↦ (
      v,
      found,
      laws.get-update user_id (record v { is_banned = banned; updated_at = now }) v w w'
          (laws.get_id user_id w v found) found (ground arith),
    )
    | inr (inl (x, failed)) ↦ absurd (ground arith)
    | inr (inr failed) ↦ absurd (ground arith)
  ]

  -- A token of a banned user cannot be refreshed: after a successful ban every refresh with a token
  -- of the user is refused and changes nothing.
  pub ban_stops_refresh :
      (token : String) (now later : Time) (w w' : W)
      → ban_user u.repo user_id now w ≡ (ok tt, w')
      → u.jwt.parse_token token later ≡ ok user_id
      → refresh_token u token later w' ≡ (err user_banned, w')
  unfolding ban_user refresh_token
  ban_stops_refresh token now later w w' banned parsed =
      let (v, found, row) = set_user_banned-row true now w w' banned in ground (arith, row)

  -- Lifting the ban gives the tokens back: after a ban and its lifting a refresh of the user's token
  -- gives the token that is signed for the row's ID.
  pub unban_restores_refresh :
      (token fresh : String) (now later last : Time) (w w' w'' : W)
      → ban_user u.repo user_id now w ≡ (ok tt, w')
      → unban_user u.repo user_id later w' ≡ (ok tt, w'')
      → u.jwt.parse_token token last ≡ ok user_id
      → u.jwt.generate_token user_id last ≡ ok fresh
      → refresh_token u token last w'' ≡ (ok (record { token = fresh }), w'')
  unfolding unban_user refresh_token
  unban_restores_refresh token fresh now later last w w' w'' banned lifted parsed signed =
      let (v, found, row) = set_user_banned-row false later w' w'' lifted in
      ground (arith, row, laws.get_id user_id w' v found)
