-- ===== src/Account/Http/Login.antt =====
-- What the response to a login tells.
use pine_vid_backend.Prelude.{Bool, true, ◌≡◌, arith, some}
use pine_vid_backend.Effects.{Error, ok, err}
use pine_vid_backend.Entity.Video.{Time}
use pine_vid_backend.Entity.User.{User}
use pine_vid_backend.Account.{UseCase, login}
use pine_vid_backend.Account.Http.{Credentials, refused, login_handler, cause}

-- The lookup by email fails, for any reason, or bcrypt refuses the password of the user that is found.
pub data IsRefused {W : Type 0} (u : UseCase W) (body : Credentials) (w : W) : Type 0 where
  no_account : (e : Error) → u.repo.get_by_email body.email w ≡ err e → IsRefused u body w
  wrong_password :
      (v : User) (e : Error)
      → u.repo.get_by_email body.email w ≡ ok v
      → u.bcrypt.compare_hash_and_password v.password_hash body.password ≡ err e
      → IsRefused u body w

-- A login does not tell whether an email has an account, nor whether the account is banned: without an
-- account and with a wrong password the response is the same status 401 with the same text, and
-- nothing is changed.
pub login_hides_accounts :
    {W : Type 0} (u : UseCase W) (valid : Credentials → Bool) (body : Credentials) (now : Time)
    (w : W)
    → valid body ≡ true
    → IsRefused u body w
    → login_handler u valid (some body) now w ≡ (ok (refused 401 "invalid credentials"), w)
unfolding login_handler login cause
login_hides_accounts u valid body now w good (no_account e missing) = ground arith
login_hides_accounts u valid body now w good (wrong_password v e found wrong) = ground arith
