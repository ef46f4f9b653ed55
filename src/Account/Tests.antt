-- ===== src/Account/Tests.antt =====
-- The theorems about accounts at concrete users.
use pine_vid_backend.Prelude.{◌≡◌, refl, some, true, false, [], ◌∷◌}
use pine_vid_backend.Effects.{ok, err, user_banned, invalid_credentials}
use pine_vid_backend.Entity.User.{User, role_user}
use pine_vid_backend.Account.{refresh_token, ban_user}
use pine_vid_backend.Account.Ban.{ban_stops_refresh}
use pine_vid_backend.Account.Http.{Credentials, refused, login_handler}
use pine_vid_backend.Account.Http.Login.{login_hides_accounts, wrong_password}
use pine_vid_backend.Account.Memory.{Rows, use_case, memory-IsUserStore, find, update_rows}

abbrev ann : User
ann = record {
  id = "u1";
  username = "ann";
  email = "ann@x";
  avatar = "";
  password_hash = "secret";
  role = role_user;
  is_banned = false;
  created_at = 1;
  updated_at = 1;
}

abbrev bob : User
bob = record ann { id = "u2"; username = "bob"; email = "bob@x"; created_at = 5; updated_at = 5 }

abbrev rows : Rows
rows = ann ∷ []

abbrev banned : Rows
banned = record ann { is_banned = true; updated_at = 7 } ∷ []

abbrev lifted : Rows
lifted = record ann { updated_at = 8 } ∷ []

ban_stops_refresh_example : refresh_token use_case "u1" 9 banned ≡ (err user_banned, banned)
unfolding ban_user find update_rows
ban_stops_refresh_example =
    ban_stops_refresh use_case memory-IsUserStore "u1" "u1" 7 9 rows banned refl refl

abbrev guess : Credentials
guess = record { email = "ann@x"; password = "guess" }

login_hides_accounts_example :
    login_handler use_case (λ body. true) (some guess) 9 rows
    ≡ (ok (refused 401 "invalid credentials"), rows)
unfolding find
login_hides_accounts_example =
    login_hides_accounts use_case (λ body. true) guess 9 rows refl
      (wrong_password ann invalid_credentials refl refl)
