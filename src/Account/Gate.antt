-- ===== src/Account/Gate.antt =====
-- The middleware in front of the use cases: internal/controller/restapi/middleware/auth.go and
-- admin.go. A request has the header "Authorization" and, behind `Auth`, the local "userID".
pub mod Bearer
mod Tests
use Prim.Native.String.{[], ◌∷◌}
use pine_vid_backend.Prelude.{
  String, Char, code, Bool, ℕ, ◌==◌, Option, none, some, str_eq, if◌then◌else◌,
}
use pine_vid_backend.Effects.{Result, ok, err, panic}
use pine_vid_backend.Entity.Video.{Time}
use pine_vid_backend.Entity.User.{User, role_admin}
use pine_vid_backend.Account.{Manager, UseCase, get_user}

-- The next handler runs with the user of the request, if any; or the request is answered with a status
-- and an error.
pub data Verdict : Type 0 where
  passes : Option String → Verdict
  refused : ℕ → String → Verdict
  crashed : Verdict

abbrev pub before_first : Char → Option (String × String) → Option (String × String)
before_first c none = none
before_first c (some (word, rest)) = some (c ∷ word, rest)

-- `strings.SplitN(header, " ", 2)`: `none` where there is no space.
unfoldable pub split_space : String → Option (String × String)
split_space [] = none
split_space (c ∷ s) =
    let below = split_space s in if code c == b' ' then some ("", s) else before_first c below

-- The token of a header in the right format.
abbrev pub token_of : Option (String × String) → Option String
token_of none = none
token_of (some (scheme, token)) = if str_eq scheme "Bearer" then some token else none

unfoldable pub auth : Manager → Time → String → Verdict
auth jwt now header =
    if str_eq header ""
    then refused 401 "missing authorization header"
    else elim (token_of (split_space header)) [
      | none ↦ refused 401 "invalid authorization header format"
      | some token ↦ elim (jwt.parse_token token now) [
        | ok user_id ↦ passes (some user_id)
        | err e ↦ refused 401 "invalid or expired token"
        | panic ↦ crashed
      ]
    ]

unfoldable pub optional_auth : Manager → Time → String → Verdict
optional_auth jwt now header =
    if str_eq header "" then passes none else elim (token_of (split_space header)) [
      | none ↦ passes none
      | some token ↦ elim (jwt.parse_token token now) [
        | ok user_id ↦ passes (some user_id)
        | err e ↦ passes none
        | panic ↦ crashed
      ]
    ]

abbrev pub admitted : Result User → Option String → Verdict
admitted (ok user) local =
    if str_eq user.role role_admin then passes local else refused 403 "admin access required"
admitted (err e) local = refused 403 "admin access required"
admitted panic local = crashed

unfoldable pub require_admin : {W : Type 0} → UseCase W → Option String → W → Verdict
require_admin u none w = refused 401 "missing authorization header"
require_admin u (some user_id) w =
    if str_eq user_id ""
    then refused 401 "missing authorization header"
    else admitted (get_user u user_id w).0 (some user_id)

-- `RequireAdmin` behind `Auth`, as the admin routes have them.
abbrev pub then_admin : {W : Type 0} → UseCase W → Verdict → W → Verdict
then_admin u (passes local) w = require_admin u local w
then_admin u (refused status text) w = refused status text
then_admin u crashed w = crashed

unfoldable pub admin_gate : {W : Type 0} → UseCase W → Time → String → W → Verdict
admin_gate u now header w = then_admin u (auth u.jwt now header) w
