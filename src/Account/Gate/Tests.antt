-- ===== src/Account/Gate/Tests.antt =====
-- The middleware with the token "u1" of an admin who is banned.
use pine_vid_backend.Prelude.{◌≢◌, String, true, ◌≡◌, ◌↔◌, some, [], ◌∷◌}
use pine_vid_backend.Effects.{ok}
use pine_vid_backend.Entity.User.{User, role_admin}
use pine_vid_backend.Account.{get_user}
use pine_vid_backend.Account.Memory.{use_case, Rows}
use pine_vid_backend.Account.Gate.{passes, auth, admin_gate}
use pine_vid_backend.Account.Gate.Bearer.{bearer, auth_passes, admin_gate_passes}

abbrev eve : User
eve = record {
  id = "u1";
  username = "eve";
  email = "eve@x";
  avatar = "";
  password_hash = "h";
  role = role_admin;
  is_banned = true;
  created_at = 1;
  updated_at = 1;
}

abbrev rows : Rows
rows = eve ∷ []

auth_passes_example : (auth use_case.jwt 5 "Bearer u1" ≡ passes (some "u1")) ↔ (
    (token : String) × ("Bearer u1" ≡ bearer token) × (use_case.jwt.parse_token token 5 ≡ ok "u1"))
auth_passes_example = auth_passes use_case.jwt 5 "Bearer u1" "u1"

admin_gate_passes_example : (admin_gate use_case 5 "Bearer u1" rows ≡ passes (some "u1")) ↔ (
    (token id : String) × (user : User) × ("Bearer u1" ≡ bearer token)
    × (use_case.jwt.parse_token token 5 ≡ ok id)
    × (id ≢ "")
    × ((get_user use_case id rows).0 ≡ ok user)
    × (user.role ≡ role_admin)
    × (some "u1" ≡ some id))
admin_gate_passes_example = admin_gate_passes use_case 5 "Bearer u1" (some "u1") rows
