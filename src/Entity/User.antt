-- ===== src/Entity/User.antt =====
-- internal/entity/user.go, and the token of internal/controller/restapi/v1/response/token.go.
use pine_vid_backend.Prelude.{String, Bool}
use pine_vid_backend.Entity.Video.{Time}

-- `UserRole` is a string type.
abbrev pub UserRole : Type 0
UserRole = String

abbrev pub role_user : UserRole
role_user = "user"

abbrev pub role_admin : UserRole
role_admin = "admin"

pub record User : Type 0 where
  pub id : String
  pub username : String
  pub email : String
  pub avatar : String
  pub password_hash : String
  pub role : UserRole
  pub is_banned : Bool
  pub created_at : Time
  pub updated_at : Time

pub record Token : Type 0 where
  pub token : String
