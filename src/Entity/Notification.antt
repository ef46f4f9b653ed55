-- ===== src/Entity/Notification.antt =====
-- internal/entity/notification.go, and the call that fans a notification out.
use pine_vid_backend.Prelude.{String, Bool}
use pine_vid_backend.Entity.Video.{Time}

-- `NotificationType` is a string type.
abbrev pub NotificationType : Type 0
NotificationType = String

abbrev pub type_live_start : NotificationType
type_live_start = "live_start"

abbrev pub type_new_video : NotificationType
type_new_video = "new_video"

abbrev pub type_new_post : NotificationType
type_new_post = "new_post"

pub record Notification : Type 0 where
  pub id : String
  pub user_id : String
  pub sender_id : String
  pub sender_name : String
  pub sender_avatar : String
  pub type : NotificationType
  pub title : String
  pub message : String
  pub target_url : String
  pub is_read : Bool
  pub created_at : Time

-- The arguments of one call of `NotifyFollowers`.
pub record Notice : Type 0 where
  pub sender_id : String
  pub sender_name : String
  pub sender_avatar : String
  pub type : NotificationType
  pub title : String
  pub message : String
  pub target_url : String
