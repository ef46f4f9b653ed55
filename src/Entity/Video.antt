-- ===== src/Entity/Video.antt =====
-- internal/entity/video.go, and the request and response bodies of the video endpoints
-- (internal/controller/restapi/v1/request/video.go, response/video.go).
use pine_vid_backend.Prelude.{String, Bool, ℕ, ◌||◌, Option, str_eq}
use pine_vid_backend.Prelude.Int.{ℤ}

-- `VideoStatus` and `VideoVisibility` are string types: any text can be converted to one.
abbrev pub VideoStatus : Type 0
VideoStatus = String

abbrev pub status_pending : VideoStatus
status_pending = "pending"

abbrev pub status_processing : VideoStatus
status_processing = "processing"

abbrev pub status_complete : VideoStatus
status_complete = "complete"

abbrev pub status_failed : VideoStatus
status_failed = "failed"

abbrev pub VideoVisibility : Type 0
VideoVisibility = String

abbrev pub visibility_public : VideoVisibility
visibility_public = "public"

abbrev pub visibility_private : VideoVisibility
visibility_private = "private"

abbrev pub visibility_unlisted : VideoVisibility
visibility_unlisted = "unlisted"

-- `AllowedVideoExtensions[ext]`
unfoldable pub allowed_video_extensions : String → Bool
allowed_video_extensions ext = str_eq ext ".mp4" || str_eq ext ".mov" || str_eq ext ".mkv"

-- Times are nanoseconds since the epoch, in UTC.
abbrev pub Time : Type 0
Time = ℕ

pub record Video : Type 0 where
  pub id : String
  pub user_id : String
  pub user_name : String
  pub user_avatar : String
  pub title : String
  pub description : String
  pub category : String
  pub status : VideoStatus
  pub visibility : VideoVisibility
  pub raw_s3_key : String
  pub hls_url : String
  pub thumbnail_url : String
  pub duration : String
  pub is_reel : Bool
  pub views : ℤ
  pub created_at : Time
  pub updated_at : Time

-- `repo.VideoFilter`
pub record VideoFilter : Type 0 where
  pub user_id : String
  pub category : String
  pub query : String
  pub status : Option VideoStatus
  pub visibility : Option VideoVisibility
  pub is_reel : Option Bool
  pub limit : ℕ
  pub offset : ℕ

pub record CreateVideoUpload : Type 0 where
  pub title : String
  pub description : String
  pub category : String
  pub file_name : String
  pub visibility : String
  pub thumbnail_url : String
  pub duration : String
  pub is_reel : Bool

pub record UpdateVideo : Type 0 where
  pub title : String
  pub description : String
  pub category : String
  pub visibility : String
  pub thumbnail_url : String

pub record UpdateThumbnail : Type 0 where
  pub thumbnail_url : String

pub record ConfirmUpload : Type 0 where
  pub video_id : String

pub record VideoCreator : Type 0 where
  pub id : String
  pub name : String
  pub avatar : String

pub record VideoResponse : Type 0 where
  pub id : String
  pub creator : VideoCreator
  pub title : String
  pub description : String
  pub category : String
  pub status : String
  pub visibility : String
  pub hls_url : String
  pub thumbnail_url : String
  pub duration : String
  pub is_reel : Bool
  pub views : ℤ
  pub likes_count : ℤ
  pub is_liked : Bool
  pub is_saved : Bool
  pub created_at : Time
  pub updated_at : Time

pub record UploadUrlResponse : Type 0 where
  pub video_id : String
  pub upload_url : String
  pub raw_s3_key : String
