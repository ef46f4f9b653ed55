-- ===== src/Entity/Livestream.antt =====
-- internal/entity/livestream.go, and the bodies of the livestream endpoints
-- (internal/controller/restapi/v1/request/livestream.go, response/livestream.go).
use pine_vid_backend.Prelude.{String, Bool, Option}
use pine_vid_backend.Prelude.Int.{ℤ}
use pine_vid_backend.Entity.Video.{Time}

pub record Livestream : Type 0 where
  pub id : String
  pub user_id : String
  pub user_name : String
  pub user_avatar : String
  pub stream_key : String
  pub title : String
  pub category : String
  pub is_live : Bool
  pub hls_url : String
  pub viewers_count : ℤ
  pub started_at : Option Time
  pub ended_at : Option Time
  pub created_at : Time
  pub updated_at : Time

pub record StreamKeyAuth : Type 0 where
  pub stream_key : String

pub record UpdateLivestreamInfo : Type 0 where
  pub title : String
  pub category : String
  pub thumbnail_url : String

pub record LivestreamStreamer : Type 0 where
  pub id : String
  pub name : String
  pub avatar : String
  pub followers_count : ℤ

pub record LivestreamResponse : Type 0 where
  pub id : String
  pub streamer : LivestreamStreamer
  pub title : String
  pub category : String
  pub is_live : Bool
  pub hls_url : String
  pub viewers_count : ℤ
  pub started_at : Option Time
  pub ended_at : Option Time

pub record StreamKeyResponse : Type 0 where
  pub server_url : String
  pub stream_key : String
  pub is_live : Bool
  pub started_at : Option Time
  pub viewers_count : ℤ
