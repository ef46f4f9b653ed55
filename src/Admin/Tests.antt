-- ===== src/Admin/Tests.antt =====
-- The theorem about bans at a concrete video.
use pine_vid_backend.Prelude.{false, none, ◌≡◌, refl, [], ◌∷◌}
use pine_vid_backend.Prelude.Int.{pos}
use pine_vid_backend.Effects.{ok}
use pine_vid_backend.Entity.Video.{Video}
use pine_vid_backend.Video.Deps.{UseCase, Sys}
use pine_vid_backend.Video.Mapper.{to_video_response}
use pine_vid_backend.Video.Memory.{Rows, memory, memory-IsStore, find, update_rows}
use pine_vid_backend.Video.Studio.{publish_video}
use pine_vid_backend.Video.Studio.Publishing.{published}
use pine_vid_backend.Admin.{ban_video}
use pine_vid_backend.Admin.Republish.{banned, banned_video_republished}

abbrev film : Video
film = record {
  id = "v1";
  user_id = "ann";
  user_name = "Ann";
  user_avatar = "";
  title = "A film";
  description = "";
  category = "Film";
  status = "complete";
  visibility = "public";
  raw_s3_key = "raw-uploads/v1/raw.mp4";
  hls_url = "";
  thumbnail_url = "";
  duration = "01:00";
  is_reel = false;
  views = pos 3;
  created_at = 1;
  updated_at = 1;
}

abbrev use_case : UseCase Rows
use_case = record {
  repo = memory;
  view_repo = none;
  like_repo = none;
  saved_repo = none;
  nats_publisher = none;
  notif_uc = none;
}

abbrev start : Sys Rows
start = record { world = film ∷ []; spawned = [] }

banned_video_republished_example :
    ((publish_video use_case "ann" "v1" 8 (record start { world = banned film 7 ∷ [] })).0
      ≡ ok (to_video_response (published film 8)))
    × (find "v1" (published film 8 ∷ []) ≡ ok (published film 8))
unfolding ban_video find update_rows
banned_video_republished_example =
    banned_video_republished use_case memory-IsStore "v1" "ann" 7 8 start (banned film 7 ∷ [])
      (published film 8 ∷ []) film refl refl refl refl
