-- ===== src/Events/Status/Tests.antt =====
-- The callback of the worker at one client.
use pine_vid_backend.Prelude.{
  String, false, ◌≡◌, refl, arith, Option, none, some, [], ◌∷◌, str_eq, if◌then◌else◌,
}
use pine_vid_backend.Prelude.Int.{pos}
use pine_vid_backend.Entity.Video.{Video}
use pine_vid_backend.Video.Deps.{UseCase, Sys}
use pine_vid_backend.Video.Memory.{Rows, memory, find}
use pine_vid_backend.Video.Transcode.{handle_transcode_callback}
use pine_vid_backend.Events.Chan.{done}
use pine_vid_backend.Events.Status.{Hub, new_hub, with_client}
use pine_vid_backend.Events.Status.Callback.{
  TranscodeCallback, transcode_callback, failed_callback_is_silent,
}

abbrev film : Video
film = record {
  id = "v1";
  user_id = "ann";
  user_name = "Ann";
  user_avatar = "";
  title = "A film";
  description = "";
  category = "Film";
  status = "processing";
  visibility = "private";
  raw_s3_key = "raw-uploads/v1/raw.mp4";
  hls_url = "";
  thumbnail_url = "";
  duration = "01:00";
  is_reel = false;
  views = pos 3;
  created_at = 1;
  updated_at = 1;
}

abbrev use_case : UseCase Rows
use_case = record {
  repo = memory;
  view_repo = none;
  like_repo = none;
  saved_repo = none;
  nats_publisher = none;
  notif_uc = none;
}

abbrev before : Sys Rows
before = record { world = film ∷ []; spawned = [] }

abbrev after : Sys Rows
after = (handle_transcode_callback use_case "v1" "complete" "u" 7 before).1

abbrev validate : TranscodeCallback → Option String
validate body = if str_eq body.video_id "" then some "required" else none

abbrev report : String → TranscodeCallback
report id = record { video_id = id; status = "complete"; hls_master_url = "u"; error_message = "" }

abbrev one : Hub
one = with_client new_hub

unknown_video :
    transcode_callback use_case validate (some (report "v9")) 7 (before, some one)
    ≡ done (record { code = 500; text = "failed to update transcode status" }) (before, some one)
unfolding transcode_callback handle_transcode_callback find
unknown_video = refl

failed_callback_is_silent_example : some one ≡ some one
failed_callback_is_silent_example =
    failed_callback_is_silent use_case validate (some (report "v9")) 7 before before (some one)
      (some one) (record { code = 500; text = "failed to update transcode status" }) unknown_video
      (omega arith)
