-- ===== src/Video/Tests.antt =====
-- The theorems about the video use case at concrete rows.
use pine_vid_backend.Prelude.{
  String, ◌≡◌, ◌≢◌, refl, arith, eq_iff, [], ◌∷◌, ◌++◌, none, some, true, false, if◌then◌else◌, not,
  ◌&&◌, str_eq, ◌<>◌,
}
use pine_vid_backend.Prelude.Int.{pos}
use pine_vid_backend.Effects.{ok, err, video_forbidden, pure}
use pine_vid_backend.Entity.Video.{
  Video, UpdateVideo, CreateVideoUpload, status_complete, visibility_public,
  allowed_video_extensions,
}
use pine_vid_backend.Video.Deps.{UseCase, Sys, ViewRepo, Notifier}
use pine_vid_backend.Video.Mapper.{to_video_response}
use pine_vid_backend.Video.Memory.{Rows, memory, memory-IsStore, find, update_rows}
use pine_vid_backend.Video.Studio.{
  publish_video, update_video, update_thumbnail, delete_video, new_video_notice,
}
use pine_vid_backend.Video.Studio.Owner.{strangers_refused}
use pine_vid_backend.Video.Studio.Publishing.{publish_twice, published}
use pine_vid_backend.Video.Transcode.{
  confirm_upload, retry_transcode, handle_transcode_callback, apply_report,
}
use pine_vid_backend.Video.Transcode.Status.{confirm_upload_unguarded}
use pine_vid_backend.Video.Transcode.Callback.{complete_twice, reported}
use pine_vid_backend.Video.Upload.{to_lower, ext, upload_ext}

abbrev row : String → String → String → String → Video
row id owner status visibility = record {
  id = id;
  user_id = owner;
  user_name = "Ann";
  user_avatar = "";
  title = "A film";
  description = "";
  category = "Film";
  status = status;
  visibility = visibility;
  raw_s3_key = "raw-uploads/v/raw.mp4";
  hls_url = "";
  thumbnail_url = "";
  duration = "01:00";
  is_reel = false;
  views = pos 3;
  created_at = 1;
  updated_at = 1;
}

abbrev row' : String → Video
row' status = record (row "v2" "ann" status "public") { updated_at = 7 }

abbrev taken_back : Video
taken_back = record (row "v1" "ann" "processing" "private") { updated_at = 7 }

abbrev rows : Rows
rows =
    row "v1" "ann" "complete" "private"
    ∷ row "v2" "ann" "failed" "public"
    ∷ row "v3" "bob" "processing" "public"
    ∷ []

abbrev silent : Notifier Rows
silent = record { notify_followers = λ n. pure tt }

abbrev views : ViewRepo Rows
views = record {
  record_view = λ id ip device. pure (true, pos 1);
  get_pending_views_for_video = λ id w. pos 0;
  get_trending_video_ids = λ days limit w. (ok ("v3" ∷ "v1" ∷ []), w);
}

abbrev use_case : UseCase Rows
use_case = record {
  repo = memory;
  view_repo = some views;
  like_repo = none;
  saved_repo = none;
  nats_publisher = none;
  notif_uc = some silent;
}

abbrev start : Sys Rows
start = record { world = rows; spawned = [] }

abbrev no_edit : UpdateVideo
no_edit = record {
  title = "";
  description = "";
  category = "";
  visibility = "";
  thumbnail_url = "";
}

ann_not_bob : ◌≢◌ {A = String} "ann" "bob"
ann_not_bob = ground (arith, eq_iff "ann" "bob")

found_v1 : find "v1" rows ≡ ok (row "v1" "ann" "complete" "private")
unfolding find
found_v1 = refl

strangers_refused_example :
    (publish_video use_case "bob" "v1" 7 start ≡ (err video_forbidden, start))
    × (update_video use_case "bob" "v1" no_edit 7 start ≡ (err video_forbidden, start))
    × (update_thumbnail use_case "bob" "v1" (record { thumbnail_url = "x" }) 7 start
        ≡ (err video_forbidden, start))
    × (delete_video use_case "bob" "v1" start ≡ (err video_forbidden, start))
strangers_refused_example =
    strangers_refused use_case "bob" "v1" 7 start (row "v1" "ann" "complete" "private") no_edit
      (record { thumbnail_url = "x" }) found_v1 ann_not_bob

abbrev first : Sys Rows
first = (publish_video use_case "ann" "v1" 7 start).1

abbrev second : Sys Rows
second = (publish_video use_case "ann" "v1" 8 first).1

publish_first :
    publish_video use_case "ann" "v1" 7 start
    ≡ (ok (to_video_response (published (row "v1" "ann" "complete" "private") 7)), first)
unfolding publish_video find update_rows
publish_first = refl

publish_second :
    publish_video use_case "ann" "v1" 8 first
    ≡ (ok (to_video_response (published (row "v1" "ann" "complete" "private") 8)), second)
unfolding publish_video find update_rows
publish_second = refl

publish_twice_example :
    (second.spawned ≡ first.spawned)
    × ((v : Video) × (find "v1" rows ≡ ok v)
        × (first.spawned
            ≡ []
              ++ (if true && not (str_eq v.visibility visibility_public)
                  then new_video_notice (published v 7) ∷ []
                  else [])))
publish_twice_example =
    publish_twice use_case memory-IsStore "ann" "v1" start first second 7 8 _ _ publish_first
      publish_second

found_v3 : find "v3" rows ≡ ok (row "v3" "bob" "processing" "public")
unfolding find
found_v3 = refl

retry_v2 :
    retry_transcode use_case "ann" "v2" 7 start
    ≡ (ok (to_video_response (row' "processing")), (retry_transcode use_case "ann" "v2" 7 start).1)
unfolding retry_transcode find update_rows
retry_v2 = refl

confirm_upload_unguarded_example :
    (confirm_upload use_case "bob" (record { video_id = "v1" }) 7 start
      ≡ (ok (to_video_response (taken_back)), record start { world = update_rows taken_back rows }))
    × (find "v1" (update_rows taken_back rows) ≡ ok taken_back)
confirm_upload_unguarded_example =
    confirm_upload_unguarded use_case memory-IsStore "bob" (record { video_id = "v1" }) 7 start
      (row "v1" "ann" "complete" "private") (update_rows taken_back rows) found_v1 ann_not_bob refl
      refl refl

abbrev done_once : Sys Rows
done_once = (handle_transcode_callback use_case "v3" "complete" "u" 7 start).1

abbrev done_again : Sys Rows
done_again = (handle_transcode_callback use_case "v3" "complete" "u2" 8 done_once).1

callback_first : handle_transcode_callback use_case "v3" "complete" "u" 7 start ≡ (ok tt, done_once)
unfolding handle_transcode_callback apply_report find update_rows
callback_first = refl

callback_second :
    handle_transcode_callback use_case "v3" "complete" "u2" 8 done_once ≡ (ok tt, done_again)
unfolding handle_transcode_callback apply_report find update_rows
callback_second = refl

complete_twice_example :
    (done_again.spawned ≡ done_once.spawned)
    × ((v : Video) × (find "v3" rows ≡ ok v)
        × (done_once.spawned
            ≡ []
              ++ (if true
                    && (not (str_eq v.status status_complete)
                        && str_eq v.visibility visibility_public)
                  then new_video_notice (reported v "complete" "u" 7) ∷ []
                  else [])))
complete_twice_example =
    complete_twice use_case memory-IsStore "v3" "u" "u2" start done_once done_again 7 8
      callback_first callback_second

abbrev upload : String → CreateVideoUpload
upload name = record {
  title = "A film";
  description = "";
  category = "Film";
  file_name = name;
  visibility = "";
  thumbnail_url = "";
  duration = "";
  is_reel = false;
}

ext_of_path : ext "a.b/film.final.MP4" ≡ ".MP4"
unfolding ext
ext_of_path = refl

ext_of_bare : ext "a.b/film" ≡ ""
unfolding ext
ext_of_bare = refl

lower_of_upper : to_lower ".MP4" ≡ ".mp4"
unfolding to_lower
lower_of_upper = refl

mp4_allowed : allowed_video_extensions (to_lower ("." <> "MP4")) ≡ true
unfolding to_lower allowed_video_extensions
mp4_allowed = refl

avi_refused : allowed_video_extensions (upload_ext "film.avi") ≡ false
unfolding upload_ext to_lower ext allowed_video_extensions
avi_refused = refl

abbrev lower_mp4 : String
lower_mp4 = to_lower ("." <> "MP4")
