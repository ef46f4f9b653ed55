-- ===== src/Livestream/Replay.antt =====
-- `processDVR` (internal/usecase/livestream/livestream.go): a finished recording becomes a private
-- video that goes through the transcode pipeline.
use pine_vid_backend.Prelude.{String, ◌<>◌, false, Option, none, some, str_eq, if◌then◌else◌}
use pine_vid_backend.Prelude.Int.{pos}
use pine_vid_backend.Effects.{Exec, raise, wrapping, ignoring, ◌>>◌, message}
use pine_vid_backend.Entity.Video.{Video, status_processing, visibility_private, Time}
use pine_vid_backend.Entity.Livestream.{Livestream}
use pine_vid_backend.Video.Deps.{VideoRepo, Publisher, Sys, call, ask}
use pine_vid_backend.Livestream.Deps.{UseCase, MinioClient}
use pine_vid_backend.Livestream.Duration.{dvr_duration}

abbrev pub raw_key : String → String
raw_key video_id = "raw-uploads/" <> (video_id <> "/raw.flv")

-- The row of the replay. `date` is the day and the time of the recording.
unfoldable pub replay_video : Livestream → String → String → Time → Video
replay_video ls video_id date now = record {
  id = video_id;
  user_id = ls.user_id;
  user_name = ls.user_name;
  user_avatar = ls.user_avatar;
  title = "[Replay] " <> ls.title;
  description = "Bản ghi hình phát trực tiếp ngày " <> date;
  category = ls.category;
  status = status_processing;
  visibility = visibility_private;
  raw_s3_key = raw_key video_id;
  hls_url = "";
  thumbnail_url = "";
  duration = dvr_duration ls.started_at now;
  is_reel = false;
  views = pos 0;
  created_at = now;
  updated_at = now;
}

module _ {W : Type 0} (u : UseCase W) where
  -- The pipeline once its parts are there.
  unfoldable pub upload_recording :
      MinioClient W
      → Publisher W
      → VideoRepo W
      → Livestream
      → String
      → String
      → Time
      → Exec (Sys W) Unit
  upload_recording minio publisher videos ls local_path video_id now = do
    wrapping ("LivestreamUseCase - processDVR - recording file not found at " <> local_path)
        (ask (u.files.stat local_path))
    wrapping "LivestreamUseCase - processDVR - UploadFile"
        (call (minio.upload_file u.raw_bucket (raw_key video_id) local_path))
    ignoring (call (u.files.remove local_path))
    wrapping "LivestreamUseCase - processDVR - Store"
        (call (videos.store (replay_video ls video_id (u.recording_date now) now)))
    ignoring (call (publisher.publish_transcode_job video_id (raw_key video_id) ls.user_id))

  abbrev pub not_configured : Exec (Sys W) Unit
  not_configured = raise (message "processDVR: DVR pipeline not configured")

  abbrev pub with_pipeline :
      Option (MinioClient W)
      → Option (Publisher W)
      → Option (VideoRepo W)
      → Livestream
      → String
      → String
      → Time
      → Exec (Sys W) Unit
  with_pipeline (some minio) (some publisher) (some videos) ls local_path video_id now =
      if str_eq u.dvr_local_dir ""
      then not_configured
      else upload_recording minio publisher videos ls local_path video_id now
  with_pipeline none publisher videos ls local_path video_id now = not_configured
  with_pipeline (some minio) none videos ls local_path video_id now = not_configured
  with_pipeline (some minio) (some publisher) none ls local_path video_id now = not_configured

  -- `video_id` is the new UUID.
  unfoldable pub process_dvr : Livestream → String → String → Time → Exec (Sys W) Unit
  process_dvr ls local_path video_id now =
      with_pipeline u.minio_client u.nats_publisher u.video_repo ls local_path video_id now
