-- ===== src/Video/Transcode.antt =====
-- The transcode states of a video (internal/usecase/video/video.go): `ConfirmUpload` and
-- `RetryTranscode` queue a job, `HandleTranscodeCallback` records how it ended.
pub mod Status
pub mod Callback
use pine_vid_backend.Prelude.{
  String, Option, none, some, Bool, ◌&&◌, not, str_eq, is_some, if◌then◌else◌,
}
use pine_vid_backend.Effects.{
  Exec, pure, guard, wrapping, ignoring, ◌>>=◌, ◌>>◌, video_forbidden, video_not_failed,
}
use pine_vid_backend.Entity.Video.{
  Video, VideoResponse, ConfirmUpload, status_processing, status_complete, status_failed,
  visibility_public, Time,
}
use pine_vid_backend.Video.Deps.{UseCase, Publisher, Sys, call, ask, spawn, when}
use pine_vid_backend.Video.Mapper.{to_video_response, or_keep}
use pine_vid_backend.Video.Studio.{new_video_notice}

module _ {W : Type 0} where
  -- `if u.natsPublisher != nil { … PublishTranscodeJob(…) }`
  abbrev pub publish_job : Option (Publisher W) → Video → String → Exec (Sys W) Unit
  publish_job none v user_id = pure tt
  publish_job (some p) v user_id = call (p.publish_transcode_job v.id v.raw_s3_key user_id)

-- The video after the report of a worker.
unfoldable pub apply_report : Video → String → String → Video
apply_report v status hls_master_url =
    if str_eq status "complete"
    then record v { status = status_complete; hls_url = or_keep hls_master_url v.hls_url }
    else if str_eq status "failed"
    then record v { status = status_failed }
    else v

module _ {W : Type 0} (u : UseCase W) where
  unfoldable pub confirm_upload : String → ConfirmUpload → Time → Exec (Sys W) VideoResponse
  confirm_upload user_id req now = do
    v ← ask (u.repo.get_by_id req.video_id)
    let v' = record v { status = status_processing; updated_at = now }
    wrapping "VideoUseCase - ConfirmUpload - Update" (call (u.repo.update v'))
    ignoring (publish_job u.nats_publisher v' user_id)
    pure (to_video_response v')

  unfoldable pub retry_transcode : String → String → Time → Exec (Sys W) VideoResponse
  retry_transcode user_id video_id now = do
    v ← ask (u.repo.get_by_id video_id)
    guard (str_eq v.user_id user_id) video_forbidden
    guard (str_eq v.status status_failed) video_not_failed
    let v' = record v { status = status_processing; updated_at = now }
    wrapping "VideoUseCase - RetryTranscode - Update" (call (u.repo.update v'))
    wrapping "VideoUseCase - RetryTranscode - PublishTranscodeJob"
        (publish_job u.nats_publisher v' user_id)
    pure (to_video_response v')

  unfoldable pub handle_transcode_callback : String → String → String → Time → Exec (Sys W) Unit
  handle_transcode_callback video_id status hls_master_url now = do
    v ←
        wrapping "VideoUseCase - HandleTranscodeCallback - GetByID"
          (ask (u.repo.get_by_id video_id))
    let was_complete = str_eq v.status status_complete
    let v' = record (apply_report v status hls_master_url) { updated_at = now }
    call (u.repo.update v')
    let watchable =
        str_eq status "complete" && not was_complete && str_eq v'.visibility visibility_public
    when (is_some u.notif_uc && watchable) (spawn (new_video_notice v'))
