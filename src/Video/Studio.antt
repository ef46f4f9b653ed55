-- ===== src/Video/Studio.antt =====
-- What the owner of a video does with it (internal/usecase/video/video.go): publish, edit, change
-- the thumbnail, delete. The current time is an argument. The proofs are in the modules below.
pub mod Owner
pub mod Publishing
use pine_vid_backend.Prelude.{String, ◌<>◌, not, ◌&&◌, str_eq, is_some}
use pine_vid_backend.Effects.{Exec, pure, guard, wrapping, ◌>>=◌, ◌>>◌, video_forbidden}
use pine_vid_backend.Entity.Video.{
  Video, VideoResponse, UpdateVideo, UpdateThumbnail, visibility_public, Time,
}
use pine_vid_backend.Entity.Notification.{Notice, type_new_video}
use pine_vid_backend.Video.Deps.{UseCase, Sys, call, ask, spawn, when}
use pine_vid_backend.Video.Mapper.{to_video_response, apply_video_update, apply_thumbnail_update}

-- The notification that a new video can be watched.
unfoldable pub new_video_notice : Video → Notice
new_video_notice v = record {
  sender_id = v.user_id;
  sender_name = v.user_name;
  sender_avatar = v.user_avatar;
  type = type_new_video;
  title = v.user_name <> " posted a new video";
  message = v.title;
  target_url = "/watch/" <> v.id;
}

module _ {W : Type 0} (u : UseCase W) where
  unfoldable pub publish_video : String → String → Time → Exec (Sys W) VideoResponse
  publish_video user_id video_id now = do
    v ← ask (u.repo.get_by_id video_id)
    guard (str_eq v.user_id user_id) video_forbidden
    let was_already_public = str_eq v.visibility visibility_public
    let v' = record v { visibility = visibility_public; updated_at = now }
    wrapping "VideoUseCase - PublishVideo - Update" (call (u.repo.update v'))
    when (is_some u.notif_uc && not was_already_public) (spawn (new_video_notice v'))
    pure (to_video_response v')

  unfoldable pub update_video : String → String → UpdateVideo → Time → Exec (Sys W) VideoResponse
  update_video user_id video_id req now = do
    v ← ask (u.repo.get_by_id video_id)
    guard (str_eq v.user_id user_id) video_forbidden
    let v' = record (apply_video_update v req) { updated_at = now }
    wrapping "VideoUseCase - UpdateVideo - Update" (call (u.repo.update v'))
    pure (to_video_response v')

  unfoldable pub update_thumbnail :
      String → String → UpdateThumbnail → Time → Exec (Sys W) VideoResponse
  update_thumbnail user_id video_id req now = do
    v ← ask (u.repo.get_by_id video_id)
    guard (str_eq v.user_id user_id) video_forbidden
    let v' = record (apply_thumbnail_update v req) { updated_at = now }
    wrapping "VideoUseCase - UpdateThumbnail - Update" (call (u.repo.update v'))
    pure (to_video_response v')

  unfoldable pub delete_video : String → String → Exec (Sys W) Unit
  delete_video user_id video_id = do
    v ← ask (u.repo.get_by_id video_id)
    guard (str_eq v.user_id user_id) video_forbidden
    call (u.repo.delete video_id)
