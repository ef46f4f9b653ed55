-- ===== src/Video/Studio/Owner.antt =====
-- Only the owner of a video can publish, edit, re-thumbnail, delete or retry it.
use pine_vid_backend.Prelude.{String, ◌≡◌, ◌≢◌, arith, eq_iff}
use pine_vid_backend.Effects.{Error, ok, err, video_forbidden}
use pine_vid_backend.Entity.Video.{Video, UpdateVideo, UpdateThumbnail, Time}
use pine_vid_backend.Video.Deps.{UseCase, Sys}
use pine_vid_backend.Video.Studio.{publish_video, update_video, update_thumbnail, delete_video}

module _ {W : Type 0} (u : UseCase W) (user_id video_id : String) (now : Time) (s : Sys W) where
  -- A caller who is not the owner of the video gets the error `video_forbidden` from publishing,
  -- editing, changing the thumbnail and deleting, and the world and the started goroutines are
  -- as they were.
  pub strangers_refused :
      (v : Video) (req : UpdateVideo) (thumb : UpdateThumbnail)
      → u.repo.get_by_id video_id s.world ≡ ok v
      → v.user_id ≢ user_id
      → (publish_video u user_id video_id now s ≡ (err video_forbidden, s))
        × (update_video u user_id video_id req now s ≡ (err video_forbidden, s))
        × (update_thumbnail u user_id video_id thumb now s ≡ (err video_forbidden, s))
        × (delete_video u user_id video_id s ≡ (err video_forbidden, s))
  unfolding publish_video update_video update_thumbnail delete_video
  strangers_refused v req thumb found other = ground (arith, eq_iff v.user_id user_id)

  -- A video that cannot be read: its error is returned as it is, and nothing is changed.
  pub unreadable_refused :
      (e : Error) (req : UpdateVideo) (thumb : UpdateThumbnail)
      → u.repo.get_by_id video_id s.world ≡ err e
      → (publish_video u user_id video_id now s ≡ (err e, s))
        × (update_video u user_id video_id req now s ≡ (err e, s))
        × (update_thumbnail u user_id video_id thumb now s ≡ (err e, s))
        × (delete_video u user_id video_id s ≡ (err e, s))
  unfolding publish_video update_video update_thumbnail delete_video
  unreadable_refused e req thumb found = ground arith
