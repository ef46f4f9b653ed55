-- ===== src/Admin/Republish.antt =====
-- What a ban of a video holds back, and what it does not.
use pine_vid_backend.Prelude.{String, ◌≡◌, arith, eq_iff, inl, inr}
use pine_vid_backend.Effects.{ok, Result-cases}
use pine_vid_backend.Entity.Video.{Video, Time, visibility_private}
use pine_vid_backend.Video.Deps.{UseCase, Sys}
use pine_vid_backend.Video.Store.{IsStore}
use pine_vid_backend.Video.Mapper.{to_video_response}
use pine_vid_backend.Video.Studio.{publish_video}
use pine_vid_backend.Video.Studio.Publishing.{published}
use pine_vid_backend.Admin.{ban_video}

abbrev pub banned : Video → Time → Video
banned v now = record v { visibility = visibility_private; updated_at = now }

module _ {W : Type 0} (u : UseCase W) (laws : IsStore u.repo) (video_id : String) where
  -- After a successful ban the row is as before, but private and with a new time.
  banned-row :
      (now : Time) (w w' : W)
      → ban_video u.repo video_id now w ≡ (ok tt, w')
      → (v : Video) × (u.repo.get_by_id video_id w ≡ ok v)
        × (u.repo.get_by_id video_id w' ≡ ok (banned v now))
  unfolding ban_video
  banned-row now w w' done = elim (Result-cases (u.repo.get_by_id video_id w)) [
    | inl (v, found) ↦ (
      v,
      found,
      laws.get-update video_id (banned v now) v w w' (laws.get_id video_id w v found) found
          (ground arith),
    )
    | inr (inl (x, failed)) ↦ absurd (ground arith)
    | inr (inr failed) ↦ absurd (ground arith)
  ]

  -- A ban of a video is no more than its visibility: the owner can publish the video again at once.
  -- If the row can be written, the call succeeds, and the video is public as before the ban.
  pub banned_video_republished :
      (user_id : String) (now later : Time) (s : Sys W) (w' w'' : W) (v : Video)
      → u.repo.get_by_id video_id s.world ≡ ok v
      → v.user_id ≡ user_id
      → ban_video u.repo video_id now s.world ≡ (ok tt, w')
      → u.repo.update (published (banned v now) later) w' ≡ (ok tt, w'')
      → ((publish_video u user_id video_id later (record s { world = w' })).0
          ≡ ok (to_video_response (published v later)))
        × (u.repo.get_by_id video_id w'' ≡ ok (published v later))
  unfolding publish_video
  banned_video_republished user_id now later s w' w'' v found owned done stored =
      let (v', found', row) = banned-row now s.world w' done in
      let here : u.repo.get_by_id video_id w' ≡ ok (banned v now) = ground (arith, row, found') in
      (
        ground (arith, here, eq_iff v.user_id user_id),
        laws.get-update video_id (published (banned v now) later) (banned v now) w' w''
            (laws.get_id video_id s.world v found) here stored,
      )
