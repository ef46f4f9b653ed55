-- ===== src/Video/Transcode/Status.antt =====
-- How the handlers move the status of a video, and when the end of a transcode is announced.
use pine_vid_backend.Prelude.{
  String, ◌≡◌, ◌≢◌, arith, eq_iff, str_eq, inl, inr, if◌then◌else◌, none,
}
use pine_vid_backend.Effects.{ok, err, video_not_failed, Result-cases}
use pine_vid_backend.Entity.Video.{
  Video, VideoResponse, ConfirmUpload, Time, status_processing, status_complete, status_failed,
}
use pine_vid_backend.Video.Deps.{UseCase, Sys}
use pine_vid_backend.Video.Store.{IsStore}
use pine_vid_backend.Video.Mapper.{to_video_response}
use pine_vid_backend.Video.Transcode.{apply_report, confirm_upload, retry_transcode}

-- A report moves the status to `complete` or `failed` as it says, and any other text leaves it.
pub apply_report-status :
    (v : Video) (status url : String)
    → (apply_report v status url).status ≡ (
        if str_eq status "complete"
        then status_complete
        else if str_eq status "failed"
        then status_failed
        else v.status)
unfolding apply_report
apply_report-status v status url = ground arith

module _ {W : Type 0} (u : UseCase W) (user_id video_id : String) where
  -- A retry is for a failed video: of any other status it is refused, and nothing is changed.
  pub retry_refused :
      (s : Sys W) (now : Time) (v : Video)
      → u.repo.get_by_id video_id s.world ≡ ok v
      → v.user_id ≡ user_id
      → v.status ≢ status_failed
      → retry_transcode u user_id video_id now s ≡ (err video_not_failed, s)
  unfolding retry_transcode
  retry_refused s now v found owned other =
      ground (arith, eq_iff v.user_id user_id, eq_iff v.status status_failed)

  -- A retry that succeeds was asked for by the owner of a failed video, and reports it as
  -- processing again with all its other fields but the time of the update as they were.
  pub retry_succeeds_only :
      (s s' : Sys W) (now : Time) (r : VideoResponse)
      → retry_transcode u user_id video_id now s ≡ (ok r, s')
      → (v : Video) × (u.repo.get_by_id video_id s.world ≡ ok v)
        × (v.user_id ≡ user_id)
        × (v.status ≡ status_failed)
        × (r ≡ to_video_response (record v { status = status_processing; updated_at = now }))
  unfolding retry_transcode
  retry_succeeds_only s s' now r done = elim (Result-cases (u.repo.get_by_id video_id s.world)) [
    | inl (v, e) ↦ (
      v,
      e,
      ground (arith, eq_iff v.user_id user_id),
      ground (arith, eq_iff v.status status_failed),
      ground arith,
    )
    | inr (inl (x, e)) ↦ absurd (ground arith)
    | inr (inr e) ↦ absurd (ground arith)
  ]

module _ {W : Type 0} (u : UseCase W) (laws : IsStore u.repo) where
  -- `ConfirmUpload` has no owner check and no status check. A caller who does not own a complete
  -- video takes it back to processing: with no job publisher configured the call succeeds, and
  -- the stored row is the old one with that status and the new time of update.
  pub confirm_upload_unguarded :
      (user_id : String) (req : ConfirmUpload) (now : Time) (s : Sys W) (v : Video) (w' : W)
      → u.repo.get_by_id req.video_id s.world ≡ ok v
      → v.user_id ≢ user_id
      → v.status ≡ status_complete
      → u.repo.update (record v { status = status_processing; updated_at = now }) s.world
        ≡ (ok tt, w')
      → u.nats_publisher ≡ none
      → (confirm_upload u user_id req now s ≡ (
        ok (to_video_response (record v { status = status_processing; updated_at = now })),
        record s { world = w' },
      ))
        × (u.repo.get_by_id req.video_id w'
            ≡ ok (record v { status = status_processing; updated_at = now }))
  unfolding confirm_upload
  confirm_upload_unguarded user_id req now s v w' found other complete stored off = (
    ground arith,
    laws.get-update req.video_id _ v s.world w' (laws.get_id req.video_id s.world v found) found
        stored,
  )
