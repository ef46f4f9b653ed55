-- ===== src/Video/Transcode/Callback.antt =====
-- The followers hear of a transcode once, when a public video becomes complete.
use pine_vid_backend.Prelude.{
  String, ◌≡◌, [], ◌∷◌, ◌++◌, arith, eq_iff, append-nil, ◌∙◌, is_some, str_eq, not, inl, inr,
  if◌then◌else◌, ◌&&◌,
}
use pine_vid_backend.Effects.{ok, Result-cases, outcome_cases}
use pine_vid_backend.Entity.Video.{Video, visibility_public, Time, status_complete}
use pine_vid_backend.Video.Deps.{UseCase, Sys}
use pine_vid_backend.Video.Store.{IsStore, written}
use pine_vid_backend.Video.Studio.{new_video_notice}
use pine_vid_backend.Video.Transcode.{apply_report, handle_transcode_callback}

-- The row that the report writes.
abbrev pub reported : Video → String → String → Time → Video
reported v status url now = record (apply_report v status url) { updated_at = now }

apply_report-kept :
    (v : Video) (status url : String)
    → ((apply_report v status url).id ≡ v.id)
      × ((apply_report v status url).visibility ≡ v.visibility)
unfolding apply_report
apply_report-kept v status url = ground arith

apply_report_complete :
    (v : Video) (url : String) → (apply_report v "complete" url).status ≡ status_complete
unfolding apply_report
apply_report_complete v url = ground arith

module _ {W : Type 0} (u : UseCase W) (laws : IsStore u.repo) (video_id status url : String) where
  -- What a successful call has read, and what it has done.
  pub record Reports (s : Sys W) (now : Time) (s' : Sys W) : Type 0 where
    pub before : Video
    pub found : u.repo.get_by_id video_id s.world ≡ ok before
    pub stored : u.repo.update (reported before status url now) s.world ≡ (ok tt, s'.world)
    pub notified :
        s'.spawned
        ≡ s.spawned
          ++ (if is_some u.notif_uc
                && (str_eq status "complete"
                    && not (str_eq before.status status_complete)
                    && str_eq (reported before status url now).visibility visibility_public)
              then new_video_notice (reported before status url now) ∷ []
              else [])

  pub callback-Reports :
      (s s' : Sys W) (now : Time)
      → handle_transcode_callback u video_id status url now s ≡ (ok tt, s')
      → Reports s now s'
  unfolding handle_transcode_callback
  callback-Reports s s' now done = elim (Result-cases (u.repo.get_by_id video_id s.world)) [
    | inl (v, e) ↦ elim (outcome_cases (u.repo.update (reported v status url now) s.world)) [
      | inl (a, w, f) ↦ record {
        before = v;
        found = e;
        stored = ground arith;
        notified = ground (arith, append-nil s.spawned);
      }
      | inr (inl (x, w, f)) ↦ absurd (ground arith)
      | inr (inr (w, f)) ↦ absurd (ground arith)
    ]
    | inr (inl (x, e)) ↦ absurd (ground arith)
    | inr (inr e) ↦ absurd (ground arith)
  ]

module _ {W : Type 0} (u : UseCase W) (laws : IsStore u.repo) (video_id url url' : String) where
  Reports-row :
      {s s' : Sys W} {now : Time}
      → Reports u laws video_id "complete" url s now s'
      → (v : Video) × (u.repo.get_by_id video_id s'.world ≡ ok v) × (v.status ≡ status_complete)
  Reports-row {s} {s'} {now} p =
      let v' = reported p.before "complete" url now in
      let same_id =
        (apply_report-kept p.before "complete" url).0
        ∙ laws.get_id video_id s.world p.before p.found in
      (
        written p.before v',
        laws.get-update video_id v' p.before s.world s'.world same_id p.found p.stored,
        apply_report_complete p.before url,
      )

  -- A worker that reports `complete` twice makes the followers hear of it once at most: the second
  -- successful report starts no fan-out. The first starts it exactly if notifications are
  -- configured and the video was public and not complete before.
  pub complete_twice :
      (s s' s'' : Sys W) (now later : Time)
      → handle_transcode_callback u video_id "complete" url now s ≡ (ok tt, s')
      → handle_transcode_callback u video_id "complete" url' later s' ≡ (ok tt, s'')
      → (s''.spawned ≡ s'.spawned)
        × ((v : Video) × (u.repo.get_by_id video_id s.world ≡ ok v)
            × (s'.spawned
                ≡ s.spawned
                  ++ (if is_some u.notif_uc
                        && (not (str_eq v.status status_complete)
                            && str_eq v.visibility visibility_public)
                      then new_video_notice (reported v "complete" url now) ∷ []
                      else [])))
  complete_twice s s' s'' now later first second =
      let p = callback-Reports u laws video_id "complete" url s s' now first in
      let q = callback-Reports u laws video_id "complete" url' s' s'' later second in
      let (v, row, complete) = Reports-row p in
      (
        ground (
          arith,
          q.notified,
          q.found,
          row,
          complete,
          append-nil s'.spawned,
          eq_iff q.before.status status_complete,
        ),
        (p.before, p.found, ground (arith, p.notified, apply_report-kept p.before "complete" url)),
      )
