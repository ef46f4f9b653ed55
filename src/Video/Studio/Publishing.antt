-- ===== src/Video/Studio/Publishing.antt =====
-- Publishing notifies the followers when a video becomes public, and not again.
use pine_vid_backend.Prelude.{
  String, ◌≡◌, refl, [], ◌∷◌, ◌++◌, arith, eq_iff, append-nil, is_some, str_eq, not, inl, inr,
  if◌then◌else◌, ◌&&◌,
}
use pine_vid_backend.Effects.{ok, Result-cases, outcome_cases}
use pine_vid_backend.Entity.Video.{Video, VideoResponse, visibility_public, Time}
use pine_vid_backend.Video.Deps.{UseCase, Sys}
use pine_vid_backend.Video.Store.{IsStore, written}
use pine_vid_backend.Video.Studio.{publish_video, new_video_notice}

-- The row that the call writes.
abbrev pub published : Video → Time → Video
published v now = record v { visibility = visibility_public; updated_at = now }

module _ {W : Type 0} (u : UseCase W) (laws : IsStore u.repo) (user_id video_id : String) where
  -- What a successful call has read, and what it has done.
  pub record Publishes (s : Sys W) (now : Time) (s' : Sys W) : Type 0 where
    pub before : Video
    pub found : u.repo.get_by_id video_id s.world ≡ ok before
    pub owned : before.user_id ≡ user_id
    pub stored : u.repo.update (published before now) s.world ≡ (ok tt, s'.world)
    pub notified :
        s'.spawned
        ≡ s.spawned
          ++ (if is_some u.notif_uc && not (str_eq before.visibility visibility_public)
              then new_video_notice (published before now) ∷ []
              else [])

  pub publish_video-Publishes :
      (s s' : Sys W) (now : Time) (r : VideoResponse)
      → publish_video u user_id video_id now s ≡ (ok r, s')
      → Publishes s now s'
  unfolding publish_video
  publish_video-Publishes s s' now r done =
      elim (Result-cases (u.repo.get_by_id video_id s.world)) [
        | inl (v, e) ↦ elim (outcome_cases (u.repo.update (published v now) s.world)) [
          | inl (a, w, f) ↦ record {
            before = v;
            found = e;
            owned = ground (arith, eq_iff v.user_id user_id);
            stored = ground arith;
            notified = ground (arith, append-nil s.spawned);
          }
          | inr (inl (x, w, f)) ↦ absurd (ground arith)
          | inr (inr (w, f)) ↦ absurd (ground arith)
        ]
        | inr (inl (x, e)) ↦ absurd (ground arith)
        | inr (inr e) ↦ absurd (ground arith)
      ]

  -- A successful call leaves a row of the same id, public, and of the same owner.
  Publishes-row :
      {s s' : Sys W} {now : Time}
      → Publishes s now s'
      → (v : Video) × (u.repo.get_by_id video_id s'.world ≡ ok v)
        × (v.visibility ≡ visibility_public)
  Publishes-row {s} {s'} {now} p =
      let same_id = laws.get_id video_id s.world p.before p.found in
      let row =
        laws.get-update video_id (published p.before now) p.before s.world s'.world same_id p.found
          p.stored in
      (written p.before (published p.before now), row, refl)

  -- Publishing twice starts the fan-out to the followers once at most: after a successful call,
  -- another successful call starts none, and the first starts it exactly if the video was not
  -- public and the notifications are configured.
  pub publish_twice :
      (s s' s'' : Sys W) (now later : Time) (r r' : VideoResponse)
      → publish_video u user_id video_id now s ≡ (ok r, s')
      → publish_video u user_id video_id later s' ≡ (ok r', s'')
      → (s''.spawned ≡ s'.spawned)
        × ((v : Video) × (u.repo.get_by_id video_id s.world ≡ ok v)
            × (s'.spawned
                ≡ s.spawned
                  ++ (if is_some u.notif_uc && not (str_eq v.visibility visibility_public)
                      then new_video_notice (published v now) ∷ []
                      else [])))
  publish_twice s s' s'' now later r r' first second =
      let p = publish_video-Publishes s s' now r first in
      let q = publish_video-Publishes s' s'' later r' second in
      let (v, row, public) = Publishes-row p in
      (
        ground (
          arith,
          q.notified,
          q.found,
          row,
          public,
          append-nil s'.spawned,
          eq_iff q.before.visibility visibility_public,
        ),
        (p.before, p.found, p.notified),
      )
