-- ===== src/Livestream/Schedule/Reachable.antt =====
-- Every step keeps the invariant, so it holds of every reachable state.
use pine_vid_backend.Prelude.{
  String, ◌≡◌, ◌≢◌, refl, arith, eq_iff, str_eq, List, some, Option-cases, Bool-cases, inl, inr,
  sym, ap, ◌∙◌, ◌||◌, true,
}
use pine_vid_backend.Entity.Video.{Time}
use pine_vid_backend.Entity.Livestream.{StreamKeyAuth}
use pine_vid_backend.Video.Deps.{Sys}
use pine_vid_backend.Livestream.Deps.{Timer, UseCase, Live, PendingEnd, lookup, delete, insert}
use pine_vid_backend.Livestream.Pending.{is_armed, is_fired, lookup-insert, lookup-insert_other}
use pine_vid_backend.Livestream.Session.{
  authenticate_stream_key, finalize_stream_end, handle_dvr_complete,
}
use pine_vid_backend.Livestream.Schedule.Starting.{
  AreStarted, same-AreStarted, delete-AreStarted, stop-AreStarted, stash-AreStarted,
  fire-AreStarted, arm-AreStarted, set_end-AreStarted,
}
use pine_vid_backend.Livestream.Schedule.{
  Step, Reach, start, later, on_publish, Sched, on_unpublish, registers, on_dvr, expire, finalize,
  reconcile_write, elsewhere, take_fired,
}
use pine_vid_backend.Livestream.Schedule.Invariant.{
  HasTimers, stop-HasTimers, fire-HasTimers, run-HasTimers, arm-HasTimers, set_end-HasTimers,
}

module _ {W : Type 0} (early : List Timer) where
  -- Only the world behind the use case has changed.
  abbrev pub SameEnds : Live W → Live W → Type 0
  SameEnds s s' = (sys : Sys W) × (s' ≡ record s { sys = sys })

  SameEnds-HasTimers : {s s' : Live W} → SameEnds s s' → HasTimers early s → HasTimers early s'
  SameEnds-HasTimers {s} {s'} (sys, e) inv = rw e (λ key p found. record {
    same_key = (inv key p found).same_key;
    old = (inv key p found).old;
    waits = (inv key p found).waits;
  })

  -- A path is filled in for a recording: the timers stay.
  stash-HasTimers :
      (s : Live W) (key : String) (p : PendingEnd) (path : String)
      → lookup key s.pending ≡ some p
      → HasTimers early s
      → HasTimers early (record s { pending = insert key (record p { dvr_path = path }) s.pending })
  stash-HasTimers s key p path e inv key' p' e' = elim (Bool-cases (str_eq key' key)) [
    | inl same ↦
        let k : key' ≡ key = ground (arith, eq_iff key' key) in
        let q : record p { dvr_path = path } ≡ p' = cc (
          lookup-insert key (record p { dvr_path = path }) s.pending,
          ap (λ x. lookup x (insert key (record p { dvr_path = path }) s.pending)) k,
          e',
        ) in
        rw (sym q, k)
          (record {
            same_key = (inv key p e).same_key;
            old = (inv key p e).old;
            waits = (inv key p e).waits;
          })
    | inr other ↦
        let apart : key' ≢ key = ground (arith, eq_iff key' key) in
        let w = inv key' p' (
          sym (lookup-insert_other key key' (record p { dvr_path = path }) s.pending apart) ∙ e') in
        record { same_key = w.same_key; old = w.old; waits = w.waits }
  ]

module _ {W : Type 0} (u : UseCase W) (starting early : List Timer) where
  publish-HasTimers :
      (req : StreamKeyAuth) (now : Time) (s : Live W)
      → HasTimers early s
      → HasTimers early (authenticate_stream_key u req now s).1
  unfolding authenticate_stream_key
  publish-HasTimers req now s inv = elim (Option-cases (lookup req.stream_key s.pending)) [
    | inl missing ↦
        rw (missing, authenticate_stream_key) (SameEnds-HasTimers early {s = s} (_, refl) inv)
    | inr (p, e) ↦ rw (e, authenticate_stream_key) (stop-HasTimers early s req.stream_key p e inv)
  ]

  dvr-HasTimers :
      (key video_id : String) (now : Time) (s : Live W)
      → HasTimers early s
      → HasTimers early (handle_dvr_complete u key video_id now s).1
  unfolding handle_dvr_complete
  dvr-HasTimers key video_id now s inv = elim (Option-cases (lookup key s.pending)) [
    | inl missing ↦
        rw (missing, handle_dvr_complete) (SameEnds-HasTimers early {s = s} (_, refl) inv)
    | inr (p, e) ↦ rw (e, handle_dvr_complete) (stash-HasTimers early s key p _ e inv)
  ]

  finalize-HasTimers :
      (key video_id : String) (now late : Time) (s : Live W)
      → HasTimers early s
      → HasTimers early (finalize_stream_end u key video_id now late (take_fired key s)).1
  unfolding finalize_stream_end
  finalize-HasTimers key video_id now late s inv =
      let run = run-HasTimers early s key inv in
      elim (Option-cases (lookup key s.pending)) [
        | inl missing ↦ rw (missing, finalize_stream_end) run
        | inr (p, e) ↦
            rw (e, finalize_stream_end)
              (SameEnds-HasTimers early
                {s = record (take_fired key s) { pending = delete key s.pending }} (_, refl) run)
      ]

  publish-AreStarted :
      (req : StreamKeyAuth) (now : Time) (s : Live W)
      → AreStarted starting early s
      → AreStarted starting early (authenticate_stream_key u req now s).1
  unfolding authenticate_stream_key
  publish-AreStarted req now s inv = elim (Option-cases (lookup req.stream_key s.pending)) [
    | inl missing ↦
        rw (missing, authenticate_stream_key)
          (same-AreStarted starting early s _ inv refl refl refl)
    | inr (p, e) ↦
        rw (e, authenticate_stream_key) (stop-AreStarted starting early s req.stream_key p e inv)
  ]

  dvr-AreStarted :
      (key video_id : String) (now : Time) (s : Live W)
      → AreStarted starting early s
      → AreStarted starting early (handle_dvr_complete u key video_id now s).1
  unfolding handle_dvr_complete
  dvr-AreStarted key video_id now s inv = elim (Option-cases (lookup key s.pending)) [
    | inl missing ↦
        rw (missing, handle_dvr_complete) (same-AreStarted starting early s _ inv refl refl refl)
    | inr (p, e) ↦ rw (e, handle_dvr_complete) (stash-AreStarted starting early s key _ p e inv)
  ]

  finalize-AreStarted :
      (key video_id : String) (now late : Time) (s : Live W)
      → AreStarted starting early s
      → AreStarted starting early (finalize_stream_end u key video_id now late (take_fired key s)).1
  unfolding finalize_stream_end
  finalize-AreStarted key video_id now late s inv = elim (Option-cases (lookup key s.pending)) [
    | inl missing ↦
        rw (missing, finalize_stream_end)
          (delete-AreStarted starting early s _ key inv refl refl refl)
    | inr (p, e) ↦
        rw (e, finalize_stream_end) (delete-AreStarted starting early s _ key inv refl refl refl)
  ]

module _ {W : Type 0} (u : UseCase W) where
  record IsSound (s : Sched W) : Type 0 where
    pub watched : HasTimers s.early s.live
    pub waiting : AreStarted s.starting s.early s.live

  Step-IsSound : {s t : Sched W} → Step u s t → IsSound s → IsSound t
  Step-IsSound {s} (on_publish req now) v = record {
    watched = publish-HasTimers u s.starting s.early req now s.live v.watched;
    waiting = publish-AreStarted u s.starting s.early req now s.live v.waiting;
  }
  Step-IsSound {s} (on_unpublish key ls found) v = record {
    watched = arm-HasTimers s.early s.live key v.watched;
    waiting = arm-AreStarted s.starting s.early s.live key v.watched v.waiting;
  }
  Step-IsSound {s} (registers t h) v =
      let x = v.waiting t h in
      record {
        watched = set_end-HasTimers s.early s.live t v.watched x.old x.alive (λ p. x.apart t.key p);
        waiting = set_end-AreStarted s.starting s.early s.live t v.waiting;
      }
  Step-IsSound {s} (on_dvr key video_id now) v = record {
    watched = dvr-HasTimers u s.starting s.early key video_id now s.live v.watched;
    waiting = dvr-AreStarted u s.starting s.early key video_id now s.live v.waiting;
  }
  Step-IsSound {s} (expire t armed) v = record {
    watched = fire-HasTimers s.early s.live t s.starting v.watched;
    waiting = fire-AreStarted s.starting s.early s.live t v.waiting;
  }
  Step-IsSound {s} (finalize key video_id now late fired) v = record {
    watched = finalize-HasTimers u s.starting s.early key video_id now late s.live v.watched;
    waiting = finalize-AreStarted u s.starting s.early key video_id now late s.live v.waiting;
  }
  Step-IsSound {s} (reconcile_write ls now) v = record {
    watched = SameEnds-HasTimers s.early {s = s.live} (_, refl) v.watched;
    waiting = same-AreStarted s.starting s.early s.live _ v.waiting refl refl refl;
  }
  Step-IsSound {s} (elsewhere sys) v = record {
    watched = SameEnds-HasTimers s.early {s = s.live} (sys, refl) v.watched;
    waiting = same-AreStarted s.starting s.early s.live _ v.waiting refl refl refl;
  }

  Reach-IsSound : {sys : Sys W} {s : Sched W} → Reach u sys s → IsSound s
  unfolding lookup is_armed
  Reach-IsSound start = record {
    watched = λ key p found. cc;
    waiting = λ t h. absurd (ground (arith, h));
  }
  Reach-IsSound (later before step) = Step-IsSound step (Reach-IsSound before)

  -- However the webhooks, the timers and the reconciliation interleave, a pending end has a timer of
  -- its own key, and it is not forgotten: the timer is armed, or a function that will end the stream
  -- of the key waits to run, unless the timer had expired before the call of UnpublishStream that
  -- started it took the mutex.
  pub Reach-HasTimers :
      (sys : Sys W) (s : Sched W)
      → Reach u sys s
      → (key : String) (p : PendingEnd) → lookup key s.live.pending ≡ some p
      → (p.timer.key ≡ key)
        × ((is_armed p.timer s.live.armed
              || (is_fired key s.live.fired || is_armed p.timer s.early))
            ≡ true)
  Reach-HasTimers sys s reached key p found =
      let w = (Reach-IsSound reached).watched key p found in (w.same_key, w.waits)
