-- ===== src/Livestream/Schedule.antt =====
-- The livestream use case as a transition system: the webhooks of SRS, the expiry of a timer and the
-- run of its function, and the reconciliation, interleaved in any order. A step is what a call does
-- under one hold of the mutex, or between two holds. UnpublishStream has two: it starts its timer
-- before it takes the mutex, and the timer may expire in between.
pub mod Invariant
pub mod Starting
pub mod Reachable
pub mod Early
use pine_vid_backend.Prelude.{String, Bool, true, ◌∷◌, [], ◌≡◌, List, if◌then◌else◌}
use pine_vid_backend.Effects.{ok, ignoring}
use pine_vid_backend.Entity.Video.{Time}
use pine_vid_backend.Entity.Livestream.{Livestream, StreamKeyAuth}
use pine_vid_backend.Video.Deps.{Sys, call}
use pine_vid_backend.Livestream.Deps.{UseCase, Live, Timer, stop, outside}
use pine_vid_backend.Livestream.Pending.{is_armed, is_fired, run_one}
use pine_vid_backend.Livestream.Session.{
  authenticate_stream_key, finalize_stream_end, handle_dvr_complete, new_timer, arm, set_end,
  went_offline,
}

-- The state, and the calls of UnpublishStream that have started a timer and wait for the mutex, by
-- their timers. `early` is history: the timers that expired while their call still waited.
pub record Sched (W : Type 0) : Type 0 where
  pub live : Live W
  pub starting : List Timer
  pub early : List Timer

-- The timers that were early, after `t` has expired.
abbrev pub fired_early : Timer → List Timer → List Timer → List Timer
fired_early t starting early = if is_armed t starting then t ∷ early else early

module _ {W : Type 0} where
  abbrev pub at : Sched W → Live W → Sched W
  at s l = record s { live = l }

  -- A timer fires: its function waits from now on, and `Stop` does not reach it any more.
  abbrev pub fire : Timer → Live W → Live W
  fire t s = record s { armed = stop t s.armed; fired = t.key ∷ s.fired }

  -- The function of a timer of this key gets to run.
  abbrev pub take_fired : String → Live W → Live W
  take_fired key s = record s { fired = run_one key s.fired }

  -- What the process starts from.
  abbrev pub started : Sys W → Sched W
  started sys = record {
    live = record { sys = sys; pending = []; armed = []; fired = []; next_timer = 0 };
    starting = [];
    early = [];
  }

module _ {W : Type 0} (u : UseCase W) where
  pub data Step (s : Sched W) : Sched W → Type 0 where
    on_publish :
        (req : StreamKeyAuth) (now : Time)
        → Step s (at s (authenticate_stream_key u req now s.live).1)
    -- UnpublishStream for a key that has a stream, up to `u.mu.Lock()`, and from there on.
    on_unpublish :
        (key : String) (ls : Livestream)
        → u.repo.get_by_stream_key key s.live.sys.world ≡ ok ls
        → Step s (record s { live = arm key s.live; starting = new_timer s.live key ∷ s.starting })
    registers :
        (t : Timer)
        → is_armed t s.starting ≡ true
        → Step s (record s { live = set_end t s.live; starting = stop t s.starting })
    on_dvr :
        (key video_id : String) (now : Time)
        → Step s (at s (handle_dvr_complete u key video_id now s.live).1)
    expire :
        (t : Timer)
        → is_armed t s.live.armed ≡ true
        → Step s (record s { live = fire t s.live; early = fired_early t s.starting s.early })
    finalize :
        (key video_id : String) (now later : Time)
        → is_fired key s.live.fired ≡ true
        → Step s (at s (finalize_stream_end u key video_id now later (take_fired key s.live)).1)
    -- ReconcileLiveStreams takes the mutex for each row, only to look, and then writes the row without
    -- it: a row that is written here may have been looked at any time before.
    reconcile_write :
        (ls : Livestream) (now : Time)
        → Step s (at s (outside (ignoring (call (u.repo.update (went_offline ls now)))) s.live).1)
    -- The database and SRS move on their own, also between the queries of a handler.
    elsewhere : (sys : Sys W) → Step s (at s (record s.live { sys = sys }))

  pub data Reach (sys : Sys W) : Sched W → Type 0 where
    start : Reach sys (started sys)
    later : {s t : Sched W} → Reach sys s → Step s t → Reach sys t
