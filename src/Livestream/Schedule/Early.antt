-- ===== src/Livestream/Schedule/Early.antt =====
-- A timer that expires before its call of UnpublishStream has the mutex.
use pine_vid_backend.Prelude.{String, false, ◌≡◌, arith, eq_iff, ◌∷◌, [], some}
use pine_vid_backend.Effects.{ok}
use pine_vid_backend.Entity.Video.{Time}
use pine_vid_backend.Entity.Livestream.{Livestream}
use pine_vid_backend.Video.Deps.{Sys}
use pine_vid_backend.Livestream.Deps.{UseCase, Timer, PendingEnd, lookup, delete, stop}
use pine_vid_backend.Livestream.Pending.{is_armed, is_fired, run_one}
use pine_vid_backend.Livestream.Session.{arm, finalize_stream_end, set_end}
use pine_vid_backend.Livestream.Schedule.{
  Sched, Reach, start, later, on_unpublish, registers, expire, finalize, started, fire, fired_early,
  take_fired, at,
}

module _ {W : Type 0} (u : UseCase W) (sys : Sys W) (key : String) (ls : Livestream)
    (found : u.repo.get_by_stream_key key sys.world ≡ ok ls) (now late : Time)
    (video_id : String) where
  abbrev timer : Timer
  timer = record { id = 0; key = key }

  abbrev armed : Sched W
  armed = record { live = arm key (started sys).live; starting = timer ∷ []; early = [] }

  abbrev expired : Sched W
  expired = record armed {
    live = fire timer armed.live;
    early = fired_early timer armed.starting armed.early;
  }

  abbrev ran : Sched W
  ran = at expired (finalize_stream_end u key video_id now late (take_fired key expired.live)).1

  abbrev registered : Sched W
  registered = record ran { live = set_end timer ran.live; starting = stop timer ran.starting }

  ran-Reach : Reach u sys ran
  unfolding is_armed is_fired
  ran-Reach =
      later
        (later (later start (on_unpublish key ls found))
          (expire timer (ground (arith, eq_iff key key))))
        (finalize key video_id now late (ground (arith, eq_iff key key)))

  -- The exception does happen: from the start, a session of a stream that ends while another call
  -- holds the mutex for the length of the grace window leaves a pending end that no timer and no
  -- waiting function will take away, and the stream stays live until a reconnect.
  pub early_timer_forgets :
      (s : Sched W) × (p : PendingEnd) × Reach u sys s
      × (lookup key s.live.pending ≡ some p)
      × (is_armed p.timer s.live.armed ≡ false)
      × (is_fired key s.live.fired ≡ false)
  unfolding finalize_stream_end lookup delete stop is_armed is_fired run_one
  early_timer_forgets = (
    registered,
    record { timer = timer; dvr_path = "" },
    later ran-Reach (registers timer (ground (arith, eq_iff key key))),
    ground (arith, eq_iff key key),
    ground (arith, eq_iff key key),
    ground (arith, eq_iff key key),
  )
