-- ===== src/Livestream/Session.antt =====
-- A stream's sessions (internal/usecase/livestream/livestream.go): the webhooks of SRS for the start
-- and the end of a session and of a recording, and the function of the timer. What a handler does
-- under one hold of the mutex is one step; the time and a new UUID are arguments.
pub mod Grace
use Prim.Native.Nat.{suc}
use pine_vid_backend.Prelude.{
  String, ◌<>◌, Bool, true, false, Option, none, some, ◌∷◌, str_eq, is_some, if◌then◌else◌,
}
use pine_vid_backend.Effects.{
  Error, ok, err, panic, Exec, pure, wrapping, failing_with, ignoring, ◌>>=◌, ◌>>◌,
  invalid_stream_key,
}
use pine_vid_backend.Entity.Video.{Time}
use pine_vid_backend.Entity.Livestream.{Livestream, StreamKeyAuth}
use pine_vid_backend.Entity.Notification.{Notice, type_live_start}
use pine_vid_backend.Video.Deps.{Sys, call, ask, spawn, when}
use pine_vid_backend.Livestream.Deps.{
  UseCase, Live, PendingEnd, Timer, stop, lookup, delete, insert, outside,
}
use pine_vid_backend.Livestream.Path.{join}
use pine_vid_backend.Livestream.Replay.{process_dvr}

unfoldable pub went_live : Livestream → Time → Livestream
went_live ls now = record ls {
  is_live = true;
  started_at = some now;
  ended_at = none;
  hls_url = "/live/" <> (ls.stream_key <> ".m3u8");
  updated_at = now;
}

unfoldable pub went_offline : Livestream → Time → Livestream
went_offline ls now = record ls { is_live = false; ended_at = some now; updated_at = now }

unfoldable pub live_notice : Livestream → Notice
live_notice ls = record {
  sender_id = ls.user_id;
  sender_name = ls.user_name;
  sender_avatar = ls.user_avatar;
  type = type_live_start;
  title = ls.user_name <> " is live now";
  message = ls.title;
  target_url = "/live/" <> ls.id;
}

module _ {W : Type 0} where
  -- `existing.timer.Stop()`, if there is a pending end.
  abbrev pub stop_existing : Option PendingEnd → Live W → Live W
  stop_existing none s = s
  stop_existing (some p) s = record s { armed = stop p.timer s.armed }

  -- `time.AfterFunc`, before the mutex is taken.
  abbrev pub new_timer : Live W → String → Timer
  new_timer s key = record { id = s.next_timer; key = key }

  abbrev pub arm : String → Live W → Live W
  arm key s = record s { armed = new_timer s key ∷ s.armed; next_timer = suc s.next_timer }

  -- Under the mutex: a new pending end of the timer; the timer of an older one is stopped.
  abbrev pub set_end : Timer → Live W → Live W
  set_end t s =
      let s' = stop_existing (lookup t.key s.pending) s in
      record s' { pending = insert t.key (record { timer = t; dvr_path = "" }) s'.pending }

  -- Both, where nothing comes between them.
  unfoldable pub start_grace : String → Live W → Live W
  start_grace key s = set_end (new_timer s key) (arm key s)

module _ {W : Type 0} (u : UseCase W) where
  -- The part of `AuthenticateStreamKey` behind the pending ends.
  unfoldable pub admit : String → Time → Exec (Sys W) Bool
  admit stream_key now = do
    ls ← failing_with invalid_stream_key (ask (u.repo.get_by_stream_key stream_key))
    let live = went_live ls now
    ignoring (call (u.repo.update live))
    when (is_some u.notif_uc) (spawn (live_notice live))
    pure true

  -- A reconnect stops the timer and takes the pending end away.
  abbrev pub reconnect : String → PendingEnd → Exec (Live W) Bool
  reconnect key p s =
      (ok true, record s { armed = stop p.timer s.armed; pending = delete key s.pending })

  unfoldable pub authenticate_stream_key : StreamKeyAuth → Time → Exec (Live W) Bool
  authenticate_stream_key req now s = elim (lookup req.stream_key s.pending) [
    | some p ↦ reconnect req.stream_key p s
    | none ↦ outside (admit req.stream_key now) s
  ]

  unfoldable pub unpublish_stream : String → Exec (Live W) Unit
  unpublish_stream key = do
    outside (ask (u.repo.get_by_stream_key key))
    λ s. (ok tt, start_grace key s)

  -- The part of `finalizeStreamEnd` behind the mutex, for the pending end that was there.
  unfoldable pub end_stream : String → PendingEnd → String → Time → Time → Exec (Sys W) Unit
  end_stream key p video_id now later s = elim (u.repo.get_by_stream_key key s.world) [
    | ok ls ↦
        (ignoring (call (u.repo.update (went_offline ls now)))
            >> (if str_eq p.dvr_path ""
                then pure tt
                else ignoring (process_dvr u (went_offline ls now) p.dvr_path video_id later)))
          s
    | err _ ↦ (ok tt, s)
    | panic ↦ (panic, s)
  ]

  unfoldable pub finalize_stream_end : String → String → Time → Time → Exec (Live W) Unit
  finalize_stream_end key video_id now later s =
      let s' = record s { pending = delete key s.pending } in
      elim (lookup key s.pending) [
        | some p ↦ outside (end_stream key p video_id now later) s'
        | none ↦ (ok tt, s')
      ]

  abbrev pub dvr_path_of : String → String
  dvr_path_of key = join u.dvr_local_dir "live" (key <> ".flv")

  unfoldable pub handle_dvr_complete : String → String → Time → Exec (Live W) Unit
  handle_dvr_complete key video_id now s = elim (lookup key s.pending) [
    | some p ↦ (
      ok tt,
      record s { pending = insert key (record p { dvr_path = dvr_path_of key }) s.pending },
    )
    | none ↦
        outside
          (do
            ls ←
                wrapping "LivestreamUseCase - HandleDVRComplete - GetByStreamKey"
                  (ask (u.repo.get_by_stream_key key))
            process_dvr u ls (dvr_path_of key) video_id now)
          s
  ]
