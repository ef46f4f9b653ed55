-- ===== src/Livestream/Session/Grace.antt =====
-- The reconnection grace window.
use pine_vid_backend.Prelude.{
  String, Bool, true, ◌≡◌, refl, arith, eq_iff, str_eq, none, some, inl, inr, ◌∙◌, sym,
  Option-cases, if◌then◌else◌,
}
use pine_vid_backend.Effects.{then-ok, Result, ok, Exec, ignoring, ◌>>◌, pure}
use pine_vid_backend.Entity.Video.{Time}
use pine_vid_backend.Entity.Livestream.{Livestream, StreamKeyAuth}
use pine_vid_backend.Video.Deps.{Sys, call}
use pine_vid_backend.Livestream.Deps.{UseCase, Live, PendingEnd, lookup, delete, insert}
use pine_vid_backend.Livestream.Pending.{lookup-delete, lookup-insert, is_armed}
use pine_vid_backend.Livestream.Replay.{process_dvr}
use pine_vid_backend.Livestream.Session.{
  authenticate_stream_key, unpublish_stream, start_grace, finalize_stream_end, handle_dvr_complete,
  end_stream, went_offline, dvr_path_of,
}

module _ {W : Type 0} (u : UseCase W) (req : StreamKeyAuth) (now : Time) (s : Live W) where
  -- A reconnect within the grace window is let in without a look at the database: the world and the
  -- notifications are as they were, no end is pending for the key any more, and a function of the
  -- stopped timer that still gets to run changes nothing either.
  pub reconnect_keeps_live :
      (p : PendingEnd) (video_id : String) (late later : Time) (s' : Live W) (r : Result Bool)
      → lookup req.stream_key s.pending ≡ some p
      → authenticate_stream_key u req now s ≡ (r, s')
      → (r ≡ ok true)
        × (s'.sys ≡ s.sys)
        × (lookup req.stream_key s'.pending ≡ none)
        × ((finalize_stream_end u req.stream_key video_id late later s').1.sys ≡ s.sys)
  unfolding authenticate_stream_key finalize_stream_end
  reconnect_keeps_live p video_id late later s' r waits done =
      let gone = lookup-delete req.stream_key s.pending in
      (ground arith, ground arith, ground (arith, gone), ground (arith, gone))

module _ {W : Type 0} (key : String) (s : Live W) where
  abbrev pub new_end : PendingEnd
  new_end = record { timer = record { id = s.next_timer; key = key }; dvr_path = "" }

  pub start_grace-sys : (start_grace key s).sys ≡ s.sys
  unfolding start_grace
  start_grace-sys = elim (Option-cases (lookup key s.pending)) [
    | inl missing ↦ rw missing refl
    | inr (p, e) ↦ rw e refl
  ]

  pub start_grace-armed :
      lookup key s.pending ≡ none → is_armed new_end.timer (start_grace key s).armed ≡ true
  unfolding start_grace is_armed
  start_grace-armed missing = rw missing (ground (arith, eq_iff key key))

  pub start_grace-lookup : lookup key (start_grace key s).pending ≡ some new_end
  unfolding start_grace
  start_grace-lookup = elim (Option-cases (lookup key s.pending)) [
    | inl missing ↦ rw missing (lookup-insert key new_end s.pending)
    | inr (p, e) ↦ rw e (lookup-insert key new_end s.pending)
  ]

module _ {W : Type 0} (u : UseCase W) (key : String) (s : Live W) where
  pub unpublish_lem :
      (ls : Livestream)
      → u.repo.get_by_stream_key key s.sys.world ≡ ok ls
      → unpublish_stream u key s ≡ (ok tt, start_grace key s)
  unfolding unpublish_stream
  unpublish_lem ls found = rw found refl

  abbrev pub stashed : PendingEnd → Live W
  stashed p = record s {
    pending = insert key (record p { dvr_path = dvr_path_of u key }) s.pending;
  }

  pub stash_lem :
      (p : PendingEnd) (video_id : String) (now : Time)
      → lookup key s.pending ≡ some p
      → handle_dvr_complete u key video_id now s ≡ (ok tt, stashed p)
  unfolding handle_dvr_complete
  stash_lem p video_id now waits = rw (waits, handle_dvr_complete) refl

module _ {W : Type 0} (u : UseCase W) (key video_id : String) (late later : Time) where
  abbrev pub ended : Livestream → PendingEnd → Exec (Sys W) Unit
  ended ls p =
      ignoring (call (u.repo.update (went_offline ls late)))
      >> (if str_eq p.dvr_path ""
          then pure tt
          else ignoring (process_dvr u (went_offline ls late) p.dvr_path video_id later))

  pub finalize_lem :
      (s : Live W) (p : PendingEnd) (ls : Livestream)
      → lookup key s.pending ≡ some p
      → u.repo.get_by_stream_key key s.sys.world ≡ ok ls
      → finalize_stream_end u key video_id late later s ≡ (
        (ended ls p s.sys).0,
        record s { sys = (ended ls p s.sys).1; pending = delete key s.pending },
      )
  unfolding finalize_stream_end end_stream
  finalize_lem s p ls waits found = rw (waits, finalize_stream_end) (rw (found, end_stream) refl)

module _ {W : Type 0} (u : UseCase W) (key : String) (s : Live W) (ls : Livestream)
    (found : u.repo.get_by_stream_key key s.sys.world ≡ ok ls) where
  -- The state once a session has broken off and its recording has come in.
  abbrev pub interrupted : Live W
  interrupted = stashed u key (start_grace key s) (new_end key s)

  pub interrupted_lem :
      {B : Type 0} (video_id : String) (now : Time) (k : Exec (Live W) B)
      → (unpublish_stream u key >> (handle_dvr_complete u key video_id now >> k)) s ≡ k interrupted
  interrupted_lem video_id now k =
      then-ok (unpublish_stream u key) (handle_dvr_complete u key video_id now >> k) tt s _
        (unpublish_lem u key s ls found)
      ∙ then-ok (handle_dvr_complete u key video_id now) k tt (start_grace key s) _ (
          stash_lem u key (start_grace key s) (new_end key s) video_id now
            (start_grace-lookup key s))

  abbrev stashed_end : PendingEnd
  stashed_end = record (new_end key s) { dvr_path = dvr_path_of u key }

  -- A session that breaks off, hands its recording in and comes back within the grace window is one
  -- session: the call is accepted, nothing has been written, stored or announced, and no end is
  -- pending.
  pub interruption_leaves_no_trace :
      (video_id : String) (now later : Time) (s' : Live W) (r : Result Bool)
      → (unpublish_stream u key
            >> (handle_dvr_complete u key video_id now
                >> authenticate_stream_key u (record { stream_key = key }) later))
          s
        ≡ (r, s')
      → (r ≡ ok true) × (s'.sys ≡ s.sys) × (lookup key s'.pending ≡ none)
  interruption_leaves_no_trace video_id now later s' r done =
      let req : StreamKeyAuth = record { stream_key = key } in
      let (accepted, same, gone, idle) =
        reconnect_keeps_live u req later interrupted _ video_id now later s' r
          (lookup-insert key _ (start_grace key s).pending)
          (sym (interrupted_lem video_id now (authenticate_stream_key u req later)) ∙ done) in
      (accepted, same ∙ start_grace-sys key s, gone)
