-- ===== src/Livestream/Tests.antt =====
-- The theorems about livestreams at concrete streams.
use pine_vid_backend.Prelude.{String, true, ◌||◌, ◌≡◌, refl, str_eq, none, some, [], ◌∷◌, ◌*◌}
use pine_vid_backend.Prelude.Int.{pos}
use pine_vid_backend.Effects.{ok, pure, ◌>>◌, livestream_not_found}
use pine_vid_backend.Entity.Livestream.{Livestream}
use pine_vid_backend.Video.Deps.{Sys}
use pine_vid_backend.Livestream.Deps.{UseCase, Live, Timer, SrsClient, lookup, delete, stop}
use pine_vid_backend.Livestream.Memory.{
  Rows, memory, memory-IsLiveStore, find, update_rows, live_rows,
}
use pine_vid_backend.Livestream.Duration.{second, dvr_duration, minus, two_digits, show}
use pine_vid_backend.Livestream.Pending.{is_armed, is_fired}
use pine_vid_backend.Livestream.Session.{
  authenticate_stream_key, unpublish_stream, start_grace, handle_dvr_complete, finalize_stream_end,
  went_offline, arm, set_end,
}
use pine_vid_backend.Livestream.Session.Grace.{reconnect_keeps_live, interruption_leaves_no_trace}
use pine_vid_backend.Livestream.Reconcile.{
  reconcile_live_streams, reconcile_with, reconcile_listed, reconcile_rows, reconcile_row,
}
use pine_vid_backend.Livestream.Reconcile.Spares.{reconcile_spares}
use pine_vid_backend.Livestream.Schedule.{
  Reach, Sched, start, later, on_unpublish, registers, started,
}
use pine_vid_backend.Livestream.Schedule.Reachable.{Reach-HasTimers}
use pine_vid_backend.Livestream.Channel.{rekeyed}
use pine_vid_backend.Livestream.Channel.Key.{reset_key_still_admitted, reset_and_return}

abbrev stream : String → String → String → Livestream
stream id user key = record {
  id = id;
  user_id = user;
  user_name = "Ann";
  user_avatar = "";
  stream_key = key;
  title = "A talk";
  category = "General";
  is_live = true;
  hls_url = "";
  viewers_count = pos 2;
  started_at = some 10;
  ended_at = none;
  created_at = 1;
  updated_at = 1;
}

abbrev ann : Livestream
ann = stream "l1" "ann" "k1"

abbrev bob : Livestream
bob = stream "l2" "bob" "k2"

abbrev rows : Rows
rows = ann ∷ bob ∷ []

abbrev srs : SrsClient Rows
srs = record { active_stream_keys = λ w. ok (λ key. str_eq key "k1") }

abbrev use_case : UseCase Rows
use_case = record {
  repo = memory;
  video_repo = none;
  follow_repo = none;
  notif_uc = none;
  minio_client = none;
  nats_publisher = none;
  srs_client = some srs;
  files = record { stat = λ path w. ok tt; remove = λ path. pure tt };
  recording_date = λ now. "01/02/2026 10:00";
  raw_bucket = "raw-videos";
  dvr_local_dir = "/dvr";
}

abbrev world : Sys Rows
world = record { world = rows; spawned = [] }

abbrev begin : Live Rows
begin = (started world).live

abbrev timer : Timer
timer = record { id = 0; key = "k1" }

abbrev waiting : Live Rows
waiting = record {
  sys = world;
  pending = ("k1", record { timer = timer; dvr_path = "" }) ∷ [];
  armed = timer ∷ [];
  fired = [];
  next_timer = 1;
}

duration_text : dvr_duration (some (5 * second)) (3730 * second) ≡ "01:02:05"
unfolding dvr_duration two_digits show
duration_text = refl

negative_text : dvr_duration (some (3730 * second)) (5 * second) ≡ "-2:-5"
unfolding dvr_duration minus two_digits show
negative_text = refl

reconnect_keeps_live_example :
    (ok true ≡ ok true)
    × (world ≡ world)
    × (lookup "k1" [] ≡ none)
    × ((finalize_stream_end use_case "k1" "v" 20 21
          (record waiting { armed = []; pending = [] })).1.sys
        ≡ world)
unfolding authenticate_stream_key lookup delete stop
reconnect_keeps_live_example =
    reconnect_keeps_live use_case (record { stream_key = "k1" }) 15 waiting
      (record { timer = timer; dvr_path = "" }) "v" 20 21
      (record waiting { armed = []; pending = [] }) (ok true) refl refl

-- A session of "k1" has ended, and its call has gone through.
abbrev ended_session : Sched Rows
ended_session = record { live = set_end timer (arm "k1" begin); starting = []; early = [] }

ended_session-Reach : Reach use_case world ended_session
unfolding find lookup delete stop is_armed
ended_session-Reach = later (later start (on_unpublish "k1" ann refl)) (registers timer refl)

waits : lookup "k1" ended_session.live.pending ≡ some (record { timer = timer; dvr_path = "" })
unfolding lookup delete stop
waits = refl

Reach-HasTimers_example :
    (timer.key ≡ "k1")
    × ((is_armed timer ended_session.live.armed
          || (is_fired "k1" ended_session.live.fired || is_armed timer ended_session.early))
        ≡ true)
Reach-HasTimers_example =
    Reach-HasTimers use_case world ended_session ended_session-Reach "k1"
      (record { timer = timer; dvr_path = "" }) waits

abbrev back : Live Rows
back = record { sys = world; pending = []; armed = []; fired = []; next_timer = 1 }

interruption_leaves_no_trace_example :
    (ok true ≡ ok true) × (world ≡ world) × (lookup "k1" [] ≡ none)
unfolding unpublish_stream handle_dvr_complete authenticate_stream_key start_grace lookup delete
    stop find
interruption_leaves_no_trace_example =
    interruption_leaves_no_trace use_case "k1" begin ann refl "v" 20 21 back (ok true) refl

abbrev not_back : Live Rows
not_back =
    ((unpublish_stream use_case "k1"
        >> (handle_dvr_complete use_case "k1" "v" 20
            >> finalize_stream_end use_case "k1" "r" 30 31))
      begin).1

abbrev ended_rows : Rows
unfolding update_rows went_offline
ended_rows = update_rows (went_offline ann 30) rows

reconcile_spares_example :
    find
      (λ v. str_eq v.id "l1")
      livestream_not_found
      (reconcile_live_streams use_case 40 begin).1.sys.world
    ≡ ok ann
unfolding find
reconcile_spares_example =
    reconcile_spares use_case memory-IsLiveStore 40 begin srs (λ key. str_eq key "k1") ann refl refl
      refl refl

-- The row of the stream that SRS does not know goes offline.
reconcile_ends :
    find
      (λ v. str_eq v.id "l2")
      livestream_not_found
      (reconcile_live_streams use_case 40 begin).1.sys.world
    ≡ ok (went_offline bob 40)
unfolding find reconcile_live_streams reconcile_with reconcile_listed reconcile_rows reconcile_row
    lookup live_rows update_rows went_offline
reconcile_ends = refl

reset_key_still_admitted_example :
    ((unpublish_stream use_case "k1" >> reset_and_return use_case "k1" "ann" "abc" 5 6) begin).0
    ≡ ok ("sk_live_abc", true)
unfolding find
reset_key_still_admitted_example =
    reset_key_still_admitted use_case "k1" "ann" "abc" 5 6 begin ann ann
      (update_rows (rekeyed use_case ann "abc" 5) rows) refl refl refl
