-- ===== src/Livestream/Schedule/Invariant.antt =====
-- No stream waits for its end without a timer.
use pine_vid_backend.Prelude.{
  String, true, false, ◌||◌, ◌<◌, ◌≡◌, ◌≢◌, refl, arith, eq_iff, str_eq, List, some, Option-cases,
  Bool-cases, inl, inr, sym, ap, ◌∙◌,
}
use pine_vid_backend.Livestream.Deps.{
  Live, Timer, PendingEnd, stop, lookup, delete, insert, same_timer,
}
use pine_vid_backend.Livestream.Pending.{
  is_armed, is_fired, lookup-delete, lookup-delete_other, lookup-insert, lookup-insert_other,
  is_armed-stop_other, is_fired-run_one_other,
}
use pine_vid_backend.Livestream.Session.{arm, set_end}
use pine_vid_backend.Livestream.Schedule.{fire, fired_early, take_fired}

-- The timer of a pending end runs for its key, is not a timer to come, and has not been lost: it is
-- armed, or a function of its key waits, unless it expired early.
pub record IsWatched {W : Type 0} (early : List Timer) (s : Live W) (key : String) (p : PendingEnd)
    : Type 0 where
  pub same_key : p.timer.key ≡ key
  pub old : p.timer.id < s.next_timer
  pub waits : (is_armed p.timer s.armed || (is_fired key s.fired || is_armed p.timer early)) ≡ true

abbrev pub HasTimers : {W : Type 0} → List Timer → Live W → Type 0
HasTimers early s =
    (key : String) (p : PendingEnd) → lookup key s.pending ≡ some p → IsWatched early s key p

abbrev pub new_end : Timer → PendingEnd
new_end t = record { timer = t; dvr_path = "" }

module _ {W : Type 0} (early : List Timer) where
  pub stop-HasTimers :
      (s : Live W) (key : String) (p : PendingEnd)
      → lookup key s.pending ≡ some p
      → HasTimers early s
      → HasTimers early (record s { armed = stop p.timer s.armed; pending = delete key s.pending })
  stop-HasTimers s key p e inv key' p' e' = elim (Bool-cases (str_eq key' key)) [
    | inl same ↦ absurd (ground (arith, eq_iff key' key, lookup-delete key s.pending))
    | inr other ↦
        let found : lookup key' s.pending ≡ some p' =
          ground (arith, eq_iff key' key, lookup-delete_other key key' s.pending) in
        let w = inv key' p' found in
        let v = inv key p e in
        let apart : same_timer p.timer p'.timer ≡ false =
          ground
            (arith, eq_iff key' key, eq_iff p.timer.key p'.timer.key, w.same_key, v.same_key) in
        record {
          same_key = w.same_key;
          old = w.old;
          waits = ground (arith, w.waits, is_armed-stop_other p.timer p'.timer s.armed apart);
        }
  ]

  pub fire-HasTimers :
      (s : Live W) (t : Timer) (starting : List Timer)
      → HasTimers early s
      → HasTimers (fired_early t starting early) (fire t s)
  unfolding is_fired is_armed
  fire-HasTimers s t starting inv key p e = elim (Bool-cases (same_timer t p.timer)) [
    | inl same ↦ record {
      same_key = (inv key p e).same_key;
      old = (inv key p e).old;
      waits = ground (arith, eq_iff t.key p.timer.key, eq_iff t.key key, (inv key p e).same_key);
    }
    | inr other ↦ record {
      same_key = (inv key p e).same_key;
      old = (inv key p e).old;
      waits = ground (arith, (inv key p e).waits, is_armed-stop_other t p.timer s.armed other);
    }
  ]

  -- Taking a pending end away when a function of its key runs.
  pub run-HasTimers :
      (s : Live W) (key : String)
      → HasTimers early s
      → HasTimers early (record (take_fired key s) { pending = delete key s.pending })
  run-HasTimers s key inv key' p' e' = elim (Bool-cases (str_eq key' key)) [
    | inl same ↦ absurd (ground (arith, eq_iff key' key, lookup-delete key s.pending))
    | inr other ↦
        let found : lookup key' s.pending ≡ some p' =
          ground (arith, eq_iff key' key, lookup-delete_other key key' s.pending) in
        let w = inv key' p' found in
        record {
          same_key = w.same_key;
          old = w.old;
          waits = ground (arith, eq_iff key' key, w.waits, is_fired-run_one_other key key' s.fired);
        }
  ]

  -- The new timer of a call that waits for the mutex.
  pub arm-HasTimers : (s : Live W) (key : String) → HasTimers early s → HasTimers early (arm key s)
  unfolding is_armed
  arm-HasTimers s key inv key' p' e' = record {
    same_key = (inv key' p' e').same_key;
    old = omega (arith, (inv key' p' e').old);
    waits = ground (arith, (inv key' p' e').waits);
  }

  -- A new pending end, if its timer is armed or was early and the timers of the other keys stay.
  renew-HasTimers :
      (s : Live W) (t : Timer) (armed : List Timer)
      → HasTimers early s
      → t.id < s.next_timer
      → (is_armed t armed || is_armed t early) ≡ true
      → ((key' : String) (p' : PendingEnd)
          → key' ≢ t.key
          → lookup key' s.pending ≡ some p'
          → is_armed p'.timer s.armed ≡ true
          → is_armed p'.timer armed ≡ true)
      → HasTimers early (record s { armed = armed; pending = insert t.key (new_end t) s.pending })
  renew-HasTimers s t armed inv old new_armed kept key' p' e' =
      elim (Bool-cases (str_eq key' t.key)) [
        | inl same ↦
            let k : key' ≡ t.key = ground (arith, eq_iff key' t.key) in
            let q : new_end t ≡ p' = cc (
              lookup-insert t.key (new_end t) s.pending,
              ap (λ x. lookup x (insert t.key (new_end t) s.pending)) k,
              e',
            ) in
            rw (sym q, k) (record { same_key = refl; old = old; waits = ground (arith, new_armed) })
        | inr other ↦
            let apart : key' ≢ t.key = ground (arith, eq_iff key' t.key) in
            let found : lookup key' s.pending ≡ some p' =
              sym (lookup-insert_other t.key key' (new_end t) s.pending apart) ∙ e' in
            let w = inv key' p' found in
            record {
              same_key = w.same_key;
              old = w.old;
              waits = ground (arith, w.waits, kept key' p' apart found);
            }
      ]

  -- The call takes the mutex. Its timer has not been given to another pending end.
  pub set_end-HasTimers :
      (s : Live W) (t : Timer)
      → HasTimers early s
      → t.id < s.next_timer
      → (is_armed t s.armed || is_armed t early) ≡ true
      → ((p : PendingEnd) → lookup t.key s.pending ≡ some p → same_timer p.timer t ≡ false)
      → HasTimers early (set_end t s)
  set_end-HasTimers s t inv old alive fresh = elim (Option-cases (lookup t.key s.pending)) [
    | inl missing ↦
        rw missing (renew-HasTimers s t s.armed inv old alive (λ key' p' apart e armed. armed))
    | inr (p, e) ↦
        let w = inv t.key p e in
        rw e (
          renew-HasTimers s t (stop p.timer s.armed) inv old
            (ground (arith, alive, is_armed-stop_other p.timer t s.armed (fresh p e)))
            (λ key' p' apart e' armed.
              is_armed-stop_other p.timer p'.timer s.armed (
                ground
                  (arith, eq_iff p.timer.key p'.timer.key, w.same_key, (inv key' p' e').same_key))
              ∙ armed))
  ]
