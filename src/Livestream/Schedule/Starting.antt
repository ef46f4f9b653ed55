-- ===== src/Livestream/Schedule/Starting.antt =====
-- The timers of the calls that wait for the mutex: they are not lost, and no pending end has them.
use pine_vid_backend.Prelude.{
  String, true, false, ◌||◌, ◌<◌, ◌≡◌, refl, arith, eq_iff, ==_iff, str_eq, List, [], ◌∷◌, some,
  Option-cases, Bool-cases, inl, inr, sym, ap, ◌∙◌,
}
use pine_vid_backend.Livestream.Deps.{
  Live, Timer, PendingEnd, stop, lookup, delete, insert, same_timer,
}
use pine_vid_backend.Livestream.Pending.{
  is_armed, lookup-delete, lookup-delete_other, lookup-insert, lookup-insert_other,
  is_armed-stop_other,
}
use pine_vid_backend.Livestream.Session.{new_timer, arm, set_end}
use pine_vid_backend.Livestream.Schedule.{fire, fired_early}
use pine_vid_backend.Livestream.Schedule.Invariant.{HasTimers, new_end}

pub record IsStarted {W : Type 0} (early : List Timer) (s : Live W) (t : Timer) : Type 0 where
  pub old : t.id < s.next_timer
  pub alive : (is_armed t s.armed || is_armed t early) ≡ true
  pub apart :
      (key : String) (p : PendingEnd) → lookup key s.pending ≡ some p → same_timer p.timer t ≡ false

abbrev pub AreStarted : {W : Type 0} → List Timer → List Timer → Live W → Type 0
AreStarted starting early s = (t : Timer) → is_armed t starting ≡ true → IsStarted early s t

is_armed-same :
    (t t' : Timer) (xs : List Timer) → same_timer t t' ≡ true → is_armed t xs ≡ is_armed t' xs
unfolding is_armed
is_armed-same t t' [] h = refl
is_armed-same t t' (x ∷ xs) h =
    ground
      (arith, is_armed-same t t' xs h, eq_iff t.key t'.key, eq_iff x.key t.key, eq_iff x.key t'.key)

is_armed-stop :
    (x t : Timer) (xs : List Timer)
    → is_armed t (stop x xs) ≡ true
    → (is_armed t xs ≡ true) × (same_timer x t ≡ false)
unfolding is_armed stop
is_armed-stop x t [] h = absurd (ground (arith, h))
is_armed-stop x t (y ∷ ys) h =
    ground (arith, is_armed-stop x t ys, eq_iff y.key t.key, eq_iff y.key x.key, eq_iff x.key t.key)

lookup_delete_some :
    (key other : String) (pending : List (String × PendingEnd)) (p : PendingEnd)
    → lookup other (delete key pending) ≡ some p
    → lookup other pending ≡ some p
lookup_delete_some key other pending p e = elim (Bool-cases (str_eq other key)) [
  | inl same ↦ absurd (
      cc (
        lookup-delete key pending,
        ap (λ x. lookup x (delete key pending)) ((eq_iff other key).0 same),
        e,
      ))
  | inr differ ↦ sym (lookup-delete_other key other pending (ground (arith, eq_iff other key))) ∙ e
]

some_timer : (p q : PendingEnd) → some p ≡ some q → p.timer ≡ q.timer
some_timer p q e = cc

module _ {W : Type 0} (starting early : List Timer) where
  -- The timers of the pending ends were those of pending ends before, and the ones that start stay.
  keep-AreStarted :
      (s : Live W) (armed : List Timer) (pending : List (String × PendingEnd)) (early' : List Timer)
      → AreStarted starting early s
      → ((t : Timer)
          → is_armed t starting ≡ true
          → IsStarted early s t
          → (is_armed t armed || is_armed t early') ≡ true)
      → ((key : String) (p : PendingEnd)
          → lookup key pending ≡ some p
          → (q : PendingEnd) × (lookup key s.pending ≡ some q) × (q.timer ≡ p.timer))
      → (s' : Live W) → s'.armed ≡ armed
      → s'.pending ≡ pending
      → s'.next_timer ≡ s.next_timer
      → AreStarted starting early' s'
  keep-AreStarted s armed pending early' inv alive earlier s' e₁ e₂ e₃ t h =
      let v = inv t h in
      record {
        old = omega (arith, v.old, e₃);
        alive = ap (λ xs. is_armed t xs || is_armed t early') e₁ ∙ alive t h v;
        apart = λ key p e.
            let (q, found, same) = earlier key p (ap (λ x. lookup key x) (sym e₂) ∙ e) in
            sym (ap (λ x. same_timer x t) same) ∙ v.apart key q found;
      }

  pub same-AreStarted :
      (s s' : Live W)
      → AreStarted starting early s
      → s'.armed ≡ s.armed
      → s'.pending ≡ s.pending
      → s'.next_timer ≡ s.next_timer
      → AreStarted starting early s'
  same-AreStarted s s' inv e₁ e₂ e₃ =
      keep-AreStarted s s.armed s.pending early inv (λ t h v. v.alive) (λ key p e. (p, e, refl)) s'
        e₁ e₂ e₃

  pub delete-AreStarted :
      (s s' : Live W) (key : String)
      → AreStarted starting early s
      → s'.armed ≡ s.armed
      → s'.pending ≡ delete key s.pending
      → s'.next_timer ≡ s.next_timer
      → AreStarted starting early s'
  delete-AreStarted s s' key inv e₁ e₂ e₃ =
      keep-AreStarted s s.armed (delete key s.pending) early inv (λ t h v. v.alive)
        (λ other p e. (p, lookup_delete_some key other s.pending p e, refl)) s' e₁ e₂ e₃

  pub stop-AreStarted :
      (s : Live W) (key : String) (p : PendingEnd)
      → lookup key s.pending ≡ some p
      → AreStarted starting early s
      → AreStarted starting early
          (record s { armed = stop p.timer s.armed; pending = delete key s.pending })
  stop-AreStarted s key p found inv =
      keep-AreStarted s (stop p.timer s.armed) (delete key s.pending) early inv
        (λ t h v.
          ground (arith, v.alive, is_armed-stop_other p.timer t s.armed (v.apart key p found)))
        (λ other q e. (q, lookup_delete_some key other s.pending q e, refl)) _ refl refl refl

  pub stash-AreStarted :
      (s : Live W) (key path : String) (p : PendingEnd)
      → lookup key s.pending ≡ some p
      → AreStarted starting early s
      → AreStarted starting early
          (record s { pending = insert key (record p { dvr_path = path }) s.pending })
  stash-AreStarted s key path p found inv =
      keep-AreStarted s s.armed (insert key (record p { dvr_path = path }) s.pending) early inv
        (λ t h v. v.alive)
        (λ other q e. elim (Bool-cases (str_eq other key)) [
          | inl same ↦
              let k : other ≡ key = (eq_iff other key).0 same in
              (
                p,
                ap (λ x. lookup x s.pending) k ∙ found,
                some_timer (record p { dvr_path = path }) q
                    (sym (lookup-insert key (record p { dvr_path = path }) s.pending)
                      ∙ (ap (λ x. lookup x (insert key (record p { dvr_path = path }) s.pending))
                            (sym k)
                          ∙ e)),
              )
          | inr differ ↦ (
            q,
            sym (
                  lookup-insert_other key other (record p { dvr_path = path }) s.pending
                    (ground (arith, eq_iff other key)))
                ∙ e,
            refl,
          )
        ])
        _ refl refl refl

  pub fire-AreStarted :
      (s : Live W) (x : Timer)
      → AreStarted starting early s
      → AreStarted starting (fired_early x starting early) (fire x s)
  unfolding is_armed
  fire-AreStarted s x inv =
      keep-AreStarted s (stop x s.armed) s.pending (fired_early x starting early) inv
        (λ t h v. elim (Bool-cases (same_timer x t)) [
          | inl same ↦ ground (arith, is_armed-same x t starting same, h, same)
          | inr differ ↦ ground (arith, v.alive, is_armed-stop_other x t s.armed differ)
        ])
        (λ key p e. (p, e, refl)) _ refl refl refl

  -- A call starts a timer.
  pub arm-AreStarted :
      (s : Live W) (key : String)
      → HasTimers early s
      → AreStarted starting early s
      → AreStarted (new_timer s key ∷ starting) early (arm key s)
  unfolding is_armed
  arm-AreStarted s key watched inv t h = elim (Bool-cases (same_timer (new_timer s key) t)) [
    | inl same ↦ record {
      old = ground (arith, same, ==_iff s.next_timer t.id);
      alive = ground (arith, same);
      apart = λ other p e.
          ground (
            arith,
            same,
            (watched other p e).old,
            ==_iff s.next_timer t.id,
            ==_iff p.timer.id t.id,
          );
    }
    | inr differ ↦
        let v = inv t (ground (arith, h, differ)) in
        record { old = omega (arith, v.old); alive = ground (arith, v.alive); apart = v.apart }
  ]

  -- The pending ends after a call has given its timer to one.
  registered_apart :
      (s : Live W) (x t : Timer)
      → IsStarted early s t
      → same_timer x t ≡ false
      → (other : String) (p : PendingEnd)
      → lookup other (insert x.key (new_end x) s.pending) ≡ some p
      → same_timer p.timer t ≡ false
  registered_apart s x t v differ other p e = elim (Bool-cases (str_eq other x.key)) [
    | inl same ↦
        sym (
          ap (λ y. same_timer y t)
            (some_timer (new_end x) p (
              sym (lookup-insert x.key (new_end x) s.pending)
              ∙ (ap (λ y. lookup y (insert x.key (new_end x) s.pending))
                    (sym ((eq_iff other x.key).0 same))
                  ∙ e))))
        ∙ differ
    | inr apart ↦ v.apart other p (
        sym (
          lookup-insert_other x.key other (new_end x) s.pending
            (ground (arith, eq_iff other x.key)))
        ∙ e)
  ]

  -- A call takes the mutex and gives its timer to a pending end.
  pub set_end-AreStarted :
      (s : Live W) (x : Timer)
      → AreStarted starting early s
      → AreStarted (stop x starting) early (set_end x s)
  set_end-AreStarted s x inv t h =
      let (here, differ) = is_armed-stop x t starting h in
      let v = inv t here in
      elim (Option-cases (lookup x.key s.pending)) [
        | inl missing ↦
            rw missing
              (record { old = v.old; alive = v.alive; apart = registered_apart s x t v differ })
        | inr (p, found) ↦ rw found (record {
          old = v.old;
          alive =
              ground
                (arith, v.alive, is_armed-stop_other p.timer t s.armed (v.apart x.key p found));
          apart = registered_apart s x t v differ;
        })
      ]
