-- ===== src/Views/Memory.antt =====
-- Redis and Postgres in memory: the counters by key, and the views by video.
use text.Mathlib.TextLemmas.{append_cancel_left}
use pine_vid_backend.Prelude.{
  String, Bool, true, false, not, ◌≡◌, refl, arith, eq_iff, ap, ℕ, suc, ◌<>◌, ◌+◌, some, [], str_eq,
  Bool-cases, inl, inr, if◌then◌else◌,
}
use pine_vid_backend.Prelude.Int.{ℤ, pos, negsuc, pos_part, ◌+ℤ◌, ◌-ℤ◌}
use pine_vid_backend.Effects.{ok, err, message, Exec, Error}
use pine_vid_backend.Livestream.Duration.{show}
use pine_vid_backend.Views.{Redis, Postgres, Repo, view_key, view_prefix}
use pine_vid_backend.Views.Counting.{Counts}

pub record Rows : Type 0 where
  pub counters : String → ℤ
  pub stored : String → ℕ
  pub staged : String → ℕ
  pub seen : String → Bool

abbrev pub change : {A : Type 0} → String → (A → A) → (String → A) → String → A
change v f m u = if str_eq u v then f (m u) else m u

abbrev pub show_int : ℤ → String
show_int (pos n) = show n
show_int (negsuc n) = "-" <> show (suc n)

abbrev pub redis : Redis Rows
redis = record {
  set_nx = λ key w.
      (ok (not (w.seen key)), record w { seen = λ k. if str_eq k key then true else w.seen k });
  get = λ key w. ok (show_int (w.counters key));
  incr = λ key w. (
    ok (w.counters key +ℤ pos 1),
    record w { counters = change key (λ n. n +ℤ pos 1) w.counters },
  );
  decr_by = λ key n w.
      (ok (w.counters key -ℤ n), record w { counters = change key (λ m. m -ℤ n) w.counters });
  tally = λ key v w. (ok tt, w);
  z_union_store = λ key keys w. (ok tt, w);
  z_rev_range = λ key from to w. ok [];
  del = λ key w. (ok tt, w);
  scan = λ cursor pattern w. ok ([], 0);
}

-- A commit, or the failure of one.
abbrev pub commit_rows : Bool → Exec Rows Unit
commit_rows true w = (ok tt, record w { stored = λ u. w.stored u + w.staged u })
commit_rows false w = (err (message "down"), w)

abbrev pub postgres : Bool → Postgres Rows
postgres commits = record {
  add_views = λ v n w. (ok tt, record w { stored = change v (λ m. m + pos_part n) w.stored });
  begin = λ w. (ok tt, record w { staged = λ u. 0 });
  tx_add_views = λ v n w. (ok tt, record w { staged = change v (λ m. m + pos_part n) w.staged });
  commit = commit_rows commits;
  rollback = λ w. (ok tt, record w { staged = λ u. 0 });
}

abbrev pub repo : Bool → Repo Rows
repo commits = record {
  postgres = postgres commits;
  redis = some redis;
  fingerprint = λ s. s;
  day = λ now i. "2026-01-01";
}

-- Different videos have different keys.
view_key-eq : (u v : String) → str_eq (view_key u) (view_key v) ≡ str_eq u v
unfolding view_key
view_key-eq u v = elim (Bool-cases (str_eq u v)) [
  | inl same ↦
      ground
        (arith, eq_iff u v, eq_iff (view_key u) (view_key v), ap view_key ((eq_iff u v).0 same))
  | inr apart ↦ elim (Bool-cases (str_eq (view_key u) (view_key v))) [
    | inl equal ↦ absurd (
        ground (
          arith,
          eq_iff u v,
          append_cancel_left view_prefix u v ((eq_iff (view_key u) (view_key v)).0 equal),
        ))
    | inr differ ↦ rw (differ, apart) refl
  ]
]

commit_rows_stores :
    (commits : Bool) (u : String) (w w' : Rows)
    → commit_rows commits w ≡ (ok tt, w')
    → (w'.counters (view_key u) ≡ w.counters (view_key u)) × (w'.stored u ≡ w.stored u + w.staged u)
commit_rows_stores true u w w' done =
    ground (arith, ap (λ p. p.1.counters (view_key u)) done, ap (λ p. p.1.stored u) done)
commit_rows_stores false u w w' done = absurd (ground (arith, done))

commit_rows_fails :
    (commits : Bool) (u : String) (w w' : Rows) (e : Error)
    → commit_rows commits w ≡ (err e, w')
    → (w'.counters (view_key u) ≡ w.counters (view_key u)) × (w'.stored u ≡ w.stored u)
commit_rows_fails true u w w' e done = absurd (ground (arith, done))
commit_rows_fails false u w w' e done =
    ground (arith, ap (λ p. p.1.counters (view_key u)) done, ap (λ p. p.1.stored u) done)

pub memory-Counts :
    (commits : Bool)
    → Counts redis
        (postgres commits)
        (λ v. Unit {0})
        (λ e. Unit {0})
        (λ u w. w.counters (view_key u))
        (λ u w. w.stored u)
        (λ u w. w.staged u)
memory-Counts commits = record {
  set_nx_keeps = λ key u w apart. refl;
  stored-set_nx = λ key u w. refl;
  tally_keeps = λ key v u w apart. refl;
  stored-tally = λ key v u w. refl;
  incr_counts = λ v u w w' n done. ground (
    arith,
    view_key-eq u v,
    ap (λ p. p.1.counters (view_key u)) done,
    ap (λ p. p.1.stored u) done,
  );
  decr_by_counts = λ v u n w w' m done. ground (
    arith,
    view_key-eq u v,
    ap (λ p. p.1.counters (view_key u)) done,
    ap (λ p. p.1.stored u) done,
    ap (λ p. p.1.staged u) done,
  );
  begin_starts = λ u w w' done. ground (
    arith,
    ap (λ p. p.1.counters (view_key u)) done,
    ap (λ p. p.1.stored u) done,
    ap (λ p. p.1.staged u) done,
  );
  tx_add_views_stages = λ v u n w w' row done. ground (
    arith,
    ap (λ p. p.1.counters (view_key u)) done,
    ap (λ p. p.1.stored u) done,
    ap (λ p. p.1.staged u) done,
  );
  commit_stores = commit_rows_stores commits;
  commit_fails = λ u w w' e rejected failed. commit_rows_fails commits u w w' e failed;
  rollback_keeps = λ u w. (refl, refl);
}
