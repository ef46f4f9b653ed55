-- ===== src/Views/Counting.antt =====
-- Each view is counted once: in Redis until the batch, in Postgres after it.
use pine_vid_backend.Prelude.{
  subst, ◌≢◌, [], ◌∷◌, String, ◌≡◌, sym, ap, ◌∙◌, arith, ℕ, ◌+◌, some, List, str_eq, if◌then◌else◌,
  inl, inr, All,
}
use pine_vid_backend.Prelude.Int.{ℤ, pos, ◌+ℤ◌, ◌-ℤ◌}
use pine_vid_backend.Effects.{
  ok, err, panic, Error, wrap, ignoring, wrapping, outcome_cases, then-ok, then-err, then-panic,
  wrapping_lem, ◌>>◌,
}
use pine_vid_backend.Prelude.IntSums.{minus_zero, minus_sum, moved_sum}
use pine_vid_backend.Views.{
  Redis, Postgres, Repo, view_key, lower, sync_each, sync_batch_views_to_postgres,
}

-- What Redis and Postgres count of the views of a video: `pending` is its counter in Redis, `stored`
-- in the committed row, and `staged` by the open transaction. The laws are those of the commands: what
-- the answered ones do to the counters of their keys, and that none touches another key or, from
-- Redis, a row. `IsRow` says that the video has a row: an update of a row that is missing changes
-- nothing. `IsRejected` are the errors with which Postgres says that it has not committed.
pub record Counts {W : Type 0} (redis : Redis W) (postgres : Postgres W) (IsRow : String → Type 0)
    (IsRejected : Error → Type 0) (pending : String → W → ℤ) (stored staged : String → W → ℕ)
    : Type 0 where
  -- SETNX may write the key it is given.
  pub set_nx_keeps :
      (key u : String) (w : W) → key ≢ view_key u → pending u (redis.set_nx key w).1 ≡ pending u w
  pub stored-set_nx : (key u : String) (w : W) → stored u (redis.set_nx key w).1 ≡ stored u w
  -- ZINCRBY and EXPIRE may change the key they are given, and make it expire.
  pub tally_keeps :
      (key v u : String) (w : W)
      → key ≢ view_key u
      → pending u (redis.tally key v w).1 ≡ pending u w
  pub stored-tally : (key v u : String) (w : W) → stored u (redis.tally key v w).1 ≡ stored u w
  pub incr_counts :
      (v u : String) (w w' : W) (n : ℤ)
      → redis.incr (view_key v) w ≡ (ok n, w')
      → (pending u w' ≡ (if str_eq u v then pending u w +ℤ pos 1 else pending u w))
        × (stored u w' ≡ stored u w)
  pub decr_by_counts :
      (v u : String) (n : ℕ) (w w' : W) (m : ℤ)
      → redis.decr_by (view_key v) (pos n) w ≡ (ok m, w')
      → (pending u w' ≡ (if str_eq u v then pending u w -ℤ pos n else pending u w))
        × (stored u w' ≡ stored u w)
        × (staged u w' ≡ staged u w)
  pub begin_starts :
      (u : String) (w w' : W)
      → postgres.begin w ≡ (ok tt, w')
      → (pending u w' ≡ pending u w) × (stored u w' ≡ stored u w) × (staged u w' ≡ 0)
  pub tx_add_views_stages :
      (v u : String) (n : ℕ) (w w' : W)
      → IsRow v
      → postgres.tx_add_views v (pos n) w ≡ (ok tt, w')
      → (pending u w' ≡ pending u w)
        × (stored u w' ≡ stored u w)
        × (staged u w' ≡ (if str_eq u v then staged u w + n else staged u w))
  pub commit_stores :
      (u : String) (w w' : W)
      → postgres.commit w ≡ (ok tt, w')
      → (pending u w' ≡ pending u w) × (stored u w' ≡ stored u w + staged u w)
  pub commit_fails :
      (u : String) (w w' : W) (e : Error)
      → IsRejected e
      → postgres.commit w ≡ (err e, w')
      → (pending u w' ≡ pending u w) × (stored u w' ≡ stored u w)
  pub rollback_keeps :
      (u : String) (w : W)
      → (pending u (ignoring postgres.rollback w).1 ≡ pending u w)
        × (stored u (ignoring postgres.rollback w).1 ≡ stored u w)

-- The batch: an entry for each video, in any order.
abbrev pub entries : List (String × ℕ) → List (String × ℤ)
entries [] = []
entries ((v, n) ∷ ps) = (v, pos n) ∷ entries ps

-- The views of a video in the batch.
unfoldable pub amount : String → List (String × ℕ) → ℕ
amount u [] = 0
amount u ((v, n) ∷ ps) = if str_eq u v then n + amount u ps else amount u ps

module _ {W : Type 0} (r : Repo W) (redis : Redis W) where
  abbrev after_lower : String → ℕ → W → W
  after_lower v n w = (redis.decr_by (view_key v) (pos n) w).1

  -- Redis answers each DECRBY of a run of the batch. (SyncBatchViewsToPostgres does not look.)
  abbrev pub IsAnswered : List (String × ℕ) → W → Type 0
  IsAnswered [] w = Unit
  IsAnswered ((v, n) ∷ ps) w =
      let w₁ = (r.postgres.tx_add_views v (pos n) w).1 in
      (answer : ℤ) × (redis.decr_by (view_key v) (pos n) w₁ ≡ (ok answer, after_lower v n w₁))
      × IsAnswered ps (after_lower v n w₁)

  abbrev IsAnsweredAt : String → ℕ → List (String × ℕ) → W → Type 0
  IsAnsweredAt v n ps w₁ =
      (answer : ℤ) × (redis.decr_by (view_key v) (pos n) w₁ ≡ (ok answer, after_lower v n w₁))
      × IsAnswered ps (after_lower v n w₁)

module _ {W : Type 0} (r : Repo W) (redis : Redis W) (IsRow : String → Type 0)
    (IsRejected : Error → Type 0) (pending : String → W → ℤ) (stored staged : String → W → ℕ)
    (on : r.redis ≡ some redis)
    (laws : Counts redis r.postgres IsRow IsRejected pending stored staged) where
  sync_one :
      (v : String) (n : ℕ) (ps : List (String × ℕ)) (w w₁ : W) (answer : ℤ)
      → r.postgres.tx_add_views v (pos n) w ≡ (ok tt, w₁)
      → redis.decr_by (view_key v) (pos n) w₁ ≡ (ok answer, after_lower r redis v n w₁)
      → sync_each r (entries ((v, n) ∷ ps)) w
        ≡ sync_each r (entries ps) (after_lower r redis v n w₁)
  unfolding sync_each
  sync_one v n ps w w₁ answer added lowered =
      let text : String = "ViewRepo - SyncBatchViewsToPostgres - Exec" in
      then-ok (wrapping text (r.postgres.tx_add_views v (pos n)))
        (lower r.redis v (pos n) >> sync_each r (entries ps)) tt w w₁
        (wrapping_lem text (r.postgres.tx_add_views v (pos n)) _ w added)
      ∙ then-ok (lower r.redis v (pos n)) (sync_each r (entries ps)) tt w₁ _
          (ap (λ o. lower o v (pos n) w₁) on ∙ ap (λ p. ignoring (λ (_ : W). p) w₁) lowered)

  sync_one_err :
      (v : String) (n : ℕ) (ps : List (String × ℕ)) (w w₁ : W) (e : Error)
      → r.postgres.tx_add_views v (pos n) w ≡ (err e, w₁)
      → sync_each r (entries ((v, n) ∷ ps)) w
        ≡ (err (wrap "ViewRepo - SyncBatchViewsToPostgres - Exec" e), w₁)
  unfolding sync_each
  sync_one_err v n ps w w₁ e failed =
      let text : String = "ViewRepo - SyncBatchViewsToPostgres - Exec" in
      then-err (wrapping text (r.postgres.tx_add_views v (pos n)))
        (λ _. lower r.redis v (pos n) >> sync_each r (entries ps)) (wrap text e) w w₁
        (wrapping_lem text (r.postgres.tx_add_views v (pos n)) _ w failed)

  sync_one_panic :
      (v : String) (n : ℕ) (ps : List (String × ℕ)) (w w₁ : W)
      → r.postgres.tx_add_views v (pos n) w ≡ (panic, w₁)
      → sync_each r (entries ((v, n) ∷ ps)) w ≡ (panic, w₁)
  unfolding sync_each
  sync_one_panic v n ps w w₁ failed =
      let text : String = "ViewRepo - SyncBatchViewsToPostgres - Exec" in
      then-panic (wrapping text (r.postgres.tx_add_views v (pos n)))
        (λ _. lower r.redis v (pos n) >> sync_each r (entries ps)) w w₁
        (wrapping_lem text (r.postgres.tx_add_views v (pos n)) _ w failed)

  done_here :
      (u : String) (w w' : W)
      → sync_each r [] w ≡ (ok tt, w')
      → (pending u w' ≡ pending u w -ℤ pos 0)
        × (stored u w' ≡ stored u w)
        × (staged u w' ≡ staged u w + 0)
  unfolding sync_each
  done_here u w w' done =
      let same : w ≡ w' = ap (λ p. p.1) done in
      ground (
        arith,
        minus_zero (pending u w),
        ap (pending u) same,
        ap (stored u) same,
        ap (staged u) same,
      )

  -- The updates of the batch that succeed are staged, and the counters are lowered.
  sync_each_counts :
      (u : String) (ps : List (String × ℕ)) (w w' : W)
      → All (λ p. IsRow p.0) ps
      → IsAnswered r redis ps w
      → sync_each r (entries ps) w ≡ (ok tt, w')
      → (pending u w' ≡ pending u w -ℤ pos (amount u ps))
        × (stored u w' ≡ stored u w)
        × (staged u w' ≡ staged u w + amount u ps)
  unfolding amount
  sync_each_counts u [] w w' rows answered done = done_here u w w' done
  sync_each_counts u ((v, n) ∷ ps) w w' rows answered done =
      elim (outcome_cases (r.postgres.tx_add_views v (pos n) w)) [
        | inl (t, w₁, added) ↦
            let (answer, sent, rest) =
              subst (IsAnsweredAt r redis v n ps) (ap (λ p. p.1) added) answered in
            let later =
              sync_each_counts u ps (after_lower r redis v n w₁) w' rows.1 rest
                (sym (sync_one v n ps w w₁ answer added sent) ∙ done) in
            let here = laws.tx_add_views_stages v u n w w₁ rows.0 added in
            let lowered = laws.decr_by_counts v u n w₁ (after_lower r redis v n w₁) answer sent in
            ground (arith, later, here, lowered, minus_sum (pending u w) n (amount u ps))
        | inr (inl (e, w₁, failed)) ↦
            absurd (ground (arith, sync_one_err v n ps w w₁ e failed, done))
        | inr (inr (w₁, failed)) ↦ absurd (ground (arith, sync_one_panic v n ps w w₁ failed, done))
      ]

  -- A batch over videos that have rows, during which Redis answers each DECRBY, moves views and loses
  -- none: if SyncBatchViewsToPostgres succeeds, the stored views of each video have grown by its
  -- entries in the batch, its counter in Redis has shrunk by as much, also below zero, and the sum of
  -- the two is unchanged.
  pub sync_moves_views :
      (u : String) (ps : List (String × ℕ)) (w w' : W)
      → All (λ p. IsRow p.0) ps
      → IsAnswered r redis ps (r.postgres.begin w).1
      → sync_batch_views_to_postgres r (entries ps) w ≡ (ok tt, w')
      → (stored u w' ≡ stored u w + amount u ps)
        × (pending u w' ≡ pending u w -ℤ pos (amount u ps))
        × (pos (stored u w') +ℤ pending u w' ≡ pos (stored u w) +ℤ pending u w)
  unfolding sync_batch_views_to_postgres amount
  sync_moves_views u [] w w' rows answered done =
      let same : w ≡ w' = ap (λ p. p.1) done in
      ground (arith, minus_zero (pending u w), ap (pending u) same, ap (stored u) same)
  sync_moves_views u ((v, n) ∷ ps) w w' rows answered done =
      elim (outcome_cases (r.postgres.begin w)) [
        | inl (t, w₁, began) ↦ elim (outcome_cases (sync_each r (entries ((v, n) ∷ ps)) w₁)) [
          | inl (t', w₂, added) ↦ elim (outcome_cases (r.postgres.commit w₂)) [
            | inl (t'', w₃, committed) ↦ ground (
              arith,
              laws.begin_starts u w w₁ began,
              sync_each_counts u ((v, n) ∷ ps) w₁ w₂ rows
                  (subst (IsAnswered r redis ((v, n) ∷ ps)) (ap (λ p. p.1) began) answered) added,
              laws.commit_stores u w₂ w₃ committed,
              laws.rollback_keeps u w₃,
              moved_sum (pending u w) (stored u w) (amount u ((v, n) ∷ ps)),
            )
            | inr (inl (e, w₃, failed)) ↦ absurd (ground arith)
            | inr (inr (w₃, failed)) ↦ absurd (ground arith)
          ]
          | inr (inl (e, w₂, failed)) ↦ absurd (ground arith)
          | inr (inr (w₂, failed)) ↦ absurd (ground arith)
        ]
        | inr (inl (e, w₁, failed)) ↦ absurd (ground arith)
        | inr (inr (w₁, failed)) ↦ absurd (ground arith)
      ]

  -- A batch over videos that have rows, during which Redis answers each DECRBY, loses its views if
  -- Postgres rejects the commit: the counters in Redis are lowered, and nothing is stored in Postgres.
  pub failed_commit_loses_views :
      (u : String) (p : String × ℕ) (ps : List (String × ℕ)) (w w₁ w₂ w₃ : W) (e : Error)
      → All (λ p. IsRow p.0) (p ∷ ps)
      → IsRejected e
      → r.postgres.begin w ≡ (ok tt, w₁)
      → IsAnswered r redis (p ∷ ps) w₁
      → sync_each r (entries (p ∷ ps)) w₁ ≡ (ok tt, w₂)
      → r.postgres.commit w₂ ≡ (err e, w₃)
      → (w' : W) × (sync_batch_views_to_postgres r (entries (p ∷ ps)) w
          ≡ (err (wrap "ViewRepo - SyncBatchViewsToPostgres - Commit" e), w'))
        × (stored u w' ≡ stored u w)
        × (pending u w' ≡ pending u w -ℤ pos (amount u (p ∷ ps)))
  unfolding sync_batch_views_to_postgres
  failed_commit_loses_views u (v, n) ps w w₁ w₂ w₃ e rows rejected began answered added failed =
      let rolled = laws.rollback_keeps u w₃ in
      let counted = sync_each_counts u ((v, n) ∷ ps) w₁ w₂ rows answered added in
      (
        (ignoring r.postgres.rollback w₃).1,
        ground (arith, began, added, failed),
        ground (
          arith,
          rolled,
          counted,
          laws.begin_starts u w w₁ began,
          laws.commit_fails u w₂ w₃ e rejected failed,
        ),
        ground (
          arith,
          rolled,
          counted,
          laws.begin_starts u w w₁ began,
          laws.commit_fails u w₂ w₃ e rejected failed,
        ),
      )
