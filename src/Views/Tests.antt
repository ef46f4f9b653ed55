-- ===== src/Views/Tests.antt =====
-- The theorems about views at concrete counters.
use Prim.Native.Nat.{suc, zero}
use pine_vid_backend.Prelude.{
  String, true, false, ◌≡◌, refl, ℕ, ◌+◌, some, List, [], ◌∷◌, str_eq, if◌then◌else◌,
}
use pine_vid_backend.Prelude.Int.{ℤ, pos, ◌+ℤ◌, ◌-ℤ◌}
use pine_vid_backend.Effects.{ok, err, message, wrap}
use pine_vid_backend.Views.{
  Redis, Repo, view_key, record_view, sync_each, sync_batch_views_to_postgres,
}
use pine_vid_backend.Views.Parse.{parse_int, digits, value}
use pine_vid_backend.Views.Counting.{entries, amount, sync_moves_views, failed_commit_loses_views}
use pine_vid_backend.Views.Memory.{Rows, repo, redis, memory-Counts}
use pine_vid_backend.Views.Pending.{Pending}

-- Three pending views of "v1" and two stored ones.
abbrev rows : Rows
unfolding view_key
rows = record {
  counters = λ k. if str_eq k "video_views:v1" then pos 3 else pos 0;
  stored = λ v. if str_eq v "v1" then 2 else 0;
  staged = λ v. 0;
  seen = λ k. false;
}

abbrev after_view : Rows
after_view = (record_view (repo true) "v1" "1.2.3.4" "phone" 0 rows).1

abbrev batch : List (String × ℕ)
batch = ("v1", 3) ∷ ("v2", 0) ∷ []

abbrev after_sync : Rows
after_sync = (sync_batch_views_to_postgres (repo true) (entries batch) rows).1

sync_moves_views_example :
    (after_sync.stored "v1" ≡ rows.stored "v1" + 3)
    × (after_sync.counters (view_key "v1") ≡ rows.counters (view_key "v1") -ℤ pos 3)
    × (pos (after_sync.stored "v1") +ℤ after_sync.counters (view_key "v1")
        ≡ pos (rows.stored "v1") +ℤ rows.counters (view_key "v1"))
unfolding sync_batch_views_to_postgres sync_each amount view_key rows ◌+ℤ◌ ◌-ℤ◌
sync_moves_views_example =
    sync_moves_views (repo true) redis (λ v. Unit {0}) (λ e. Unit {0})
      (λ u w. w.counters (view_key u)) (λ u w. w.stored u) (λ u w. w.staged u) refl
      (memory-Counts true) "v1" batch rows after_sync (tt, (tt, tt))
      (pos 0, refl, (pos 0, refl, tt)) refl

failed_commit_loses_views_example :
    (w' : Rows) × (sync_batch_views_to_postgres (repo false) (entries batch) rows
      ≡ (err (wrap "ViewRepo - SyncBatchViewsToPostgres - Commit" (message "down")), w'))
    × (w'.stored "v1" ≡ rows.stored "v1")
    × (w'.counters (view_key "v1") ≡ rows.counters (view_key "v1") -ℤ pos 3)
unfolding sync_batch_views_to_postgres sync_each amount view_key rows ◌+ℤ◌ ◌-ℤ◌
failed_commit_loses_views_example =
    failed_commit_loses_views (repo false) redis (λ v. Unit {0}) (λ e. Unit {0})
      (λ u w. w.counters (view_key u)) (λ u w. w.stored u) (λ u w. w.staged u) refl
      (memory-Counts false) "v1" ("v1", 3) (("v2", 0) ∷ []) rows (record rows { staged = λ u. 0 })
      (sync_each (repo false) (entries batch) (record rows { staged = λ u. 0 })).1
      (sync_each (repo false) (entries batch) (record rows { staged = λ u. 0 })).1 (message "down")
      (tt, (tt, tt)) tt refl (pos 0, refl, (pos 0, refl, tt)) refl refl

-- Two pages: the cursor 5, then the end.
abbrev paged : Redis Rows
unfolding view_key
paged = record redis {
  scan = λ cursor pattern w. elim cursor [
    | zero ↦ ok (view_key "v1" ∷ [], 5)
    | suc n ↦ ok (view_key "v2" ∷ [], 0)
  ];
}

abbrev paged_repo : Repo Rows
paged_repo = record (repo true) { redis = some paged }

-- Tests of `ParseInt`.
parsed : parse_int "-42" ≡ value (ℤ.negsuc 41)
unfolding parse_int digits
parsed = refl
