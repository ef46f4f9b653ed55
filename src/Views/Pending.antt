-- ===== src/Views/Pending.antt =====
-- `GetPendingViews`: the loop over the cursors of SCAN. `W` is the world while the loop runs.
pub mod Complete
use Prim.Native.Nat.{zero, suc}
use Prim.Native.String.{len, slice}
use text.Mathlib.Text.{starts_with}
use text.Mathlib.TextPositions.{starts_with-append, slice-append_right, len-append}
use pine_vid_backend.Prelude.{
  String, Bool, true, false, ◌<>◌, ◌≡◌, ◌≢◌, refl, ap, sym, ◌∙◌, arith, eq_iff, str_eq, ℕ, ◌≤◌,
  ◌==◌, ==_iff, Option, none, some, List, [], ◌∷◌, ◌++◌, map, if◌then◌else◌, Option-cases,
  Bool-cases, inl, inr,
}
use pine_vid_backend.Prelude.Int.{ℤ, pos, ltb_ℤ}
use pine_vid_backend.Prelude.Assoc.{write}
use pine_vid_backend.Effects.{Result, ok, err, panic, Error, wrap, wrap_result, Result-cases}
use pine_vid_backend.Views.{Redis, Repo, view_key, view_prefix, trim_prefix}
use pine_vid_backend.Views.Parse.{Parsed, value, syntax_error, range_error, parse_int}

abbrev pub Pending : Type 0
Pending = List (String × ℤ)

-- A count that is a number above 0.
abbrev pub positive : Parsed → Option ℤ
positive (value n) = if ltb_ℤ (pos 0) n then some n else none
positive syntax_error = none
positive (range_error n) = none

abbrev pub count_of : Result String → Option ℤ
count_of (ok s) = positive (parse_int s)
count_of (err e) = none
count_of panic = none

abbrev pub note : Option ℤ → String → Pending → Pending
note none video_id pending = pending
note (some n) video_id pending = write video_id n pending

module _ {W : Type 0} (redis : Redis W) (w : W) where
  -- The keys of one page.
  unfoldable pub gather : List String → Pending → Pending
  gather [] pending = pending
  gather (key ∷ keys) pending =
      gather keys (note (count_of (redis.get key w)) (trim_prefix key view_prefix) pending)

  -- `none` means that the fuel has run out.
  unfoldable pub scan_from : ℕ → ℕ → Pending → Option (Result Pending)
  scan_from zero cursor pending = none
  scan_from (suc fuel) cursor pending = elim (redis.scan cursor (view_prefix <> "*") w) [
    | ok (keys, cursor') ↦
        let rest = scan_from fuel cursor' (gather keys pending) in
        if cursor' == 0 then some (ok (gather keys pending)) else rest
    | err e ↦ some (err (wrap "ViewRepo - GetPendingViews - Scan" e))
    | panic ↦ some panic
  ]

abbrev pub pending_with : {W : Type 0} → ℕ → Option (Redis W) → W → Option (Result Pending)
pending_with fuel none w = some (ok [])
pending_with fuel (some redis) w = scan_from redis w fuel 0 []

unfoldable pub get_pending_views : {W : Type 0} → ℕ → Repo W → W → Option (Result Pending)
get_pending_views fuel r w = pending_with fuel r.redis w
