-- ===== src/Views/Pending/Complete.antt =====
-- The scan ends when Redis hands out the cursor 0, and it has then found every pending count.
use Prim.Native.Nat.{suc}
use pine_vid_backend.Prelude.{String, ◌<>◌, ◌≡◌, ◌≢◌, ℕ, Option, none, some, List, ◌++◌}
use pine_vid_backend.Prelude.Int.{ℤ}
use pine_vid_backend.Effects.{ok}
use pine_vid_backend.Views.{Redis, view_key, view_prefix}
use pine_vid_backend.Views.Pending.{Pending, count_of}

module _ {W : Type 0} (redis : Redis W) (w : W) where
  -- What SCAN answers from a cursor on: pages with `keys`, and the cursor 0 after `n` calls at most.
  pub data Pages : ℕ → List String → ℕ → Type 0 where
    last :
        {cursor : ℕ} {keys : List String} (n : ℕ)
        → redis.scan cursor (view_prefix <> "*") w ≡ ok (keys, 0)
        → Pages cursor keys (suc n)
    more :
        {cursor cursor' : ℕ} {keys later all : List String} {n : ℕ}
        → redis.scan cursor (view_prefix <> "*") w ≡ ok (keys, cursor')
        → cursor' ≢ 0
        → Pages cursor' later n
        → all ≡ keys ++ later
        → Pages cursor all (suc n)

-- The value of the second, where the first has none.
abbrev pub or_else : Option ℤ → Option ℤ → Option ℤ
or_else none o = o
or_else (some n) o = some n

module _ {W : Type 0} (redis : Redis W) (w : W) where
  abbrev pub pending_of : String → Option ℤ
  pending_of v = count_of (redis.get (view_key v) w)
