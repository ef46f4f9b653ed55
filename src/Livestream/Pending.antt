-- ===== src/Livestream/Pending.antt =====
-- The lemmas of the map of pending ends, of the armed timers and of the fired ones.
use pine_vid_backend.Prelude.{
  String, Bool, false, ◌||◌, none, some, List, [], ◌∷◌, ◌≡◌, ◌≢◌, refl, arith, eq_iff, str_eq,
  if◌then◌else◌,
}
use pine_vid_backend.Livestream.Deps.{Timer, PendingEnd, same_timer, stop, lookup, delete, insert}

pub lookup-delete :
    (key : String) (pending : List (String × PendingEnd)) → lookup key (delete key pending) ≡ none
unfolding lookup delete
lookup-delete key [] = refl
lookup-delete key ((k, p) ∷ rest) = ground (arith, eq_iff k key, lookup-delete key rest)

pub lookup-delete_other :
    (key other : String) (pending : List (String × PendingEnd))
    → other ≢ key
    → lookup other (delete key pending) ≡ lookup other pending
unfolding lookup delete
lookup-delete_other key other [] h = refl
lookup-delete_other key other ((k, p) ∷ rest) h =
    ground (arith, eq_iff k key, eq_iff k other, lookup-delete_other key other rest h)

pub lookup-insert :
    (key : String) (p : PendingEnd) (pending : List (String × PendingEnd))
    → lookup key (insert key p pending) ≡ some p
unfolding lookup
lookup-insert key p pending = ground (arith, eq_iff key key)

pub lookup-insert_other :
    (key other : String) (p : PendingEnd) (pending : List (String × PendingEnd))
    → other ≢ key
    → lookup other (insert key p pending) ≡ lookup other pending
unfolding lookup
lookup-insert_other key other p pending h =
    ground (arith, eq_iff key other, lookup-delete_other key other pending h)

-- Whether a timer is armed, and whether the function of a timer of this key waits.
unfoldable pub is_armed : Timer → List Timer → Bool
is_armed t [] = false
is_armed t (x ∷ xs) = same_timer x t || is_armed t xs

unfoldable pub is_fired : String → List String → Bool
is_fired key [] = false
is_fired key (k ∷ ks) = str_eq k key || is_fired key ks

-- One function that waited runs: the first of its key.
unfoldable pub run_one : String → List String → List String
run_one key [] = []
run_one key (k ∷ ks) = let rest = run_one key ks in if str_eq k key then ks else k ∷ rest

pub is_armed-stop_other :
    (t t' : Timer) (armed : List Timer)
    → same_timer t t' ≡ false
    → is_armed t' (stop t armed) ≡ is_armed t' armed
unfolding is_armed stop
is_armed-stop_other t t' [] h = refl
is_armed-stop_other t t' (x ∷ xs) h = ground (
  arith,
  is_armed-stop_other t t' xs h,
  eq_iff x.key t.key,
  eq_iff x.key t'.key,
  eq_iff t.key t'.key,
)

pub is_fired-run_one_other :
    (key other : String) (fired : List String)
    → other ≢ key
    → is_fired other (run_one key fired) ≡ is_fired other fired
unfolding is_fired run_one
is_fired-run_one_other key other [] h = refl
is_fired-run_one_other key other (k ∷ ks) h =
    ground (arith, eq_iff k key, eq_iff k other, is_fired-run_one_other key other ks h)
