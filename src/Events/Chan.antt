-- ===== src/Events/Chan.antt =====
-- What the hubs use of Go: buffered channels, known by their numbers, maps, and calls that may panic
-- or wait for a mutex for ever.
use pine_vid_backend.Prelude.{
  String, Bool, true, false, not, ◌&&◌, ◌||◌, ◌==◌, ==_iff, ltb, ℕ, ◌≡◌, refl, ◌≤◌, arith, List, [],
  ◌∷◌, ◌++◌, length, length-append, str_eq, if◌then◌else◌,
}

-- A call returns, panics, or waits for ever.
pub data Outcome (S A : Type 0) : Type 0 where
  done : A → S → Outcome S A
  panicked : S → Outcome S A
  blocked : Outcome S A

pub record Chan (M : Type 0) : Type 0 where
  pub capacity : ℕ
  pub buffer : List M
  pub closed : Bool

-- `make(chan M, n)`
abbrev pub make : {M : Type 0} → ℕ → Chan M
make n = record { capacity = n; buffer = []; closed = false }

-- What a map holds after the write of one key.
abbrev pub set_key {ℓ} : {V : Type ℓ} → String → V → (String → V) → String → V
set_key k v m j = if str_eq j k then v else m j

module _ {M : Type 0} where
  -- A channel takes a message if there is room.
  unfoldable pub offer : M → Chan M → Chan M
  offer msg c =
      if ltb (length c.buffer) c.capacity then record c { buffer = c.buffer ++ msg ∷ [] } else c

  -- What the heap holds after a write to one channel.
  unfoldable pub set_chan : ℕ → Chan M → (ℕ → Chan M) → ℕ → Chan M
  set_chan c x chans d = if d == c then x else chans d

  abbrev pub close : ℕ → (ℕ → Chan M) → ℕ → Chan M
  close c chans = set_chan c (record (chans c) { closed = true }) chans

  -- A reader takes the first message of the buffer.
  unfoldable pub rest : List M → List M
  rest [] = []
  rest (msg ∷ msgs) = msgs

  unfoldable pub receive : ℕ → (ℕ → Chan M) → ℕ → Chan M
  receive c chans = set_chan c (record (chans c) { buffer = rest (chans c).buffer }) chans

  abbrev pub Fits : Chan M → Type 0
  Fits c = length c.buffer ≤ c.capacity

  pub offer-Fits : (msg : M) (c : Chan M) → Fits c → Fits (offer msg c)
  unfolding offer
  offer-Fits msg c h = ground (arith, length-append c.buffer (msg ∷ []))

  -- An offer leaves all but the buffer alone.
  pub closed-offer : (msg : M) (c : Chan M) → (offer msg c).closed ≡ c.closed
  unfolding offer
  closed-offer msg c = ground arith

  pub capacity-offer : (msg : M) (c : Chan M) → (offer msg c).capacity ≡ c.capacity
  unfolding offer
  capacity-offer msg c = ground arith

  pub length-rest : (xs : List M) → length (rest xs) ≤ length xs
  unfolding rest
  length-rest [] = omega arith
  length-rest (x ∷ xs) = omega arith

-- A set of channels: the keys of a Go map, or the entries of a slice.
unfoldable pub mem : ℕ → List ℕ → Bool
mem c [] = false
mem c (x ∷ xs) = x == c || mem c xs

unfoldable pub remove : ℕ → List ℕ → List ℕ
remove c [] = []
remove c (x ∷ xs) = let below = remove c xs in if x == c then below else x ∷ below

abbrev pub Distinct : List ℕ → Type 0
Distinct [] = Unit {0}
Distinct (x ∷ xs) = (mem x xs ≡ false) × Distinct xs

pub mem-remove : (c d : ℕ) (xs : List ℕ) → mem d (remove c xs) ≡ (not (d == c) && mem d xs)
unfolding mem remove
mem-remove c d [] = ground arith
mem-remove c d (x ∷ xs) = ground (arith, mem-remove c d xs, ==_iff x c, ==_iff x d, ==_iff d c)

pub remove-Distinct : (c : ℕ) (xs : List ℕ) → Distinct xs → Distinct (remove c xs)
unfolding remove
remove-Distinct c [] h = tt
remove-Distinct c (x ∷ xs) h =
    ground (arith, remove-Distinct c xs h.1, mem-remove c x xs, ==_iff x c)

-- The same to each channel of a list, in its order.
unfoldable pub each : {M : Type 0} → (Chan M → Chan M) → List ℕ → (ℕ → Chan M) → ℕ → Chan M
each f [] chans = chans
each f (c ∷ cs) chans = each f cs (set_chan c (f (chans c)) chans)

-- Each channel of the list is changed once, and no other.
pub each_lem :
    {M : Type 0} (f : Chan M → Chan M) (cs : List ℕ) (chans : ℕ → Chan M) (d : ℕ)
    → Distinct cs
    → each f cs chans d ≡ (if mem d cs then f (chans d) else chans d)
unfolding each mem set_chan
each_lem f [] chans d h = refl
each_lem f (c ∷ cs) chans d h =
    ground (arith, each_lem f cs (set_chan c (f (chans c)) chans) d h.1, ==_iff d c, ==_iff c d)
