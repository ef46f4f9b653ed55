-- ===== src/Events/Members.antt =====
-- What holds of the channels of a hub between calls: `members` are the channels that are subscribed
-- under each key, `next` is the first channel that is not allocated.
use Prim.Native.Nat.{suc}
use pine_vid_backend.Prelude.{
  String, true, false, ◌≡◌, ◌<◌, ◌&&◌, ◌||◌, not, arith, eq_iff, str_eq, ◌==◌, ==_iff, ℕ, List,
  if◌then◌else◌, Bool-cases, inl, inr,
}
use pine_vid_backend.Events.Chan.{
  Chan, make, set_chan, close, mem, Distinct, each, each_lem, Fits, receive, length-rest,
}

module _ {M : Type 0} (cap : ℕ) where
  pub record IsValid (members : String → List ℕ) (chans : ℕ → Chan M) (next : ℕ) : Type 0 where
    -- A subscribed channel is allocated and open.
    pub allocated : (k : String) (c : ℕ) → mem c (members k) ≡ true → c < next
    pub opened : (k : String) (c : ℕ) → mem c (members k) ≡ true → (chans c).closed ≡ false
    -- It is subscribed under one key, once.
    pub one_key :
        (k j : String) (c : ℕ) → mem c (members k) ≡ true → mem c (members j) ≡ true → k ≡ j
    pub distinct : (k : String) → Distinct (members k)
    -- No buffer holds more than its capacity.
    pub sized : (c : ℕ) → (chans c).capacity ≡ cap
    pub fitting : (c : ℕ) → Fits (chans c)

module _ {M : Type 0} {cap : ℕ} {members : String → List ℕ} {chans : ℕ → Chan M} {next : ℕ}
    (v : IsValid cap members chans next) (k : String) where
  -- Nobody listens on a channel that is not allocated.
  pub mem-next : mem next (members k) ≡ false
  mem-next = elim (Bool-cases (mem next (members k))) [
    | inl listens ↦ absurd (omega (arith, v.allocated k next listens))
    | inr not_in ↦ not_in
  ]

  -- The next channel is added under `k`.
  pub joined-IsValid :
      (room : List ℕ) (after : String → List ℕ)
      → ((j : String) → after j ≡ (if str_eq j k then room else members j))
      → ((c : ℕ) → mem c room ≡ (next == c || mem c (members k)))
      → Distinct room
      → IsValid cap after (set_chan next (make cap) chans) (suc next)
  unfolding set_chan
  joined-IsValid room after e m apart = record {
    allocated =
        λ j c listens. ground (arith, e j, m c, v.allocated k c, v.allocated j c, ==_iff next c);
    opened = λ j c listens. ground (
      arith,
      e j,
      m c,
      v.opened k c,
      v.opened j c,
      v.allocated k c,
      v.allocated j c,
      ==_iff c next,
      ==_iff next c,
    );
    one_key = λ i j c listens listens'. ground (
      arith,
      e i,
      e j,
      m c,
      v.one_key k i c,
      v.one_key i k c,
      v.one_key k j c,
      v.one_key i j c,
      v.allocated i c,
      v.allocated j c,
      v.allocated k c,
      eq_iff i k,
      eq_iff j k,
      ==_iff next c,
    );
    distinct = λ j. rw (e j) (ground (arith, v.distinct j));
    sized = λ c. ground (arith, v.sized c);
    fitting = λ c. ground (arith, v.fitting c);
  }

  -- The channel `c` of `k` is removed and closed.
  module _ (c : ℕ) (listens : mem c (members k) ≡ true) (room : List ℕ) (after : String → List ℕ)
      (e : (j : String) → after j ≡ (if str_eq j k then room else members j))
      (m : (d : ℕ) → mem d room ≡ (not (d == c) && mem d (members k))) where
    was_listening :
        (j : String) (d : ℕ)
        → mem d (after j) ≡ true
        → (mem d (members j) ≡ true) × ((d == c) ≡ false)
    was_listening j d now = elim (Bool-cases (str_eq j k)) [
      | inl same ↦ ground (arith, e j, m d, eq_iff j k)
      | inr apart ↦ ground (arith, e j, v.one_key j k c, ==_iff d c, eq_iff j k)
    ]

    pub closing-IsValid : Distinct room → IsValid cap after (close c chans) next
    unfolding set_chan
    closing-IsValid apart = record {
      allocated = λ j d now. v.allocated j d (was_listening j d now).0;
      opened = λ j d now.
          let (before, other) = was_listening j d now in ground (arith, v.opened j d before);
      one_key =
          λ i j d now now'. v.one_key i j d (was_listening i d now).0 (was_listening j d now').0;
      distinct = λ j. rw (e j) (ground (arith, v.distinct j));
      sized = λ d. ground (arith, v.sized d, ==_iff d c);
      fitting = λ d. ground (arith, v.fitting d, ==_iff d c);
    }

  -- The channels under `k` are changed in a way that keeps all but the buffer.
  module _ (f : Chan M → Chan M) where
    pub each_member :
        (c : ℕ) → each f (members k) chans c ≡ (if mem c (members k) then f (chans c) else chans c)
    each_member c = each_lem f (members k) chans c (v.distinct k)

    pub each-IsValid :
        ((c : Chan M)
          → ((f c).closed ≡ c.closed) × ((f c).capacity ≡ c.capacity) × (Fits c → Fits (f c)))
        → IsValid cap members (each f (members k) chans) next
    each-IsValid keeps = record {
      allocated = v.allocated;
      opened = λ j c listens.
          rw (each_member c) (ground (arith, v.opened j c listens, (keeps (chans c)).0));
      one_key = v.one_key;
      distinct = v.distinct;
      sized = λ c. rw (each_member c) (ground (arith, v.sized c, (keeps (chans c)).1));
      fitting = λ c. rw (each_member c) (ground (arith, v.fitting c, (keeps (chans c)).2));
    }

module _ {M : Type 0} {cap : ℕ} {members : String → List ℕ} {chans : ℕ → Chan M} {next : ℕ} where
  pub receive-IsValid :
      IsValid cap members chans next → (c : ℕ) → IsValid cap members (receive c chans) next
  unfolding receive set_chan
  receive-IsValid v c = record {
    allocated = v.allocated;
    opened = λ j d listens. ground (arith, v.opened j d listens, ==_iff d c);
    one_key = v.one_key;
    distinct = v.distinct;
    sized = λ d. ground (arith, v.sized d, ==_iff d c);
    fitting =
        λ d. ground (arith, v.fitting d, v.fitting c, ==_iff d c, length-rest (chans c).buffer);
  }
