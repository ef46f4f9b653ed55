-- ===== src/Events/Forward/Order.antt =====
-- What the reader of a forwarded channel gets, and the goroutine that is left behind.
use pine_vid_backend.Prelude.{
  not, true, false, ◌≡◌, refl, sym, ap, subst, ◌∙◌, arith, List, [], ◌∷◌, ◌++◌, map, append_assoc,
  append-nil,
}
use pine_vid_backend.Events.Forward.{
  Phase, waiting, holding, finished, Forwarder, started, Step, accepts, takes, hands, finishes,
  leaves, Steps, here, next,
}

abbrev pub held : {N : Type 0} → Phase N → List N
held waiting = []
held (holding n) = n ∷ []
held finished = []

map-append_one :
    {M N : Type 0} (f : M → N) (xs : List M) (x : M) → map f (xs ++ x ∷ []) ≡ map f xs ++ f x ∷ []
map-append_one f [] x = refl
map-append_one f (y ∷ xs) x = ap (◌∷◌ (f y)) (map-append_one f xs x)

module _ {M N : Type 0} (f : M → N) where
  -- What the goroutine has received, holds, and will still receive is what the hub's channel took.
  abbrev IsOrdered : Forwarder M N → Type 0
  IsOrdered s = s.received ++ (held s.phase ++ map f s.buffer) ≡ map f s.accepted

  -- The equation with the phase at hand.
  at_phase :
      (s : Forwarder M N) {p : Phase N}
      → s.phase ≡ p
      → IsOrdered s
      → s.received ++ (held p ++ map f s.buffer) ≡ map f s.accepted
  at_phase s e h = sym (ap (λ p. s.received ++ (held p ++ map f s.buffer)) e) ∙ h

  Step-IsOrdered : {s s' : Forwarder M N} → Step f s s' → IsOrdered s → IsOrdered s'
  Step-IsOrdered (accepts {s} msg opened e) h =
      subst IsOrdered (sym e) (
        rw (map-append_one f s.buffer msg, map-append_one f s.accepted msg, ← h)
          (simp append_assoc))
  Step-IsOrdered (takes {s} msg rest p b e) h =
      subst IsOrdered (sym e) (sym (ap (λ xs. s.received ++ map f xs) b) ∙ at_phase s p h)
  Step-IsOrdered (hands {s} n p reader e) h =
      subst IsOrdered (sym e) (append_assoc s.received (n ∷ []) (map f s.buffer) ∙ at_phase s p h)
  Step-IsOrdered (finishes {s} p closed b e) h = subst IsOrdered (sym e) (at_phase s p h)
  Step-IsOrdered (leaves {s} reader e) h = subst IsOrdered (sym e) h

  -- The reader gets the accepted messages, converted, in the order of the hub's channel and without a
  -- gap: what it has got, the message in the goroutine's hand, and the buffer make up all of them.
  pub received_in_order :
      {s : Forwarder M N}
      → Steps f started s
      → s.received ++ (held s.phase ++ map f s.buffer) ≡ map f s.accepted
  received_in_order here = refl
  received_in_order (next r st) = Step-IsOrdered st (received_in_order r)

  Step-stuck :
      {s s' : Forwarder M N} (n : N)
      → Step f s s'
      → s.phase ≡ holding n
      → s.reader ≡ false
      → (s'.phase ≡ holding n) × (s'.reader ≡ false)
  Step-stuck n (accepts msg opened e) p gone = (rw e p, rw e gone)
  Step-stuck n (takes msg rest q b e) p gone = absurd (ground (arith, p, q))
  Step-stuck n (hands m q reader e) p gone = absurd (ground (arith, gone, reader))
  Step-stuck n (finishes q closed b e) p gone = absurd (ground (arith, p, q))
  Step-stuck n (leaves reader e) p gone = absurd (ground (arith, gone, reader))

  -- A goroutine that holds a message when the reader has left is left behind: whatever happens later,
  -- it still holds the message, and so has not returned.
  pub left_behind :
      {s s' : Forwarder M N} (n : N)
      → Steps f s s'
      → s.phase ≡ holding n
      → s.reader ≡ false
      → (s'.phase ≡ holding n) × (s'.reader ≡ false)
  left_behind n here p gone = (p, gone)
  left_behind n (next r st) p gone =
      let (p', gone') = left_behind n r p gone in Step-stuck n st p' gone'

  before : {s t u : Forwarder M N} → Step f s t → Steps f t u → Steps f s u
  before st here = next here st
  before st (next r last) = next (before st r) last

  -- While there is a reader, the goroutine can hand it all that the channel holds.
  drain :
      (buffer : List M) (s : Forwarder M N)
      → s.buffer ≡ buffer
      → s.phase ≡ waiting
      → s.reader ≡ true
      → (s' : Forwarder M N) × Steps f s s'
        × (s'.buffer ≡ [])
        × (s'.phase ≡ waiting)
        × (s'.received ≡ s.received ++ map f buffer)
  drain [] s b p reader = (s, here, b, p, sym (append-nil s.received))
  drain (msg ∷ rest) s b p reader =
      let s₁ : Forwarder M N = record s { buffer = rest; phase = holding (f msg) } in
      let s₂ : Forwarder M N = record s₁ { phase = waiting; received = s.received ++ f msg ∷ [] } in
      let (s', steps, b', p', r') = drain rest s₂ refl refl reader in
      (
        s',
        before (takes msg rest p b refl) (before (hands (f msg) refl reader refl) steps),
        b',
        p',
        r' ∙ append_assoc s.received (f msg ∷ []) (map f rest),
      )

  -- The hub's channel is open exactly while there is a reader, and the goroutine returns after that.
  abbrev IsServed : Forwarder M N → Type 0
  IsServed s = (s.closed ≡ not s.reader) × (s.phase ≡ finished → s.closed ≡ true)

  Step-IsServed : {s s' : Forwarder M N} → Step f s s' → IsServed s → IsServed s'
  Step-IsServed (accepts msg opened e) h = subst IsServed (sym e) h
  Step-IsServed (takes msg rest p b e) h = subst IsServed (sym e) (h.0, λ q. cc)
  Step-IsServed (hands n p reader e) h = subst IsServed (sym e) (h.0, λ q. cc)
  Step-IsServed (finishes p closed b e) h = subst IsServed (sym e) (h.0, λ q. closed)
  Step-IsServed (leaves reader e) h = subst IsServed (sym e) (refl, λ q. refl)

  Steps-IsServed : {s : Forwarder M N} → Steps f started s → IsServed s
  Steps-IsServed here = (refl, λ q. cc)
  Steps-IsServed (next r st) = Step-IsServed st (Steps-IsServed r)

  deliver_from :
      (p : Phase N) (s : Forwarder M N)
      → IsServed s
      → s.phase ≡ p
      → s.reader ≡ true
      → (s' : Forwarder M N) × Steps f s s'
        × (s'.received ≡ s.received ++ (held p ++ map f s.buffer))
  deliver_from waiting s v p reader =
      let (s', steps, b, q, got) = drain s.buffer s refl p reader in (s', steps, got)
  deliver_from (holding n) s v p reader =
      let s₁ : Forwarder M N = record s { phase = waiting; received = s.received ++ n ∷ [] } in
      let (s', steps, b, q, got) = drain s.buffer s₁ refl refl reader in
      (
        s',
        before (hands n p reader refl) steps,
        got ∙ append_assoc s.received (n ∷ []) (map f s.buffer),
      )
  deliver_from finished s v p reader = absurd (ground (arith, v.0, v.1 p, reader))

  -- As long as the reader is there, it can still be brought up to date: from every state that is
  -- reached some steps of the goroutine hand it all the messages that the hub's channel has taken.
  pub can_catch_up :
      {s : Forwarder M N}
      → Steps f started s
      → s.reader ≡ true
      → (s' : Forwarder M N) × Steps f s s' × (s'.received ≡ map f s.accepted)
  can_catch_up {s} r reader =
      let (s', steps, got) = deliver_from s.phase s (Steps-IsServed r) refl reader in
      (s', steps, got ∙ received_in_order r)
