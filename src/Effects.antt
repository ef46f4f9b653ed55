-- ===== src/Effects.antt =====
-- What a handler does: errors as values (internal/entity/errors.go and the `Err…` variables of
-- internal/entity), state passing, and the goroutines that a handler starts.
use pine_vid_backend.Prelude.{
  String, Bool, true, false, ◌≡◌, refl, ap, sym, ◌∙◌, arith, ◌⊎◌, inl, inr,
}

-- The sentinel errors of internal/entity, errors with a text of their own (also those of the
-- database and the message queue), and `fmt.Errorf("…: %w", err)`.
pub data Error : Type 0 where
  user_not_found user_already_exists invalid_credentials user_banned : Error
  cannot_follow_self invalid_transition : Error
  video_not_found unsupported_video_format video_forbidden video_not_failed : Error
  livestream_not_found invalid_stream_key : Error
  comment_not_found invalid_parent_id post_not_found post_forbidden : Error
  message : String → Error
  wrap : String → Error → Error

-- The result of a call that may fail or panic.
pub data Result (A : Type 0) : Type 0 where
  ok : A → Result A
  err : Error → Result A
  panic : Result A

-- A call on a state `S`. What was written before an error stays written.
abbrev pub Exec : Type 0 → Type 0 → Type 0
Exec S A = S → Result A × S

module _ {S A : Type 0} where
  abbrev pub pure : A → Exec S A
  pure a s = (ok a, s)

  abbrev pub raise : Error → Exec S A
  raise e s = (err e, s)

  -- A query: it returns a result and changes nothing.
  abbrev pub query : (S → Result A) → Exec S A
  query f s = (f s, s)

  -- `if err != nil { return …, fmt.Errorf("text: %w", err) }`
  abbrev pub wrapping : String → Exec S A → Exec S A
  wrapping text m s =
      let (r, s') = m s in
      elim r [ ok a ↦ (ok a, s') | err e ↦ (err (wrap text e), s') | panic ↦ (panic, s') ]

  -- `if err != nil { return …, e }`
  abbrev pub failing_with : Error → Exec S A → Exec S A
  failing_with e m s =
      let (r, s') = m s in elim r [ ok a ↦ (ok a, s') | err _ ↦ (err e, s') | panic ↦ (panic, s') ]

  -- `_ = call()`: the error is dropped.
  abbrev pub ignoring : Exec S A → Exec S Unit
  ignoring m s =
      let (r, s') = m s in elim r [ ok a ↦ (ok tt, s') | err e ↦ (ok tt, s') | panic ↦ (panic, s') ]

-- `a, _ = call()`, with the value that stands there after an error.
abbrev pub or_else : {S A : Type 0} → A → Exec S A → Exec S A
or_else d m s =
    let (r, s') = m s in elim r [ ok a ↦ (ok a, s') | err e ↦ (ok d, s') | panic ↦ (panic, s') ]

infixl 5 ◌>>=◌ ◌>>◌
abbrev pub ◌>>=◌ : {S A B : Type 0} → Exec S A → (A → Exec S B) → Exec S B
◌>>=◌ m f s =
    let (r, s') = m s in elim r [ ok a ↦ f a s' | err e ↦ (err e, s') | panic ↦ (panic, s') ]

abbrev pub ◌>>◌ : {S A B : Type 0} → Exec S A → Exec S B → Exec S B
m >> k = m >>= λ _. k

abbrev pub guard : {S : Type 0} → Bool → Error → Exec S Unit
guard true e s = (ok tt, s)
guard false e s = (err e, s)

-- A wrapped error of a query.
abbrev pub wrap_result : {A : Type 0} → String → Result A → Result A
wrap_result text (ok a) = ok a
wrap_result text (err e) = err (wrap text e)
wrap_result text panic = panic

-- `if r, err := query(); err == nil { use r }`, with what stands there otherwise.
abbrev pub ok_or : {A : Type 0} → A → Result A → A
ok_or d (ok a) = a
ok_or d (err e) = d
ok_or d panic = d

module _ {A : Type 0} where
  -- To split on a computed result and keep the equation.
  pub Result-cases :
      (r : Result A) → ((a : A) × (r ≡ ok a)) ⊎ ((e : Error) × (r ≡ err e)) ⊎ (r ≡ panic)
  Result-cases (ok a) = inl (a, refl)
  Result-cases (err e) = inr (inl (e, refl))
  Result-cases panic = inr (inr refl)

module _ {S A : Type 0} where
  pub outcome_cases :
      (p : Result A × S)
      → ((a : A) × (s : S) × (p ≡ (ok a, s)))
        ⊎ ((e : Error) × (s : S) × (p ≡ (err e, s)))
        ⊎ ((s : S) × (p ≡ (panic, s)))
  outcome_cases (ok a, s) = inl (a, s, refl)
  outcome_cases (err e, s) = inr (inl (e, s, refl))
  outcome_cases (panic, s) = inr (inr (s, refl))

pub wrap_result-eq-ok :
    {A : Type 0} (text : String) (r : Result A) (a : A) → wrap_result text r ≡ ok a → r ≡ ok a
wrap_result-eq-ok text (ok b) a h = h
wrap_result-eq-ok text (err e) a h = cc
wrap_result-eq-ok text panic a h = cc

-- A call that succeeds hands its state to the next.
pub then-ok :
    {S A B : Type 0} (m : Exec S A) (k : Exec S B) (a : A) (s t : S)
    → m s ≡ (ok a, t)
    → (m >> k) s ≡ k t
then-ok {S = S} m k a s t e = ap (λ p. ((λ (_ : S). p) >> k) s) e

-- A call that fails is the end of a sequence.
pub then-err :
    {S A B : Type 0} (m : Exec S A) (f : A → Exec S B) (e : Error) (s t : S)
    → m s ≡ (err e, t)
    → (m >>= f) s ≡ (err e, t)
then-err {S = S} m f e s t h = ap (λ p. ((λ (_ : S). p) >>= f) s) h

pub then-panic :
    {S A B : Type 0} (m : Exec S A) (f : A → Exec S B) (s t : S)
    → m s ≡ (panic, t)
    → (m >>= f) s ≡ (panic, t)
then-panic {S = S} m f s t h = ap (λ p. ((λ (_ : S). p) >>= f) s) h

-- A wrapped error leaves the rest of a call as it is.
pub wrapping_lem :
    {S A : Type 0} (text : String) (m : Exec S A) (p : Result A × S) (s : S)
    → m s ≡ p
    → wrapping text m s ≡ wrapping text (λ _. p) s
wrapping_lem {S = S} text m p s h = ap (λ q. wrapping text (λ (_ : S). q) s) h

pub wrapping-eq-ok :
    {S A : Type 0} (text : String) (m : Exec S A) (a : A) (s t : S)
    → wrapping text m s ≡ (ok a, t)
    → m s ≡ (ok a, t)
wrapping-eq-ok text m a s t h = elim (outcome_cases (m s)) [
  | inl (b, s', e) ↦ e ∙ (sym (wrapping_lem text m (ok b, s') s e) ∙ h)
  | inr (inl (x, s', e)) ↦ absurd (ground (arith, wrapping_lem text m (err x, s') s e, h))
  | inr (inr (s', e)) ↦ absurd (ground (arith, wrapping_lem text m (panic, s') s e, h))
]
