-- ===== src/Views/Parse/RoundTrip.antt =====
-- `ParseInt` reads what is printed in decimal.
use Prim.Native.String.{[], ◌∷◌}
use Prim.Native.Nat.{zero, suc}
use text.Mathlib.TextLemmas.{nil-append, cons-append, append_assoc, append-nil}
use pine_vid_backend.Prelude.{
  String, Char, Bool, true, false, ℕ, ◌+◌, ◌*◌, ◌/◌, ◌%◌, ◌^◌, ◌<◌, ◌<>◌, ◌≡◌, refl, sym, ap, ◌∙◌,
  arith, ltb, ltb→lt, Bool-cases, inl, inr,
}
use pine_vid_backend.Prelude.Int.{pos, two_63, two_64}
use pine_vid_backend.Livestream.Duration.{digit, decimal, show}
use pine_vid_backend.Livestream.Duration.RoundTrip.{digit-code, div-lt_pow}
use pine_vid_backend.Views.Parse.{value, digits, is_digit, parse_int}

digits-digit :
    (negative : Bool) (acc n : ℕ) (s : String)
    → n < 10
    → acc * 10 + n < two_64
    → digits negative acc (digit n ∷ s) ≡ digits negative (acc * 10 + n) s
unfolding digits
digits-digit negative acc n s h small = ground (arith, digit-code n h)

digits-first :
    (negative : Bool) (n : ℕ) (s : String)
    → n < 10
    → digits negative 0 (digit n ∷ s) ≡ digits negative n s
digits-first negative n s h =
    digits-digit negative 0 n s h (omega arith) ∙ ap (λ m. digits negative m s) (omega arith)

-- The digits of a number that fits in 64 bits, read from 0, give the number.
digits-decimal :
    (negative : Bool) (k n : ℕ) (s : String)
    → n < 10 ^ suc k
    → n < two_64
    → digits negative 0 (decimal k n <> s) ≡ digits negative n s
unfolding decimal
digits-decimal negative zero n s h small =
    rw (cons-append, nil-append) (digits-first negative n s (omega arith))
digits-decimal negative (suc k) n s h small = elim (Bool-cases (ltb n 10)) [
  | inl one ↦ rw (one, cons-append, nil-append) (digits-first negative n s (ltb→lt n 10 one))
  | inr more ↦
      rw (more, append_assoc, cons-append, nil-append)
        (digits-decimal negative k (n / 10) (digit (n % 10) ∷ s) (div-lt_pow k n h) (omega arith)
          ∙ digits-digit negative (n / 10) (n % 10) s (omega arith) (omega arith)
          ∙ ap (λ m. digits negative m s) (omega arith))
]

is_digit-digit : (n : ℕ) → n < 10 → is_digit (digit n) ≡ true
is_digit-digit n h = ground (arith, digit-code n h)

-- A printed number starts with a digit.
decimal_head :
    (k n : ℕ)
    → n < 10 ^ suc k
    → (c : Char) × (s : String) × (decimal k n ≡ c ∷ s) × (is_digit c ≡ true)
unfolding decimal
decimal_head zero n h = (digit n, "", refl, is_digit-digit n (omega arith))
decimal_head (suc k) n h = elim (Bool-cases (ltb n 10)) [
  | inl one ↦ (digit n, "", rw one refl, is_digit-digit n (ltb→lt n 10 one))
  | inr more ↦
      let (c, s, e, d) = decimal_head k (n / 10) (div-lt_pow k n h) in
      (
        c,
        s <> (digit (n % 10) ∷ []),
        rw more (ap (λ t. t <> (digit (n % 10) ∷ [])) e ∙ cons-append c s (digit (n % 10) ∷ [])),
        d,
      )
]

parse_int-digit :
    (c : Char) (s : String) → is_digit c ≡ true → parse_int (c ∷ s) ≡ digits false 0 (c ∷ s)
unfolding parse_int
parse_int-digit c s d = ground (arith, d)

-- An int64 that is not negative, printed in decimal and read by `ParseInt`, is the number.
pub parse_int-show : (n : ℕ) → n < two_63 → parse_int (show n) ≡ value (pos n)
unfolding show digits
parse_int-show n h =
    let (c, s, e, d) = decimal_head 18 n (omega arith) in
    ap parse_int e
    ∙ (parse_int-digit c s d
        ∙ (ap (digits false 0) (sym e ∙ sym (append-nil (decimal 18 n)))
            ∙ (digits-decimal false 18 n "" (omega arith) (omega arith) ∙ ground arith)))
