-- ===== src/Livestream/Duration/RoundTrip.antt =====
-- The text of a duration gives the seconds back.
use Prim.Native.Nat.{zero, suc}
use Prim.Native.String.{[], ◌∷◌}
use text.Mathlib.TextLemmas.{nil-append, cons-append, append_assoc, append-nil}
use native.Mathlib.Nat.{pow-suc}
use pine_vid_backend.Prelude.{
  String, code, ℕ, ◌+◌, ◌-◌, ◌*◌, ◌/◌, ◌%◌, ◌^◌, ◌<◌, ◌≤◌, ◌≡◌, refl, arith, some, ltb, leb, ◌<>◌,
  ◌==◌, if◌then◌else◌, ap, ◌∙◌, Bool-cases, inl, inr, ltb→lt, sym, true, false,
}
use pine_vid_backend.Entity.Video.{Time}
use pine_vid_backend.Livestream.Duration.{second, digit, decimal, show, two_digits, dvr_duration}

-- Reads fields between colons: each field counts sixty times the next.
abbrev pub read : ℕ → ℕ → String → ℕ
read total field [] = total * 60 + field
read total field (c ∷ s) =
    if code c == b':'
    then read (total * 60 + field) 0 s
    else read total (field * 10 + (code c - b'0')) s

pub seconds_of : String → ℕ
seconds_of = read 0 0

pub digit-code : (n : ℕ) → n < 10 → code (digit n) ≡ b'0' + n
digit-code zero h = refl
digit-code (suc zero) h = refl
digit-code (suc (suc zero)) h = refl
digit-code (suc (suc (suc zero))) h = refl
digit-code (suc (suc (suc (suc zero)))) h = refl
digit-code (suc (suc (suc (suc (suc zero))))) h = refl
digit-code (suc (suc (suc (suc (suc (suc zero)))))) h = refl
digit-code (suc (suc (suc (suc (suc (suc (suc zero))))))) h = refl
digit-code (suc (suc (suc (suc (suc (suc (suc (suc zero)))))))) h = refl
digit-code (suc (suc (suc (suc (suc (suc (suc (suc (suc zero))))))))) h = refl
digit-code (suc (suc (suc (suc (suc (suc (suc (suc (suc (suc n)))))))))) h = absurd (omega arith)

read-digit :
    (n total field : ℕ) (s : String)
    → n < 10
    → read total field (digit n ∷ s) ≡ read total (field * 10 + n) s
read-digit n total field s h = ground (arith, digit-code n h)

read-first : (n total : ℕ) (s : String) → n < 10 → read total 0 (digit n ∷ s) ≡ read total n s
read-first n total s h = read-digit n total 0 s h ∙ ap (λ f. read total f s) (omega arith)

pub div-lt_pow : (k n : ℕ) → n < 10 ^ suc (suc k) → n / 10 < 10 ^ suc k
div-lt_pow k n h = omega (arith, pow-suc 10 (suc k))

-- The digits of a number, read from the start of a field, give the number.
read-decimal :
    (k n total : ℕ) (s : String) → n < 10 ^ suc k → read total 0 (decimal k n <> s) ≡ read total n s
unfolding decimal
read-decimal zero n total s h = rw (cons-append, nil-append) (read-first n total s (omega arith))
read-decimal (suc k) n total s h = elim (Bool-cases (ltb n 10)) [
  | inl small ↦ rw (small, cons-append, nil-append) (read-first n total s (ltb→lt n 10 small))
  | inr large ↦
      rw (large, append_assoc, cons-append, nil-append)
        (read-decimal k (n / 10) total (digit (n % 10) ∷ s) (div-lt_pow k n h)
          ∙ read-digit (n % 10) total (n / 10) s (omega arith)
          ∙ ap (λ f. read total f s) (omega arith))
]

read-show : (n total : ℕ) (s : String) → n < 10 ^ 19 → read total 0 (show n <> s) ≡ read total n s
unfolding show
read-show = read-decimal 18

le→leb : (a b : ℕ) → a ≤ b → leb a b ≡ true
le→leb a b h = ground arith

read-two_digits :
    (n total : ℕ) (s : String) → n < 10 ^ 19 → read total 0 (two_digits n <> s) ≡ read total n s
unfolding two_digits
read-two_digits n total s h = elim (Bool-cases (ltb n 10)) [
  | inl small ↦
      rw (small, cons-append, cons-append, nil-append)
        (read-first 0 total (digit n ∷ s) (omega arith) ∙ read-first n total s (ltb→lt n 10 small))
  | inr large ↦ rw large (read-show n total s h)
]

colon : (total field : ℕ) (s : String) → read total field (":" <> s) ≡ read (total * 60 + field) 0 s
colon total field s = rw (cons-append, nil-append) refl

read_last : (n total : ℕ) → n < 10 ^ 19 → read total 0 (two_digits n) ≡ total * 60 + n
read_last n total h =
    ap (read total 0) (sym (append-nil (two_digits n))) ∙ read-two_digits n total [] h

read-clock :
    (n m total : ℕ)
    → n < 10 ^ 19
    → m < 10 ^ 19
    → read total 0 (two_digits n <> (":" <> two_digits m)) ≡ (total * 60 + n) * 60 + m
read-clock n m total hn hm =
    read-two_digits n total (":" <> two_digits m) hn
    ∙ colon total n (two_digits m)
    ∙ read_last m (total * 60 + n) hm

read-long_clock :
    (h n m : ℕ)
    → h < 10 ^ 19
    → n < 10 ^ 19
    → m < 10 ^ 19
    → read 0 0 (two_digits h <> (":" <> (two_digits n <> (":" <> two_digits m))))
      ≡ (h * 60 + n) * 60 + m
read-long_clock h n m hh hn hm =
    read-two_digits h 0 (":" <> (two_digits n <> (":" <> two_digits m))) hh
    ∙ colon 0 h (two_digits n <> (":" <> two_digits m))
    ∙ read-clock n m (0 * 60 + h) hn hm
    ∙ omega arith

clock_total :
    (dur : ℕ)
    → (dur / (3600 * second) * 60 + dur / (60 * second) % 60) * 60 + dur / second % 60
      ≡ dur / second
clock_total dur = omega arith

short_clock :
    (dur : ℕ)
    → ltb 0 (dur / (3600 * second)) ≡ false
    → (0 * 60 + dur / (60 * second) % 60) * 60 + dur / second % 60 ≡ dur / second
short_clock dur h = ground arith

-- Of a stream that started before now, the text of the duration reads as its length in seconds.
pub seconds_of-dvr_duration :
    (started_at now : Time)
    → started_at ≤ now
    → now - started_at < 2 ^ 63
    → seconds_of (dvr_duration (some started_at) now) ≡ (now - started_at) / second
unfolding seconds_of dvr_duration
seconds_of-dvr_duration started_at now order bound =
    let dur = now - started_at in
    let h = dur / (3600 * second) in
    let m = dur / (60 * second) % 60 in
    let s = dur / second % 60 in
    rw (le→leb started_at now order) (elim (Bool-cases (ltb 0 h)) [
      | inl long ↦
          rw long
            (read-long_clock h m s (omega arith) (omega arith) (omega arith) ∙ clock_total dur)
      | inr short ↦ rw short (read-clock m s 0 (omega arith) (omega arith) ∙ short_clock dur short)
    ])
