-- ===== src/Views/Parse.antt =====
-- `strconv.ParseInt(s, 10, 64)`.
pub mod RoundTrip
use Prim.Native.String.{[], ◌∷◌}
use pine_vid_backend.Prelude.{
  String, Char, code, Bool, true, false, not, ◌&&◌, ℕ, ◌+◌, ◌-◌, ◌*◌, ◌==◌, ltb, leb, if◌then◌else◌,
}
use pine_vid_backend.Prelude.Int.{ℤ, pos, negsuc, two_63, two_64}

-- A number, or an error: what is not a number, and what is out of range with the nearest int64.
pub data Parsed : Type 0 where
  value : ℤ → Parsed
  syntax_error : Parsed
  range_error : ℤ → Parsed

-- What `ParseInt` returns beside the error.
abbrev pub parsed_value : Parsed → ℤ
parsed_value (value n) = n
parsed_value syntax_error = pos 0
parsed_value (range_error n) = n

-- The negative of a magnitude.
abbrev pub negated : ℕ → ℤ
negated n = if n == 0 then pos 0 else negsuc (n - 1)

-- The sign and the magnitude, which fits in 64 bits.
abbrev pub in_range : Bool → ℕ → Parsed
in_range negative n =
    if negative
    then (if ltb two_63 n then range_error (negated two_63) else value (negated n))
    else (if leb two_63 n then range_error (pos (two_63 - 1)) else value (pos n))

abbrev pub is_digit : Char → Bool
is_digit c = leb b'0' (code c) && leb (code c) b'9'

-- `ParseUint` gives up at the first character that is no digit, or at the first digit with which the
-- number is too large.
unfoldable pub digits : Bool → ℕ → String → Parsed
digits negative n [] = in_range negative n
digits negative n (c ∷ s) =
    let n' = n * 10 + (code c - b'0') in
    let rest = digits negative n' s in
    if not (is_digit c)
    then syntax_error
    else if leb two_64 n'
    then in_range negative (two_64 - 1)
    else rest

-- At least one digit.
abbrev pub unsigned : Bool → String → Parsed
unsigned negative [] = syntax_error
unsigned negative (c ∷ s) = digits negative 0 (c ∷ s)

unfoldable pub parse_int : String → Parsed
parse_int [] = syntax_error
parse_int (c ∷ s) =
    if code c == b'-'
    then unsigned true s
    else if code c == b'+'
    then unsigned false s
    else unsigned false (c ∷ s)
