-- ===== src/Livestream/Duration.antt =====
-- `dvrDuration` (internal/usecase/livestream/livestream.go). Times are nanoseconds. `int(d.Hours())`
-- is computed in float64, which truncates as the division below for less than 1024 hours.
pub mod RoundTrip
use Prim.Native.Nat.{zero, suc}
use Prim.Native.String.{[], ◌∷◌}
use pine_vid_backend.Prelude.{
  String, Char, code, ℕ, ◌+◌, ◌-◌, ◌*◌, ◌/◌, ◌%◌, Option, none, some, ltb, leb, ◌==◌, ◌<>◌,
  if◌then◌else◌,
}
use pine_vid_backend.Entity.Video.{Time}

abbrev pub second : ℕ
second = 1000000000

abbrev pub digit : ℕ → Char
digit n =
    if n == 0
    then "0"
    else if n == 1
    then "1"
    else if n == 2
    then "2"
    else if n == 3
    then "3"
    else if n == 4
    then "4"
    else if n == 5
    then "5"
    else if n == 6
    then "6"
    else if n == 7
    then "7"
    else if n == 8
    then "8"
    else "9"

-- The decimal digits of a number of `k + 1` digits at most.
unfoldable pub decimal : ℕ → ℕ → String
decimal zero n = digit n ∷ []
decimal (suc k) n =
    let rest = decimal k (n / 10) in
    if ltb n 10 then digit n ∷ [] else rest <> (digit (n % 10) ∷ [])

-- The decimal digits of an int64 that is not negative: 19 at most.
unfoldable pub show : ℕ → String
unfolding decimal
show = decimal 18

-- `%02d` of an int64 that is not negative, and of one that is.
unfoldable pub two_digits : ℕ → String
two_digits n = if ltb n 10 then digit 0 ∷ (digit n ∷ []) else show n

unfoldable pub minus : ℕ → String
minus zero = two_digits zero
minus (suc n) = "-" <> show (suc n)

-- `dvrDuration`. If the clock has gone back, the parts are negative.
unfoldable pub dvr_duration : Option Time → Time → String
dvr_duration none now = "00:00"
dvr_duration (some started_at) now =
    if leb started_at now
    then (let dur = now - started_at in
        let h = dur / (3600 * second) in
        let m = dur / (60 * second) % 60 in
        let s = dur / second % 60 in
        if ltb 0 h
        then two_digits h <> (":" <> (two_digits m <> (":" <> two_digits s)))
        else two_digits m <> (":" <> two_digits s))
    else (let dur = started_at - now in
        minus (dur / (60 * second) % 60) <> (":" <> minus (dur / second % 60)))
