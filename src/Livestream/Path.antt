-- ===== src/Livestream/Path.antt =====
-- `filepath.Join` on a Unix path: the elements that are not empty, joined by slashes, cleaned.
use Prim.Native.String.{[], ◌∷◌}
use mathlib.Core.List.{reverse}
use text.Mathlib.TextLemmas.{cons-append, cons-ne-nil, append-ne-nil_of_right_ne-nil}
use pine_vid_backend.Prelude.{
  String, Char, code, ◌==◌, ◌<>◌, ◌≡◌, ◌≢◌, refl, arith, eq_iff, sym, ◌∙◌, inl, inr, Bool-cases,
  str_eq, List, if◌then◌else◌, Bool, true, false,
}

abbrev pub on_first : Char → List String → List String
on_first c List.[] = List.[]
on_first c (List.◌∷◌ part parts) = List.◌∷◌ (c ∷ part) parts

-- The parts between the slashes.
unfoldable pub parts_of : String → List String
parts_of [] = List.◌∷◌ "" List.[]
parts_of (c ∷ s) =
    let rest = parts_of s in if code c == b'/' then List.◌∷◌ "" rest else on_first c rest

-- One `..` of a path: it takes the last element away, stays where there is none or where it is `..`
-- itself, and is dropped at the root. The stack holds the last element first.
abbrev pub up : Bool → List String → List String
up true List.[] = List.[]
up false List.[] = List.◌∷◌ ".." List.[]
up rooted (List.◌∷◌ top below) =
    if str_eq top ".." then List.◌∷◌ ".." (List.◌∷◌ top below) else below

unfoldable pub clean_parts : Bool → List String → List String → List String
clean_parts rooted List.[] stack = reverse stack
clean_parts rooted (List.◌∷◌ part parts) stack = clean_parts rooted parts (
    if str_eq part ""
    then stack
    else if str_eq part "."
    then stack
    else if str_eq part ".."
    then up rooted stack
    else List.◌∷◌ part stack)

unfoldable pub slashed : List String → String
slashed List.[] = ""
slashed (List.◌∷◌ part List.[]) = part
slashed (List.◌∷◌ part (List.◌∷◌ next parts)) = part <> ("/" <> slashed (List.◌∷◌ next parts))

abbrev pub is_rooted : String → Bool
is_rooted [] = false
is_rooted (c ∷ s) = code c == b'/'

unfoldable pub clean : String → String
unfolding parts_of clean_parts slashed
clean path =
    let rooted = is_rooted path in
    let text = slashed (clean_parts rooted (parts_of path) List.[]) in
    if rooted then "/" <> text else if str_eq text "" then "." else text

abbrev pub join_text : String → String → String
join_text a b = if str_eq a "" then b else if str_eq b "" then a else a <> ("/" <> b)

unfoldable pub join : String → String → String → String
join a b c = let path = join_text (join_text a b) c in if str_eq path "" then "" else clean path

join_plain :
    join "/usr/local/srs/dvr" "live" "sk_live_1.flv" ≡ "/usr/local/srs/dvr/live/sk_live_1.flv"
unfolding join clean
join_plain = refl

join_up : join "./dvr/" "live" "../../../etc/a.flv" ≡ "../etc/a.flv"
unfolding join clean
join_up = refl

slash_ne : (s : String) → "/" <> s ≢ ""
slash_ne s h = cons-ne-nil "/" ([] <> s) (sym (cons-append "/" [] s) ∙ h)

text_ne :
    (rooted : Bool) (text : String)
    → (if rooted then "/" <> text else if str_eq text "" then "." else text) ≢ ""
text_ne true text = slash_ne text
text_ne false text = elim (Bool-cases (str_eq text "")) [
  | inl empty ↦ rw empty (λ h. cons-ne-nil "." [] h)
  | inr given ↦ rw given (λ h. ground (arith, eq_iff text ""))
]

join_text_ne : (a b : String) → b ≢ "" → join_text a b ≢ ""
join_text_ne a b given h =
    ground (arith, eq_iff a "", eq_iff b "", append-ne-nil_of_right_ne-nil a (slash_ne b))

clean_ne : (path : String) → clean path ≢ ""
unfolding clean
clean_ne path = text_ne (is_rooted path) _

-- A path that ends in an element that is not empty is not empty.
pub join_ne : (a b c : String) → c ≢ "" → join a b c ≢ ""
unfolding join
join_ne a b c given =
    let path = join_text (join_text a b) c in
    elim (Bool-cases (str_eq path "")) [
      | inl empty ↦ λ h. join_text_ne (join_text a b) c given (ground (arith, eq_iff path ""))
      | inr some_text ↦ rw some_text (clean_ne path)
    ]
