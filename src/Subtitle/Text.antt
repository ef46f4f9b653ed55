-- ===== src/Subtitle/Text.antt =====
-- What the VTT parser uses of the package `strings`.
use Prim.Native.String.{[], ◌∷◌, len, slice}
use text.Mathlib.Text.{starts_with}
use pine_vid_backend.Prelude.{
  String, Char, code, Bool, true, false, ◌&&◌, ◌||◌, ◌==◌, ◌<>◌, ℕ, ◌-◌, leb, Option, none, some,
  List, str_eq, if◌then◌else◌,
}

abbrev pub on_first : Char → List String → List String
on_first c List.[] = List.[]
on_first c (List.◌∷◌ part parts) = List.◌∷◌ (c ∷ part) parts

-- `strings.Split` at one character.
unfoldable pub split_char : ℕ → String → List String
split_char sep [] = List.◌∷◌ "" List.[]
split_char sep (c ∷ s) =
    let below = split_char sep s in if code c == sep then List.◌∷◌ "" below else on_first c below

-- `strings.Split` at "\n\n": of three line feeds the first two separate.
unfoldable pub split_blank : String → List String
split_blank [] = List.◌∷◌ "" List.[]
split_blank (c ∷ []) = List.◌∷◌ (c ∷ []) List.[]
split_blank (c ∷ (d ∷ s)) =
    let after = split_blank s in
    let below = split_blank (d ∷ s) in
    if code c == 10 && code d == 10 then List.◌∷◌ "" after else on_first c below

-- The white space of ASCII, with which `strings.TrimSpace` and `strings.Fields` deal, and the spaces
-- of Unicode.
unfoldable pub is_space : Char → Bool
is_space c =
    let n = code c in
    (leb 9 n && leb n 13)
    || (n == 32
        || (n == 133
            || (n == 160
                || (n == 5760
                    || ((leb 8192 n && leb n 8202)
                        || (n == 8232
                            || (n == 8233 || (n == 8239 || (n == 8287 || n == 12288)))))))))

unfoldable pub trim_left : String → String
trim_left [] = ""
trim_left (c ∷ s) = let below = trim_left s in if is_space c then below else c ∷ s

-- A character before a text that is trimmed on the right.
abbrev pub before_trimmed : Char → String → String
before_trimmed c [] = if is_space c then "" else c ∷ []
before_trimmed c (d ∷ s) = c ∷ (d ∷ s)

unfoldable pub trim_right : String → String
trim_right [] = ""
trim_right (c ∷ s) = before_trimmed c (trim_right s)

unfoldable pub trim_space : String → String
trim_space s = trim_right (trim_left s)

-- The first of `strings.Fields`: up to a space, behind the leading ones; none if there is nothing.
unfoldable pub first_word : String → String
first_word [] = ""
first_word (c ∷ s) = let below = first_word s in if is_space c then "" else c ∷ below

unfoldable pub first_field : String → Option String
first_field s = let word = first_word (trim_left s) in if str_eq word "" then none else some word

-- `strings.SplitN(s, "-->", 2)`: none where there is no arrow.
abbrev pub before_cut : Char → Option (String × String) → Option (String × String)
before_cut c none = none
before_cut c (some (a, b)) = some (c ∷ a, b)

abbrev pub arrow : String
arrow = "-->"

unfoldable pub cut_arrow : String → Option (String × String)
cut_arrow [] = none
cut_arrow (c ∷ s) =
    let below = before_cut c (cut_arrow s) in
    if starts_with (c ∷ s) arrow then some ("", slice (c ∷ s) 3 (len (c ∷ s))) else below

-- `strings.ReplaceAll` of a comma by a point, and of "\r\n" by "\n".
abbrev pub point : Char
point = "."

unfoldable pub points : String → String
points [] = ""
points (c ∷ s) = (if code c == b',' then point else c) ∷ points s

unfoldable pub unix_lines : String → String
unix_lines [] = ""
unix_lines (c ∷ []) = c ∷ []
unix_lines (c ∷ (d ∷ s)) =
    let after = unix_lines s in
    let below = unix_lines (d ∷ s) in if code c == 13 && code d == 10 then d ∷ after else c ∷ below

-- `strings.ToUpper` on the letters of ASCII, and whether the text then starts with "WEBVTT".
abbrev pub upper_code : ℕ → ℕ
upper_code n = if leb b'a' n && leb n b'z' then n - 32 else n

unfoldable pub has_upper_prefix : String → String → Bool
has_upper_prefix s [] = true
has_upper_prefix [] (p ∷ ps) = false
has_upper_prefix (c ∷ s) (p ∷ ps) = upper_code (code c) == code p && has_upper_prefix s ps

-- `strings.Join(lines, " ")`
unfoldable pub join_space : List String → String
join_space List.[] = ""
join_space (List.◌∷◌ a List.[]) = a
join_space (List.◌∷◌ a (List.◌∷◌ b rest)) = a <> (" " <> join_space (List.◌∷◌ b rest))
