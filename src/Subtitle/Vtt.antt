-- ===== src/Subtitle/Vtt.antt =====
-- internal/usecase/subtitle/vtt_parser.go: the cues of a WebVTT document.
use pine_vid_backend.Prelude.{
  String, ◌<>◌, Option, none, some, List, [], ◌∷◌, str_eq, is_some, if◌then◌else◌,
}
use pine_vid_backend.Prelude.Int.{ℤ, pos, ◌+ℤ◌, ◌*ℤ◌, wrap64}
use pine_vid_backend.Effects.{Error, Result, ok, err, panic, message, wrap_result}
use pine_vid_backend.Views.Parse.{Parsed, value, syntax_error, range_error, parse_int}
use pine_vid_backend.Subtitle.Text.{
  split_char, split_blank, trim_space, first_field, cut_arrow, points, unix_lines, has_upper_prefix,
  join_space,
}

-- float64 with `strconv.ParseFloat`, the errors of `strconv.Atoi`, and `%q`.
pub record Floats (F : Type 0) : Type 0 where
  pub parse_float : String → Result F
  pub of_int : ℤ → F
  pub add : F → F → F
  pub atoi_error : String → Error
  pub quote : String → String

pub record VttCue (F : Type 0) : Type 0 where
  pub start_sec : F
  pub end_sec : F
  pub text : String

-- `if err != nil { return …, err }`
infixl 5 ◌>=>◌
abbrev pub ◌>=>◌ : {A B : Type 0} → Result A → (A → Result B) → Result B
ok a >=> f = f a
err e >=> f = err e
panic >=> f = panic

-- `splitNonEmptyLines`
abbrev pub cons_line : String → List String → List String
cons_line line lines = if str_eq line "" then lines else line ∷ lines

unfoldable pub trimmed_lines : List String → List String
trimmed_lines [] = []
trimmed_lines (l ∷ ls) = cons_line (trim_space l) (trimmed_lines ls)

unfoldable pub split_non_empty_lines : String → List String
split_non_empty_lines block = trimmed_lines (split_char 10 block)

module _ {F : Type 0} (x : Floats F) where
  abbrev pub atoi_of : String → Parsed → Result ℤ
  atoi_of s (value n) = ok n
  atoi_of s syntax_error = err (x.atoi_error s)
  atoi_of s (range_error n) = err (x.atoi_error s)

  abbrev pub atoi : String → Result ℤ
  atoi s = atoi_of s (parse_int s)

  abbrev pub in_seconds : ℤ → ℤ → String → Result F
  in_seconds hours minutes seconds = x.parse_float seconds >=> λ s.
      ok (x.add (x.of_int (wrap64 (wrap64 (hours *ℤ pos 3600) +ℤ wrap64 (minutes *ℤ pos 60)))) s)

  -- The segments between the colons: hours, minutes and seconds, or minutes and seconds.
  abbrev pub of_segments : String → List String → Result F
  of_segments ts (h ∷ m ∷ s ∷ []) =
      atoi h >=> λ hours. (atoi m >=> λ minutes. in_seconds hours minutes s)
  of_segments ts (m ∷ s ∷ []) = atoi m >=> λ minutes. in_seconds (pos 0) minutes s
  of_segments ts other = err (message ("expected HH:MM:SS.mmm or MM:SS.mmm, got " <> x.quote ts))

  unfoldable pub parse_timestamp : String → Result F
  parse_timestamp ts = of_segments (points ts) (split_char b':' (points ts))

  abbrev pub end_of : Option String → Result F
  end_of none = err (message "missing end timestamp")
  end_of (some field) = wrap_result "end timestamp" (parse_timestamp field)

  unfoldable pub parse_timing_line : String → Result (F × F)
  parse_timing_line line = elim (cut_arrow line) [
    | none ↦ err (message "missing '-->' separator")
    | some (left, right) ↦
        wrap_result "start timestamp" (parse_timestamp (trim_space left)) >=> λ start.
        (end_of (first_field (trim_space right)) >=> λ end. ok (start, end))
  ]

  -- The first line with an arrow, and the lines behind it.
  unfoldable pub timing_line : List String → Option (String × List String)
  timing_line [] = none
  timing_line (l ∷ ls) =
      let below = timing_line ls in if is_some (cut_arrow l) then some (l, ls) else below

  abbrev pub cue_at : Option (String × List String) → Result (Option (VttCue F))
  cue_at none = ok none
  cue_at (some (line, below)) =
      wrap_result ("invalid WebVTT timing line " <> x.quote line) (parse_timing_line line)
      >=> λ times. ok (
          some (record {
            start_sec = times.0;
            end_sec = times.1;
            text = trim_space (join_space below);
          }))

  -- One block: a header, or one without a timing line, is skipped.
  abbrev pub of_lines : List String → Result (Option (VttCue F))
  of_lines [] = ok none
  of_lines (l ∷ ls) = if has_upper_prefix l "WEBVTT" then ok none else cue_at (timing_line (l ∷ ls))

  unfoldable pub parse_block : String → Result (Option (VttCue F))
  parse_block block = of_lines (split_non_empty_lines block)

  abbrev pub add_cue : Option (VttCue F) → List (VttCue F) → List (VttCue F)
  add_cue none cues = cues
  add_cue (some cue) cues = cue ∷ cues

  unfoldable pub parse_blocks : List String → Result (List (VttCue F))
  parse_blocks [] = ok []
  parse_blocks (block ∷ blocks) =
      parse_block block >=> λ cue. (parse_blocks blocks >=> λ cues. ok (add_cue cue cues))

  unfoldable pub parse_vtt : String → Result (List (VttCue F))
  parse_vtt content = parse_blocks (split_blank (trim_space (unix_lines content)))
