-- ===== src/Subtitle/Tests.antt =====
-- An upload of two short documents. Seconds are whole numbers, and their text is not looked at.
use pine_vid_backend.Prelude.{
  String, false, ℕ, ◌+◌, ◌≡◌, refl, arith, ltb, none, some, List, [], ◌∷◌, map, length, get_elem?,
  str_eq, if◌then◌else◌,
}
use pine_vid_backend.Prelude.Int.{pos, pos_part, ◌+ℤ◌, ◌*ℤ◌, wrap64}
use pine_vid_backend.Effects.{ok, message}
use pine_vid_backend.Entity.Video.{Video}
use pine_vid_backend.Views.Parse.{parse_int, digits}
use pine_vid_backend.Subtitle.Text.{
  split_char, split_blank, is_space, trim_left, trim_right, trim_space, first_word, first_field,
  cut_arrow, points, unix_lines, has_upper_prefix, join_space,
}
use pine_vid_backend.Subtitle.Vtt.{
  Floats, VttCue, parse_vtt, parse_blocks, parse_block, split_non_empty_lines, trimmed_lines,
  timing_line, parse_timing_line, parse_timestamp,
}
use pine_vid_backend.Subtitle.{
  SubtitleCue, UseCase, VideoSubtitlesResponse, pair_cues, get_subtitles, upload_subtitles,
}
use pine_vid_backend.Subtitle.Upload.{IsCueStore, text_at, upload_is_listed}

abbrev whole : Floats ℕ
whole = record {
  parse_float = λ s. ok 1;
  of_int = pos_part;
  add = λ a b. a + b;
  atoi_error = λ s. message s;
  quote = λ s. s;
}

abbrev english : String
english =
    "WEBVTT\n\n1\n00:01:01.000 --> 00:01:04.000 align:start\nHello\nthere\n\n02:03,5 --> 02:04.5\nBye\n"

abbrev vietnamese : String
vietnamese = "00:01:01.000 --> 00:01:04.000\nChao\n"

abbrev hello : VttCue ℕ
hello = record { start_sec = 61; end_sec = 61; text = "Hello there" }

abbrev bye : VttCue ℕ
bye = record { start_sec = 121; end_sec = 121; text = "Bye" }

parsed : parse_vtt whole english ≡ ok (hello ∷ bye ∷ [])
unfolding parse_vtt parse_blocks parse_block split_non_empty_lines trimmed_lines timing_line
    parse_timing_line parse_timestamp split_char split_blank is_space trim_left trim_right
    trim_space first_word first_field cut_arrow points unix_lines has_upper_prefix join_space
    parse_int digits wrap64 ◌*ℤ◌ ◌+ℤ◌
parsed = refl

abbrev film : Video
film = record {
  id = "v1";
  user_id = "ann";
  user_name = "Ann";
  user_avatar = "";
  title = "A film";
  description = "";
  category = "Film";
  status = "complete";
  visibility = "public";
  raw_s3_key = "";
  hls_url = "";
  thumbnail_url = "";
  duration = "";
  is_reel = false;
  views = pos 3;
  created_at = 1;
  updated_at = 1;
}

-- One list of cues, and a film of the user "ann".
abbrev use_case : UseCase (List (SubtitleCue ℕ)) ℕ
use_case = record {
  repo = record { replace_cues = λ id cues w. (ok tt, cues); get_by_video_id = λ id w. ok w };
  video_repo = record { get_by_id = λ id w. ok film };
  floats = whole;
}

use_case-IsCueStore : IsCueStore use_case.repo
use_case-IsCueStore = record { listed-replace = λ id cues w w' stored. ground (arith, stored) }

abbrev cues : List (SubtitleCue ℕ)
cues =
    record { id = "c"; start_sec = 61; end_sec = 61; text_en = "Hello there"; text_vi = "Chao" }
    ∷ record { id = "c"; start_sec = 121; end_sec = 121; text_en = "Bye"; text_vi = "" }
    ∷ []

upload_is_listed_example :
    (v : Video) × (en vi : List (VttCue ℕ)) × (res : VideoSubtitlesResponse ℕ) × (ok film ≡ ok v)
    × (v.user_id ≡ "ann")
    × (parse_vtt whole english ≡ ok en)
    × ((if str_eq vietnamese "" then ok [] else parse_vtt whole vietnamese) ≡ ok vi)
    × (get_subtitles use_case "v1" cues ≡ (ok res, cues))
    × (length res.cues ≡ length en)
    × (map (λ c. c.start_sec) res.cues ≡ map (λ c. c.start_sec) en)
    × (map (λ c. c.end_sec) res.cues ≡ map (λ c. c.end_sec) en)
    × (map (λ c. c.text_en) res.cues ≡ map (λ c. c.text) en)
    × ((i : ℕ)
        → get_elem? (map (λ c. c.text_vi) res.cues) i
          ≡ (if ltb i (length en) then some (text_at vi i) else none))
unfolding upload_subtitles pair_cues parse_vtt parse_blocks parse_block split_non_empty_lines
    trimmed_lines timing_line parse_timing_line parse_timestamp split_char split_blank is_space
    trim_left trim_right trim_space first_word first_field cut_arrow points unix_lines
    has_upper_prefix join_space parse_int digits wrap64 ◌*ℤ◌ ◌+ℤ◌
upload_is_listed_example =
    upload_is_listed use_case use_case-IsCueStore "ann" "v1" english vietnamese (λ i. "c") [] cues
      refl
