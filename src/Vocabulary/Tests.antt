-- ===== src/Vocabulary/Tests.antt =====
-- The dictionary at a word.
use pine_vid_backend.Prelude.{String, ◌≡◌, refl, arith, eq_iff, none, some}
use pine_vid_backend.Effects.{ok}
use pine_vid_backend.Subtitle.Text.{trim_space, trim_left, trim_right, is_space}
use pine_vid_backend.Vocabulary.Lookup.{
  DictionaryLookupResponse, Web, clean_trans, upper_code, starts_as, contains_as, is_warning,
  translate_text, lookup_word,
}
use pine_vid_backend.Vocabulary.Lookup.Answers.{AllShown, lookup_word_answers}

abbrev warning : String
warning = "Please select two distinct languages"

-- The translations are warnings, and the dictionary is down.
abbrev web : Web
web = record {
  fetch = λ url. some (record { status_code = 200; body = warning });
  decode_translation = λ body. some body;
  decode_entries = λ body. none;
  query_escape = λ s. s;
  to_lower = λ s. s;
}

abbrev blanks : String
blanks = " cat "

trims : trim_space blanks ≡ "cat"
unfolding trim_space trim_left trim_right is_space
trims = refl

translation_of_cat : clean_trans "cat" (translate_text web "cat" "en|ja") ≡ "cat"
unfolding clean_trans is_warning contains_as starts_as upper_code translate_text trim_space
    trim_left trim_right is_space
translation_of_cat = refl

lookup_word_answers_example :
    (r : DictionaryLookupResponse) × (lookup_word web blanks ≡ ok r)
    × (r.word ≡ trim_space blanks)
    × (r.meaning ≡ r.translations.vi)
    × AllShown (trim_space blanks) r.translations
lookup_word_answers_example =
    lookup_word_answers web blanks (λ e. ground (arith, trims, e, eq_iff "cat" ""))
