-- ===== src/Vocabulary/Lookup.antt =====
-- LookupWord of internal/usecase/vocabulary/vocabulary.go. Each of the eight goroutines writes a field
-- of its own, and all have ended before the fields are read.
pub mod Answers
use Prim.Native.String.{[], ◌∷◌}
use pine_vid_backend.Prelude.{
  String, Bool, true, false, ◌&&◌, ◌||◌, ◌==◌, leb, code, ℕ, ◌-◌, ◌<>◌, Option, none, some, List,
  str_eq, if◌then◌else◌,
}
use pine_vid_backend.Effects.{Result, ok, err, message}
use pine_vid_backend.Subtitle.Text.{trim_space}

pub record MultiLangTranslations : Type 0 where
  pub en : String
  pub vi : String
  pub ja : String
  pub fr : String
  pub es : String
  pub de : String
  pub zh : String
  pub ko : String

pub record DictionaryLookupResponse : Type 0 where
  pub word : String
  pub ipa : String
  pub part_of_speech : String
  pub meaning : String
  pub example : String
  pub translations : MultiLangTranslations

pub record Definition : Type 0 where
  pub definition : String
  pub example : String

pub record Meaning : Type 0 where
  pub part_of_speech : String
  pub definitions : List Definition

-- `phonetics` are the texts of the entry's phonetics.
pub record FreeDictEntry : Type 0 where
  pub word : String
  pub phonetic : String
  pub phonetics : List String
  pub meanings : List Meaning

pub record HttpResponse : Type 0 where
  pub status_code : ℕ
  pub body : String

-- A GET that is none where the request cannot be made or sent; the decoders of `encoding/json`, the
-- first giving `responseData.translatedText`; `url.QueryEscape`; `strings.ToLower` over Unicode.
pub record Web : Type 0 where
  pub fetch : String → Option HttpResponse
  pub decode_translation : String → Option String
  pub decode_entries : String → Option (List FreeDictEntry)
  pub query_escape : String → String
  pub to_lower : String → String

-- `strings.ToUpper` as far as it gives letters of ASCII, which the dotless i and the long s do too.
unfoldable pub upper_code : ℕ → ℕ
upper_code n =
    if leb b'a' n && leb n b'z'
    then n - 32
    else if n == 305
    then b'I'
    else if n == 383
    then b'S'
    else n

-- Whether the text starts with the second one, read through `f`.
unfoldable pub starts_as : (ℕ → ℕ) → String → String → Bool
starts_as f s [] = true
starts_as f [] (p ∷ ps) = false
starts_as f (c ∷ s) (p ∷ ps) = f (code c) == code p && starts_as f s ps

-- `strings.Contains`
unfoldable pub contains_as : (ℕ → ℕ) → String → String → Bool
contains_as f [] sub = str_eq sub ""
contains_as f (c ∷ s) sub = starts_as f (c ∷ s) sub || contains_as f s sub

-- The warnings with which the service answers in place of a translation.
unfoldable pub is_warning : String → Bool
is_warning s =
    contains_as upper_code s "PLEASE SELECT TWO DISTINCT LANGUAGES"
    || contains_as (λ n. n) s "MYMEMORY"

unfoldable pub clean_trans : String → String → String
clean_trans clean val = if str_eq val "" || is_warning val then clean else val

-- The body of a response of status 200.
abbrev pub body_of : Option HttpResponse → Option String
body_of none = none
body_of (some r) = if r.status_code == 200 then some r.body else none

abbrev pub decoded : {A : Type 0} → (String → Option A) → Option String → Option A
decoded f none = none
decoded f (some body) = f body

abbrev pub trimmed : Option String → String
trimmed none = ""
trimmed (some text) = trim_space text

-- The phonetics are read up to the first that is not empty.
unfoldable pub first_phonetic : String → List String → String
first_phonetic ipa List.[] = ipa
first_phonetic ipa (List.◌∷◌ text texts) =
    let below = first_phonetic ipa texts in if str_eq text "" then below else text

unfoldable pub ipa_of : String → FreeDictEntry → String
ipa_of ipa entry =
    if str_eq entry.phonetic "" then first_phonetic ipa entry.phonetics else entry.phonetic

abbrev pub example_of : String → List Definition → String
example_of example List.[] = example
example_of example (List.◌∷◌ d ds) = if str_eq d.example "" then example else d.example

-- The part of speech and the example of the first meaning.
abbrev pub meaning_of : String → String → List Meaning → String × String
meaning_of part example List.[] = (part, example)
meaning_of part example (List.◌∷◌ m ms) = (m.part_of_speech, example_of example m.definitions)

-- The pronunciation, the part of speech and the example, with the first entry if there is one.
abbrev pub entry_of :
    String → String → String → Option (List FreeDictEntry) → String × String × String
entry_of ipa part example none = (ipa, part, example)
entry_of ipa part example (some List.[]) = (ipa, part, example)
entry_of ipa part example (some (List.◌∷◌ entry entries)) =
    let (part', example') = meaning_of part example entry.meanings in
    (ipa_of ipa entry, part', example')

module _ (web : Web) where
  unfoldable pub translate_text : String → String → String
  translate_text text lang_pair =
      let url : String = "https://api.mymemory.translated.net/get?q=" in
      trimmed (
        decoded web.decode_translation
          (body_of (web.fetch (url <> (web.query_escape text <> ("&langpair=" <> lang_pair))))))

  -- The Vietnamese translation has a text of its own where there is none.
  unfoldable pub translate_vi : String → String
  translate_vi clean =
      let vi = translate_text clean "en|vi" in
      if str_eq vi "" then "Từ vựng: \"" <> (clean <> "\"") else vi

  unfoldable pub translations_of : String → MultiLangTranslations
  translations_of clean = record {
    en = clean_trans clean (translate_text clean "AUTODETECT|en");
    vi = clean_trans clean (translate_vi clean);
    ja = clean_trans clean (translate_text clean "en|ja");
    fr = clean_trans clean (translate_text clean "en|fr");
    es = clean_trans clean (translate_text clean "en|es");
    de = clean_trans clean (translate_text clean "en|de");
    zh = clean_trans clean (translate_text clean "en|zh");
    ko = clean_trans clean (translate_text clean "en|ko");
  }

  unfoldable pub dictionary_entry : String → String × String × String
  dictionary_entry clean =
      let url : String = "https://api.dictionaryapi.dev/api/v2/entries/en/" in
      entry_of ("/" <> (clean <> "/")) "vocabulary"
        ("Context sentence featuring the word \"" <> (clean <> "\"."))
        (decoded web.decode_entries
          (body_of (web.fetch (url <> web.query_escape (web.to_lower clean)))))

  unfoldable pub answer_of : String → DictionaryLookupResponse
  answer_of clean =
      let translations = translations_of clean in
      let (ipa, part_of_speech, example) = dictionary_entry clean in
      record {
        word = clean;
        ipa = ipa;
        part_of_speech = part_of_speech;
        meaning = translations.vi;
        example = example;
        translations = translations;
      }

  unfoldable pub lookup_word : String → Result DictionaryLookupResponse
  lookup_word word =
      let clean = trim_space word in
      if str_eq clean "" then err (message "empty word") else ok (answer_of clean)
