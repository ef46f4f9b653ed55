-- ===== src/Vocabulary/Lookup/Answers.antt =====
-- What a lookup answers, whatever the services do.
use Prim.Native.String.{[], ◌∷◌}
use text.Mathlib.TextLemmas.{nil-append, cons-append}
use pine_vid_backend.Prelude.{
  true, ap, ℕ, ◌<>◌, String, false, ◌≡◌, ◌≢◌, ◌⊎◌, inl, inr, refl, arith, str_eq, eq_iff,
  Bool-cases,
}
use pine_vid_backend.Effects.{ok}
use pine_vid_backend.Subtitle.Text.{trim_space}
use pine_vid_backend.Vocabulary.Lookup.{
  MultiLangTranslations, DictionaryLookupResponse, Web, is_warning, upper_code, starts_as,
  contains_as, clean_trans, translations_of, answer_of, lookup_word,
}

-- Somewhere in a text, read character by character through `f`, stands the second one.
abbrev pub HasPart : (ℕ → ℕ) → String → String → Type 0
HasPart f s part = (a b : String) × (s ≡ a <> b) × (starts_as f b part ≡ true)

-- The two phrases of the translation service that are no translations, the first in any case.
abbrev pub HasWarning : String → Type 0
HasWarning s =
    HasPart upper_code s "PLEASE SELECT TWO DISTINCT LANGUAGES" ⊎ HasPart (λ n. n) s "MYMEMORY"

-- A text that can be shown for a word: the word, or a text that is not empty and has no warning.
abbrev pub IsShown : String → String → Type 0
IsShown clean s = (s ≢ "") × ((s ≡ clean) ⊎ ¬ HasWarning s)

contains_as_start :
    (f : ℕ → ℕ) (b part : String)
    → part ≢ ""
    → starts_as f b part ≡ true
    → contains_as f b part ≡ true
unfolding contains_as starts_as
contains_as_start f [] [] named starts = absurd (named refl)
contains_as_start f [] (p ∷ part) named starts = absurd (ground (arith, starts))
contains_as_start f (c ∷ b) part named starts = ground (arith, starts)

contains_as-part :
    (f : ℕ → ℕ) (a b part : String)
    → part ≢ ""
    → starts_as f b part ≡ true
    → contains_as f (a <> b) part ≡ true
unfolding contains_as
contains_as-part f [] b part named starts = rw nil-append (contains_as_start f b part named starts)
contains_as-part f (c ∷ a) b part named starts =
    rw cons-append (ground (arith, contains_as-part f a b part named starts))

no_warning : (s : String) → is_warning s ≡ false → ¬ HasWarning s
unfolding is_warning
no_warning s fine (inl (a, b, same, starts)) = absurd (
    ground (
      arith,
      fine,
      ap (λ x. contains_as upper_code x "PLEASE SELECT TWO DISTINCT LANGUAGES") same,
      contains_as-part upper_code a b "PLEASE SELECT TWO DISTINCT LANGUAGES"
          (λ e. ground (arith, e, eq_iff "PLEASE SELECT TWO DISTINCT LANGUAGES" "")) starts,
    ))
no_warning s fine (inr (a, b, same, starts)) = absurd (
    ground (
      arith,
      fine,
      ap (λ x. contains_as (λ n. n) x "MYMEMORY") same,
      contains_as-part (λ n. n) a b "MYMEMORY" (λ e. ground (arith, e, eq_iff "MYMEMORY" ""))
          starts,
    ))

clean_trans-IsShown : (clean val : String) → clean ≢ "" → IsShown clean (clean_trans clean val)
unfolding clean_trans
clean_trans-IsShown clean val h = elim (Bool-cases (str_eq val "")) [
  | inl empty ↦ rw empty (h, inl refl)
  | inr text ↦ elim (Bool-cases (is_warning val)) [
    | inl warning ↦ rw (text, warning) (h, inl refl)
    | inr fine ↦ rw (text, fine) (ground (arith, eq_iff val ""), inr (no_warning val fine))
  ]
]

pub record AllShown (clean : String) (t : MultiLangTranslations) : Type 0 where
  pub en : IsShown clean t.en
  pub vi : IsShown clean t.vi
  pub ja : IsShown clean t.ja
  pub fr : IsShown clean t.fr
  pub es : IsShown clean t.es
  pub de : IsShown clean t.de
  pub zh : IsShown clean t.zh
  pub ko : IsShown clean t.ko

translations_of-AllShown :
    (web : Web) (clean : String) → clean ≢ "" → AllShown clean (translations_of web clean)
unfolding translations_of
translations_of-AllShown web clean h = record {
  en = clean_trans-IsShown clean _ h;
  vi = clean_trans-IsShown clean _ h;
  ja = clean_trans-IsShown clean _ h;
  fr = clean_trans-IsShown clean _ h;
  es = clean_trans-IsShown clean _ h;
  de = clean_trans-IsShown clean _ h;
  zh = clean_trans-IsShown clean _ h;
  ko = clean_trans-IsShown clean _ h;
}

-- Whatever the two services answer, also nothing, a lookup of a word that is not blank succeeds: the
-- word in the answer is trimmed, and each of the eight translations is the word itself or a text that
-- is not empty and has neither "MYMEMORY" in it nor, in any case of its letters, "please select two
-- distinct languages"; the meaning is the Vietnamese translation.
pub lookup_word_answers :
    (web : Web) (word : String)
    → trim_space word ≢ ""
    → (r : DictionaryLookupResponse) × (lookup_word web word ≡ ok r)
      × (r.word ≡ trim_space word)
      × (r.meaning ≡ r.translations.vi)
      × AllShown (trim_space word) r.translations
unfolding lookup_word answer_of
lookup_word_answers web word h = (
  answer_of web (trim_space word),
  ground (arith, eq_iff (trim_space word) ""),
  refl,
  refl,
  translations_of-AllShown web (trim_space word) h,
)
