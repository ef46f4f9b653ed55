-- ===== src/Subtitle/Upload.antt =====
-- What is listed after an upload.
use Prim.Native.Nat.{zero, suc}
use pine_vid_backend.Prelude.{
  String, true, false, ℕ, ◌≡◌, refl, sym, ap, ◌∙◌, arith, eq_iff, str_eq, ltb, none, some, List, [],
  ◌∷◌, map, length, get_elem?, if◌then◌else◌, Bool-cases, inl, inr,
}
use pine_vid_backend.Effects.{ok, wrapping, wrapping-eq-ok, Result-cases}
use pine_vid_backend.Entity.Video.{Video}
use pine_vid_backend.Subtitle.Vtt.{VttCue, parse_vtt}
use pine_vid_backend.Subtitle.{
  SubtitleCue, SubtitleRepo, UseCase, VideoSubtitlesResponse, pair_cues, text_of_first, rest_of,
  get_subtitles, upload_subtitles, to_subtitle_cue_response, is_empty,
}

-- What was stored is listed.
pub record IsCueStore {W F : Type 0} (r : SubtitleRepo W F) : Type 0 where
  pub listed-replace :
      (id : String) (cues : List (SubtitleCue F)) (w w' : W)
      → r.replace_cues id cues w ≡ (ok tt, w')
      → r.get_by_video_id id w' ≡ ok cues

-- The text of a cue of a track, empty past its end.
abbrev pub text_at : {F : Type 0} → List (VttCue F) → ℕ → String
text_at vi i = elim (get_elem? vi i) [ none ↦ "" | some c ↦ c.text ]

module _ {F : Type 0} (uuids : ℕ → String) where
  length-pair_cues :
      (i : ℕ) (en vi : List (VttCue F))
      → length (map to_subtitle_cue_response (pair_cues uuids i en vi)) ≡ length en
  unfolding pair_cues
  length-pair_cues i [] vi = refl
  length-pair_cues i (c ∷ en) vi = ap suc (length-pair_cues (suc i) en (rest_of vi))

  english-pair_cues :
      (i : ℕ) (en vi : List (VttCue F))
      → map (λ c. c.text_en) (map to_subtitle_cue_response (pair_cues uuids i en vi))
        ≡ map (λ c. c.text) en
  unfolding pair_cues to_subtitle_cue_response
  english-pair_cues i [] vi = refl
  english-pair_cues i (c ∷ en) vi = ap (◌∷◌ c.text) (english-pair_cues (suc i) en (rest_of vi))

  starts-pair_cues :
      (i : ℕ) (en vi : List (VttCue F))
      → map (λ c. c.start_sec) (map to_subtitle_cue_response (pair_cues uuids i en vi))
        ≡ map (λ c. c.start_sec) en
  unfolding pair_cues to_subtitle_cue_response
  starts-pair_cues i [] vi = refl
  starts-pair_cues i (c ∷ en) vi = ap (◌∷◌ c.start_sec) (starts-pair_cues (suc i) en (rest_of vi))

  ends-pair_cues :
      (i : ℕ) (en vi : List (VttCue F))
      → map (λ c. c.end_sec) (map to_subtitle_cue_response (pair_cues uuids i en vi))
        ≡ map (λ c. c.end_sec) en
  unfolding pair_cues to_subtitle_cue_response
  ends-pair_cues i [] vi = refl
  ends-pair_cues i (c ∷ en) vi = ap (◌∷◌ c.end_sec) (ends-pair_cues (suc i) en (rest_of vi))

  text_at-rest : (vi : List (VttCue F)) (j : ℕ) → text_at (rest_of vi) j ≡ text_at vi (suc j)
  text_at-rest [] j = refl
  text_at-rest (c ∷ vi) j = refl

  text_of_first_lem : (vi : List (VttCue F)) → text_of_first vi ≡ text_at vi 0
  text_of_first_lem [] = refl
  text_of_first_lem (c ∷ vi) = refl

  translation-pair_cues :
      (i : ℕ) (en vi : List (VttCue F)) (j : ℕ)
      → get_elem? (map (λ c. c.text_vi) (map to_subtitle_cue_response (pair_cues uuids i en vi))) j
        ≡ (if ltb j (length en) then some (text_at vi j) else none)
  unfolding pair_cues to_subtitle_cue_response
  translation-pair_cues i [] vi j = ground arith
  translation-pair_cues i (c ∷ en) vi zero = ground (arith, text_of_first_lem vi)
  translation-pair_cues i (c ∷ en) vi (suc j) =
      ground (arith, translation-pair_cues (suc i) en (rest_of vi) j, text_at-rest vi j)

module _ {W F : Type 0} (u : UseCase W F) (laws : IsCueStore u.repo) where
  listing :
      (video : String) (cues : List (SubtitleCue F)) (w : W)
      → u.repo.get_by_video_id video w ≡ ok cues
      → get_subtitles u video w
        ≡ (ok (record { video_id = video; cues = map to_subtitle_cue_response cues }), w)
  unfolding get_subtitles
  listing video cues w found = ground (arith, found)

  stored_text : String
  stored_text = "SubtitleUseCase - UploadSubtitles - ReplaceCues"

  -- An upload of parsed documents ends with the write of the cues.
  upload_step :
      (user video vtt_en vtt_vi : String) (uuids : ℕ → String) (w : W) (v : Video)
      (en vi : List (VttCue F))
      → u.video_repo.get_by_id video w ≡ ok v
      → str_eq v.user_id user ≡ true
      → parse_vtt u.floats vtt_en ≡ ok en
      → is_empty en ≡ false
      → (if str_eq vtt_vi "" then ok [] else parse_vtt u.floats vtt_vi) ≡ ok vi
      → upload_subtitles u user video vtt_en vtt_vi uuids w
        ≡ wrapping stored_text (u.repo.replace_cues video (pair_cues uuids 0 en vi)) w
  unfolding upload_subtitles stored_text
  upload_step user video vtt_en vtt_vi uuids w v en vi found mine english full translated =
      elim (Bool-cases (str_eq vtt_vi "")) [
        | inl alone ↦ ground (arith, found, mine, english, full, alone, translated)
        | inr paired ↦ ground (arith, found, mine, english, full, paired, translated)
      ]

  -- The steps of an upload that succeeds.
  upload_parts :
      (user video vtt_en vtt_vi : String) (uuids : ℕ → String) (w w' : W)
      → upload_subtitles u user video vtt_en vtt_vi uuids w ≡ (ok tt, w')
      → (v : Video) × (en vi : List (VttCue F)) × (u.video_repo.get_by_id video w ≡ ok v)
        × (v.user_id ≡ user)
        × (parse_vtt u.floats vtt_en ≡ ok en)
        × ((if str_eq vtt_vi "" then ok [] else parse_vtt u.floats vtt_vi) ≡ ok vi)
        × (u.repo.replace_cues video (pair_cues uuids 0 en vi) w ≡ (ok tt, w'))
  unfolding upload_subtitles
  upload_parts user video vtt_en vtt_vi uuids w w' done =
      elim (Result-cases (u.video_repo.get_by_id video w)) [
        | inl (v, found) ↦ elim (Bool-cases (str_eq v.user_id user)) [
          | inl mine ↦ elim (Result-cases (parse_vtt u.floats vtt_en)) [
            | inl (en, english) ↦ elim (Bool-cases (is_empty en)) [
              | inl empty ↦ absurd (ground (arith, found, mine, english, empty))
              | inr full ↦ elim (Bool-cases (str_eq vtt_vi "")) [
                | inl alone ↦ (
                  v,
                  en,
                  [],
                  found,
                  (eq_iff v.user_id user).0 mine,
                  english,
                  ground (arith, alone),
                  wrapping-eq-ok stored_text (u.repo.replace_cues video (pair_cues uuids 0 en []))
                      tt w w'
                      (sym (
                          upload_step user video vtt_en vtt_vi uuids w v en [] found mine english
                            full (ground (arith, alone)))
                        ∙ done),
                )
                | inr paired ↦ elim (Result-cases (parse_vtt u.floats vtt_vi)) [
                  | inl (vi, translated) ↦ (
                    v,
                    en,
                    vi,
                    found,
                    (eq_iff v.user_id user).0 mine,
                    english,
                    ground (arith, paired, translated),
                    wrapping-eq-ok stored_text (u.repo.replace_cues video (pair_cues uuids 0 en vi))
                        tt w w'
                        (sym (
                            upload_step user video vtt_en vtt_vi uuids w v en vi found mine english
                              full (ground (arith, paired, translated)))
                          ∙ done),
                  )
                  | inr (inl (e, failed)) ↦
                      absurd (ground (arith, found, mine, english, full, paired, failed))
                  | inr (inr failed) ↦
                      absurd (ground (arith, found, mine, english, full, paired, failed))
                ]
              ]
            ]
            | inr (inl (e, failed)) ↦ absurd (ground (arith, found, mine, failed))
            | inr (inr failed) ↦ absurd (ground (arith, found, mine, failed))
          ]
          | inr other ↦ absurd (ground (arith, found, other))
        ]
        | inr (inl (e, failed)) ↦ absurd (ground (arith, failed))
        | inr (inr failed) ↦ absurd (ground (arith, failed))
      ]

  -- An upload that succeeds comes from the owner of the video and replaces the cues: the listing then
  -- has a cue for each cue of the English document, with its times, its text and in its order, and the cue's
  -- translation is the text of the Vietnamese cue at the same place, empty where there is none or no
  -- Vietnamese document.
  pub upload_is_listed :
      (user video vtt_en vtt_vi : String) (uuids : ℕ → String) (w w' : W)
      → upload_subtitles u user video vtt_en vtt_vi uuids w ≡ (ok tt, w')
      → (v : Video) × (en vi : List (VttCue F)) × (res : VideoSubtitlesResponse F)
        × (u.video_repo.get_by_id video w ≡ ok v)
        × (v.user_id ≡ user)
        × (parse_vtt u.floats vtt_en ≡ ok en)
        × ((if str_eq vtt_vi "" then ok [] else parse_vtt u.floats vtt_vi) ≡ ok vi)
        × (get_subtitles u video w' ≡ (ok res, w'))
        × (length res.cues ≡ length en)
        × (map (λ c. c.start_sec) res.cues ≡ map (λ c. c.start_sec) en)
        × (map (λ c. c.end_sec) res.cues ≡ map (λ c. c.end_sec) en)
        × (map (λ c. c.text_en) res.cues ≡ map (λ c. c.text) en)
        × ((i : ℕ)
            → get_elem? (map (λ c. c.text_vi) res.cues) i
              ≡ (if ltb i (length en) then some (text_at vi i) else none))
  upload_is_listed user video vtt_en vtt_vi uuids w w' done =
      let (v, en, vi, found, mine, english, translated, replaced) =
        upload_parts user video vtt_en vtt_vi uuids w w' done in
      let cues = pair_cues uuids 0 en vi in
      let res : VideoSubtitlesResponse F = record {
        video_id = video;
        cues = map to_subtitle_cue_response cues;
      } in
      (
        v,
        en,
        vi,
        res,
        found,
        mine,
        english,
        translated,
        listing video cues w' (laws.listed-replace video cues w w' replaced),
        length-pair_cues uuids 0 en vi,
        starts-pair_cues uuids 0 en vi,
        ends-pair_cues uuids 0 en vi,
        english-pair_cues uuids 0 en vi,
        translation-pair_cues uuids 0 en vi,
      )
