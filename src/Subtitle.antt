-- ===== src/Subtitle.antt =====
-- Subtitles (internal/usecase/subtitle/subtitle.go, internal/mapper/subtitle.go,
-- internal/entity/subtitle.go): the cues of an upload, and the listing. float64 and its parser are
-- parameters.
pub mod Text
pub mod Vtt
pub mod Upload
mod Tests
use Prim.Native.Nat.{suc}
use pine_vid_backend.Prelude.{String, Bool, not, ℕ, List, [], ◌∷◌, map, str_eq, if◌then◌else◌}
use pine_vid_backend.Effects.{
  Error, Result, ok, err, panic, Exec, pure, guard, query, wrapping, message, video_forbidden,
  ◌>>=◌, ◌>>◌,
}
use pine_vid_backend.Entity.Video.{Video}
use pine_vid_backend.Subtitle.Vtt.{Floats, VttCue, parse_vtt}

pub record SubtitleCue (F : Type 0) : Type 0 where
  pub id : String
  pub start_sec : F
  pub end_sec : F
  pub text_en : String
  pub text_vi : String

-- The use case fills in the languages of the two tracks; the other texts stay empty.
pub record SubtitleCueResponse (F : Type 0) : Type 0 where
  pub id : String
  pub start_sec : F
  pub end_sec : F
  pub text_en : String
  pub text_vi : String
  pub text_ja : String
  pub text_fr : String
  pub text_es : String
  pub text_de : String
  pub text_zh : String
  pub text_ko : String

pub record VideoSubtitlesResponse (F : Type 0) : Type 0 where
  pub video_id : String
  pub cues : List (SubtitleCueResponse F)

pub record SubtitleRepo (W F : Type 0) : Type 0 where
  pub replace_cues : String → List (SubtitleCue F) → Exec W Unit
  pub get_by_video_id : String → W → Result (List (SubtitleCue F))

-- The part of `VideoRepo` that the use case calls.
pub record VideoLookup (W : Type 0) : Type 0 where
  pub get_by_id : String → W → Result Video

pub record UseCase (W F : Type 0) : Type 0 where
  pub repo : SubtitleRepo W F
  pub video_repo : VideoLookup W
  pub floats : Floats F

unfoldable pub to_subtitle_cue_response : {F : Type 0} → SubtitleCue F → SubtitleCueResponse F
to_subtitle_cue_response c = record {
  id = c.id;
  start_sec = c.start_sec;
  end_sec = c.end_sec;
  text_en = c.text_en;
  text_vi = c.text_vi;
  text_ja = "";
  text_fr = "";
  text_es = "";
  text_de = "";
  text_zh = "";
  text_ko = "";
}

-- The translation of the first cue that is left, and the rest of the second track.
abbrev pub text_of_first : {F : Type 0} → List (VttCue F) → String
text_of_first [] = ""
text_of_first (c ∷ cs) = c.text

abbrev pub rest_of : {F : Type 0} → List (VttCue F) → List (VttCue F)
rest_of [] = []
rest_of (c ∷ cs) = cs

-- The two tracks are paired in their order. `uuids` are the new UUIDs of the rounds.
unfoldable pub pair_cues :
    {F : Type 0} → (ℕ → String) → ℕ → List (VttCue F) → List (VttCue F) → List (SubtitleCue F)
pair_cues uuids i [] vi = []
pair_cues uuids i (en ∷ ens) vi =
    record {
      id = uuids i;
      start_sec = en.start_sec;
      end_sec = en.end_sec;
      text_en = en.text;
      text_vi = text_of_first vi;
    }
    ∷ pair_cues uuids (suc i) ens (rest_of vi)

abbrev pub is_empty : {A : Type 0} → List A → Bool
is_empty [] = Bool.true
is_empty (x ∷ xs) = Bool.false

module _ {W F : Type 0} (u : UseCase W F) where
  unfoldable pub get_subtitles : String → Exec W (VideoSubtitlesResponse F)
  get_subtitles video_id = do
    cues ← wrapping "SubtitleUseCase - GetSubtitles" (query (u.repo.get_by_video_id video_id))
    pure (record { video_id = video_id; cues = map to_subtitle_cue_response cues })

  -- The second track is parsed only if it is given.
  abbrev pub parse_vi : String → Exec W (List (VttCue F))
  parse_vi vtt_vi =
      if str_eq vtt_vi ""
      then pure []
      else wrapping "SubtitleUseCase - UploadSubtitles - parse Vietnamese VTT"
          (query (λ _. parse_vtt u.floats vtt_vi))

  unfoldable pub upload_subtitles : String → String → String → String → (ℕ → String) → Exec W Unit
  upload_subtitles user_id video_id vtt_en vtt_vi uuids = do
    video ← query (u.video_repo.get_by_id video_id)
    guard (str_eq video.user_id user_id) video_forbidden
    en ←
        wrapping "SubtitleUseCase - UploadSubtitles - parse English VTT"
          (query (λ _. parse_vtt u.floats vtt_en))
    guard (not (is_empty en))
        (message "SubtitleUseCase - UploadSubtitles: no cues found in English VTT")
    vi ← parse_vi vtt_vi
    wrapping "SubtitleUseCase - UploadSubtitles - ReplaceCues"
        (u.repo.replace_cues video_id (pair_cues uuids 0 en vi))
