-- ===== src/Vocabulary.antt =====
-- The words a user saves, and the dictionary (internal/usecase/vocabulary/vocabulary.go,
-- internal/entity/vocabulary.go). The two services that are asked over HTTP are parameters, and so are
-- the decoders of their answers.
pub mod Lookup
mod Tests
use pine_vid_backend.Prelude.{String, List, map}
use pine_vid_backend.Effects.{Result, Exec, pure, query, wrapping, ◌>>=◌, ◌>>◌}
use pine_vid_backend.Entity.Video.{Time}
use pine_vid_backend.Subtitle.Text.{trim_space}

pub record Vocabulary : Type 0 where
  pub id : String
  pub user_id : String
  pub word : String
  pub ipa : String
  pub part_of_speech : String
  pub meaning : String
  pub example : String
  pub video_id : String
  pub video_title : String
  pub created_at : Time

pub record SaveWordRequest : Type 0 where
  pub word : String
  pub ipa : String
  pub part_of_speech : String
  pub meaning : String
  pub example : String
  pub video_id : String
  pub video_title : String

pub record VocabularyResponse : Type 0 where
  pub id : String
  pub user_id : String
  pub word : String
  pub ipa : String
  pub part_of_speech : String
  pub meaning : String
  pub example : String
  pub video_id : String
  pub video_title : String
  pub created_at : Time

pub record VocabularyRepo (W : Type 0) : Type 0 where
  pub save_word : Vocabulary → Exec W Unit
  pub list_by_user_id : String → W → Result (List Vocabulary)
  pub delete_word : String → String → Exec W Unit

-- The row of a new word; `id` is a new UUID.
unfoldable pub new_word : String → String → SaveWordRequest → Time → Vocabulary
new_word id user_id req now = record {
  id = id;
  user_id = user_id;
  word = trim_space req.word;
  ipa = req.ipa;
  part_of_speech = req.part_of_speech;
  meaning = req.meaning;
  example = req.example;
  video_id = req.video_id;
  video_title = req.video_title;
  created_at = now;
}

-- The response that SaveWord and ListWords build.
unfoldable pub to_response : Vocabulary → VocabularyResponse
to_response item = record {
  id = item.id;
  user_id = item.user_id;
  word = item.word;
  ipa = item.ipa;
  part_of_speech = item.part_of_speech;
  meaning = item.meaning;
  example = item.example;
  video_id = item.video_id;
  video_title = item.video_title;
  created_at = item.created_at;
}

module _ {W : Type 0} (repo : VocabularyRepo W) where
  unfoldable pub save_word : String → String → SaveWordRequest → Time → Exec W VocabularyResponse
  save_word id user_id req now = do
    let item = new_word id user_id req now
    wrapping "VocabularyUseCase - SaveWord - repo.SaveWord" (repo.save_word item)
    pure (to_response item)

  unfoldable pub list_words : String → Exec W (List VocabularyResponse)
  list_words user_id = do
    items ←
        wrapping "VocabularyUseCase - ListWords - repo.ListByUserID"
          (query (repo.list_by_user_id user_id))
    pure (map to_response items)

  unfoldable pub delete_word : String → String → Exec W Unit
  delete_word id user_id =
      wrapping "VocabularyUseCase - DeleteWord - repo.DeleteWord" (repo.delete_word id user_id)
