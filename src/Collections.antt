-- ===== src/Collections.antt =====
-- What a user keeps: saved videos (internal/usecase/savedvideo/savedvideo.go), the watch history
-- (internal/usecase/history/history.go), likes (`ToggleLikeVideo` of internal/usecase/like/like.go,
-- internal/mapper/like.go) and preferred categories (internal/usecase/userpreference/userpreference.go).
use pine_vid_backend.Prelude.{String, ◌<>◌, Bool, ◌||◌, ℕ, List, str_eq, if◌then◌else◌}
use pine_vid_backend.Prelude.Int.{ℤ}
use pine_vid_backend.Effects.{Result, Exec, pure, query, wrapping, ◌>>=◌}
use pine_vid_backend.Entity.Video.{Video, VideoResponse}
use pine_vid_backend.Page.{PageResponse, page_offset}
use pine_vid_backend.Video.Mapper.{to_video_page_response}

pub record SavedVideoRepo (W : Type 0) : Type 0 where
  pub toggle_save : String → String → Exec W Bool
  pub list_saved_videos : String → ℤ → ℤ → W → Result (List Video × ℕ)

pub record WatchHistoryRepo (W : Type 0) : Type 0 where
  pub upsert : String → String → ℤ → Exec W Unit
  pub list_by_user : String → ℤ → ℤ → W → Result (List Video × ℕ)

pub record VideoLike : Type 0 where
  pub id : String
  pub video_id : String
  pub user_id : String

pub record LikeRepo (W : Type 0) : Type 0 where
  pub toggle_like : VideoLike → Exec W (Bool × ℤ)

pub record UserPreferenceRepo (W : Type 0) : Type 0 where
  pub set_categories : String → List String → Exec W Unit
  pub get_categories : String → W → Result (List String)

pub record SaveVideoResponse : Type 0 where
  pub video_id : String
  pub saved : Bool

pub record LikeResponse : Type 0 where
  pub video_id : String
  pub liked : Bool
  pub total_likes : ℤ

unfoldable pub to_like_entity : String → String → VideoLike
to_like_entity user_id video_id = record {
  id = user_id <> (":" <> video_id);
  video_id = video_id;
  user_id = user_id;
}

module _ {W : Type 0} where
  unfoldable pub toggle_save_video : SavedVideoRepo W → String → String → Exec W SaveVideoResponse
  toggle_save_video repo user_id video_id = do
    saved ← wrapping "SavedVideoUseCase - ToggleSaveVideo" (repo.toggle_save user_id video_id)
    pure (record { video_id = video_id; saved = saved })

  unfoldable pub list_saved_videos :
      SavedVideoRepo W → String → ℤ → ℤ → Exec W (PageResponse VideoResponse)
  list_saved_videos repo user_id page limit = do
    found ←
        wrapping "SavedVideoUseCase - ListSavedVideos"
          (query (repo.list_saved_videos user_id limit (page_offset page limit)))
    pure (to_video_page_response found.0 found.1 page limit)

  unfoldable pub record_watch : WatchHistoryRepo W → String → String → ℤ → Exec W Unit
  record_watch repo user_id video_id watch_seconds =
      if str_eq user_id "" || str_eq video_id ""
      then pure tt
      else wrapping "HistoryUseCase - RecordWatch - Upsert"
          (repo.upsert user_id video_id watch_seconds)

  unfoldable pub list_history :
      WatchHistoryRepo W → String → ℤ → ℤ → Exec W (PageResponse VideoResponse)
  list_history repo user_id page limit = do
    found ←
        wrapping "HistoryUseCase - ListHistory"
          (query (repo.list_by_user user_id limit (page_offset page limit)))
    pure (to_video_page_response found.0 found.1 page limit)

  unfoldable pub toggle_like_video : LikeRepo W → String → String → Exec W LikeResponse
  toggle_like_video repo user_id video_id = do
    r ←
        wrapping "LikeUseCase - ToggleLikeVideo"
          (repo.toggle_like (to_like_entity user_id video_id))
    pure (record { video_id = video_id; liked = r.0; total_likes = r.1 })

  unfoldable pub set_preferred_categories :
      UserPreferenceRepo W → String → List String → Exec W Unit
  set_preferred_categories repo user_id categories =
      wrapping "UserPreferenceUseCase - SetPreferredCategories"
        (repo.set_categories user_id categories)

  unfoldable pub get_preferred_categories : UserPreferenceRepo W → String → Exec W (List String)
  get_preferred_categories repo user_id =
      wrapping "UserPreferenceUseCase - GetPreferredCategories"
        (query (repo.get_categories user_id))
