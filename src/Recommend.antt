-- ===== src/Recommend.antt =====
-- The personalised feed (internal/usecase/recommendation/recommendation.go,
-- internal/mapper/recommendation.go): scoring, ranking and pages. The training of the factors is left
-- out: the published model is a value. Floats and `sort.Slice` are parameters.
pub mod Paging
pub mod Visible
mod Tests
use pine_vid_backend.Prelude.{
  String, Bool, true, false, not, ◌&&◌, ◌||◌, ℕ, Option, none, some, List, [], ◌∷◌, map, length,
  str_eq, if◌then◌else◌,
}
use pine_vid_backend.Prelude.Int.{ℤ, pos, ◌+ℤ◌, leb_ℤ, ltb_ℤ, wrap64}
use pine_vid_backend.Prelude.Assoc.{mem_str}
use pine_vid_backend.Effects.{
  Result, ok, err, panic, Exec, pure, query, wrapping, ok_or, ◌>>=◌, ◌>>◌,
}
use pine_vid_backend.Entity.Video.{
  Video, VideoFilter, VideoResponse, status_complete, visibility_public,
}
use pine_vid_backend.Page.{PageResponse, page_offset, slice, to_page_response}
use pine_vid_backend.Video.Deps.{VideoRepo}
use pine_vid_backend.Video.Mapper.{to_video_response}
use pine_vid_backend.Collections.{UserPreferenceRepo}

-- float64: `baseline views` is `float64(views) * 0.1`, `boost` is `categoryBoost`, `dot` the sum of the
-- products of the factors, and `is_finite` is false of NaN and the infinities.
pub record Floats (F : Type 0) : Type 0 where
  pub one : F
  pub boost : F
  pub add : F → F → F
  pub baseline : ℤ → F
  pub dot : List F → List F → F
  pub is_finite : F → Bool
  pub greater : F → F → Bool

pub record RecommendedVideo (F : Type 0) : Type 0 where
  pub video : Video
  pub predicted_score : F

pub record RecommendedVideoItem (F : Type 0) : Type 0 where
  pub video : VideoResponse
  pub predicted_score : F

-- What the trainer has published: the factors of the users and of the videos.
pub record Model (F : Type 0) : Type 0 where
  pub user_vec : String → Option (List F)
  pub video_vec : String → Option (List F)

-- `sort` is `sort.Slice`: it takes the test for "comes before". `model` is none until a training pass
-- has found interactions.
pub record UseCase (W F : Type 0) : Type 0 where
  pub floats : Floats F
  pub sort :
      (RecommendedVideo F → RecommendedVideo F → Bool)
      → List (RecommendedVideo F)
      → List (RecommendedVideo F)
  pub video_repo : VideoRepo W
  pub pref_repo : Option (UserPreferenceRepo W)
  pub model : Option (Model F)

-- `paginate`, with the panic of a slice expression out of range.
unfoldable pub paginate : {A : Type 0} → List A → ℤ → ℤ → Result (List A)
paginate recs page limit =
    let page = if ltb_ℤ page (pos 1) then pos 1 else page in
    let start = page_offset page limit in
    let end = wrap64 (start +ℤ limit) in
    if leb_ℤ limit (pos 0)
    then ok recs
    else if leb_ℤ (pos (length recs)) start
    then ok []
    else slice recs start (if ltb_ℤ (pos (length recs)) end then pos (length recs) else end)

abbrev pub feed_filter : VideoFilter
feed_filter = record {
  user_id = "";
  category = "";
  query = "";
  status = some status_complete;
  visibility = some visibility_public;
  is_reel = none;
  limit = 50;
  offset = 0;
}

-- The preferred categories: none for an anonymous caller, or where they cannot be read.
abbrev pub categories_of : {W : Type 0} → Option (UserPreferenceRepo W) → String → W → List String
categories_of none user_id w = []
categories_of (some prefs) user_id w =
    if not (str_eq user_id "") then ok_or [] (prefs.get_categories user_id w) else []

module _ {F : Type 0} (x : Floats F) where
  -- The score of a video before there is a model.
  unfoldable pub cold_score : List String → Video → F
  cold_score preferred v = if mem_str v.category preferred then x.add x.one x.boost else x.one

  -- With factors of the user and of the video, the prediction is added if it is finite.
  abbrev pub predicted : F → List F → Option (List F) → F
  predicted base user_factors none = base
  predicted base user_factors (some video_factors) =
      if x.is_finite (x.dot user_factors video_factors)
      then x.add base (x.dot user_factors video_factors)
      else base

  abbrev pub score_with : Option (List F) → Model F → List String → Video → F
  score_with none m preferred v =
      if mem_str v.category preferred
      then x.add (x.baseline v.views) x.boost
      else x.baseline v.views
  score_with (some user_factors) m preferred v =
      predicted (x.baseline v.views) user_factors (m.video_vec v.id)

  unfoldable pub score : Option (Model F) → String → List String → Video → F
  score none user_id preferred v = cold_score preferred v
  score (some m) user_id preferred v = score_with (m.user_vec user_id) m preferred v

  abbrev pub higher : RecommendedVideo F → RecommendedVideo F → Bool
  higher a b = x.greater a.predicted_score b.predicted_score

abbrev pub to_item : {F : Type 0} → RecommendedVideo F → RecommendedVideoItem F
to_item r = record { video = to_video_response r.video; predicted_score = r.predicted_score }

-- The number of items that the pagination names.
abbrev pub total_of : {F : Type 0} → Option (Model F) → ℕ → ℕ → ℕ
total_of none listed ranked = listed
total_of (some m) listed ranked = ranked

module _ {W F : Type 0} (u : UseCase W F) where
  abbrev pub recommended : String → W → List Video → List (RecommendedVideo F)
  recommended user_id w videos =
      let preferred = categories_of u.pref_repo user_id w in
      map (λ v. record { video = v; predicted_score = score u.floats u.model user_id preferred v })
        videos

  unfoldable pub get_personalized_feed :
      String → ℤ → ℤ → Exec W (PageResponse (RecommendedVideoItem F))
  get_personalized_feed user_id page limit w =
      (do
        found ← wrapping "RecommendationUseCase - List" (query (u.video_repo.list feed_filter))
        let ranking = u.sort (higher u.floats) (recommended user_id w found.0)
        window ← query (λ _. paginate ranking page limit)
        let total = total_of u.model found.1 (length ranking)
        pure (to_page_response (map to_item window) total page limit))
        w
