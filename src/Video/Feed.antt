-- ===== src/Video/Feed.antt =====
-- The listings of internal/usecase/video/video.go, and the conditions of the query `GetByIDs` of
-- internal/repo/persistent/video/video.go. A ranking is asked of the view repository, which merges its
-- tallies under a key of its own: this may change the world.
pub mod Ranking
pub mod Visible
pub mod Trending
mod Tests
use pine_vid_backend.Prelude.{
  String, ℕ, Bool, true, false, Option, none, some, List, [], ◌∷◌, length, str_eq, if◌then◌else◌,
  ◌&&◌, ◌||◌, ◌++◌,
}
use pine_vid_backend.Prelude.Int.{ℤ, pos, ◌+ℤ◌, wrap64, to_uint64}
use pine_vid_backend.Effects.{Result, ok, Exec, pure, query, wrap_result, ◌>>=◌, ok_or, or_else}
use pine_vid_backend.Entity.Video.{
  Video, VideoResponse, VideoFilter, status_complete, visibility_public,
}
use pine_vid_backend.Page.{PageResponse, page_offset, page_window}
use pine_vid_backend.Video.Deps.{UseCase, LikeRepo, SavedVideoRepo, ViewRepo, Sys, call}
use pine_vid_backend.Video.Mapper.{to_video_response, to_video_page_response}

unfoldable pub is_listed : String → List String → Bool
is_listed id [] = false
is_listed id (x ∷ xs) = str_eq x id || is_listed id xs

-- The `WHERE` of `GetByIDs`.
unfoldable pub by_ids_where : List String → Video → Bool
by_ids_where ids v =
    is_listed v.id ids && (str_eq v.status status_complete && str_eq v.visibility visibility_public)

-- The map `byID`: of two videos with one ID the later stays.
unfoldable pub by_id : List Video → String → Option Video
by_id [] id = none
by_id (v ∷ vs) id = elim (by_id vs id) [
  | some x ↦ some x
  | none ↦ if str_eq v.id id then some v else none
]

abbrev pub append_found : Option Video → List Video → List Video
append_found none vs = vs
append_found (some v) vs = v ∷ vs

-- The videos that were found, in the order of the IDs.
unfoldable pub rank : List String → List Video → List Video
unfolding by_id
rank [] videos = []
rank (id ∷ ids) videos = append_found (by_id videos id) (rank ids videos)

-- The entries of `byID` with `v.IsReel`.
unfoldable pub reels : List Video → List Video
reels [] = []
reels (v ∷ vs) = let rest = reels vs in if v.is_reel then v ∷ rest else rest

abbrev pub append_id : Option Video → String → List String → List String
append_id none id ids = ids
append_id (some v) id ids = id ∷ ids

-- The IDs of a ranking that are in the map.
unfoldable pub ids_found : List String → List Video → List String
unfolding by_id
ids_found [] videos = []
ids_found (id ∷ ids) videos = append_id (by_id videos id) id (ids_found ids videos)

abbrev pub trending_scan_limit : ℕ
trending_scan_limit = 100

abbrev pub window_days : String → ℕ
window_days window = if str_eq window "7d" then 7 else 1

-- The filters of the three listings by recency.
abbrev pub reels_filter : ℤ → ℤ → VideoFilter
reels_filter page limit = record {
  user_id = "";
  category = "";
  query = "";
  status = some status_complete;
  visibility = some visibility_public;
  is_reel = some true;
  limit = to_uint64 limit;
  offset = to_uint64 (page_offset page limit);
}

abbrev pub public_filter : String → String → String → ℤ → ℤ → VideoFilter
public_filter user_id category text page limit = record {
  user_id = user_id;
  category = category;
  query = text;
  status = some status_complete;
  visibility = some visibility_public;
  is_reel = none;
  limit = to_uint64 limit;
  offset = to_uint64 (page_offset page limit);
}

abbrev pub studio_filter : String → String → ℤ → ℤ → VideoFilter
studio_filter user_id text page limit = record {
  user_id = user_id;
  category = "";
  query = text;
  status = none;
  visibility = none;
  is_reel = none;
  limit = to_uint64 limit;
  offset = to_uint64 (page_offset page limit);
}

module _ {W : Type 0} (u : UseCase W) where
  -- `rankedIDs, _ = u.viewRepo.GetTrendingVideoIDs(…)`, if there is a view repository.
  unfoldable pub ranked_ids : String → Exec W (List String)
  ranked_ids window = elim u.view_repo [
    | none ↦ pure []
    | some views ↦
        or_else [] (views.get_trending_video_ids (window_days window) trending_scan_limit)
  ]

  unfoldable pub list_reels_by_recency : ℤ → ℤ → Exec W (PageResponse VideoResponse)
  list_reels_by_recency page limit = do
    found ← query (λ w.
        wrap_result "VideoUseCase - listReelsByRecency - List"
          (u.repo.list (reels_filter page limit) w))
    pure (to_video_page_response found.0 found.1 page limit)

  unfoldable pub list_public_videos :
      String → String → String → ℤ → ℤ → Exec W (PageResponse VideoResponse)
  list_public_videos user_id category text page limit = do
    found ← query (u.repo.list (public_filter user_id category text page limit))
    pure (to_video_page_response found.0 found.1 page limit)

  unfoldable pub list_studio_videos : String → String → ℤ → ℤ → Exec W (PageResponse VideoResponse)
  list_studio_videos user_id text page limit = do
    found ← query (u.repo.list (studio_filter user_id text page limit))
    pure (to_video_page_response found.0 found.1 page limit)

  -- The page of a ranking.
  unfoldable pub ranked_page : List Video → ℤ → ℤ → Exec W (PageResponse VideoResponse)
  ranked_page ranked page limit = do
    window ← query (λ w. page_window ranked page limit)
    pure (to_video_page_response window (length ranked) page limit)

  trending_of : List String → String → ℤ → ℤ → Exec W (PageResponse VideoResponse)
  trending_of [] user_id page limit = list_public_videos user_id "" "" page limit
  trending_of (id ∷ ids) user_id page limit = do
    videos ←
        query (λ w.
          wrap_result "VideoUseCase - GetTrending - GetByIDs" (u.repo.get_by_ids (id ∷ ids) w))
    ranked_page (rank (id ∷ ids) videos) page limit

  unfoldable pub get_trending : String → String → ℤ → ℤ → Exec W (PageResponse VideoResponse)
  unfolding trending_of
  get_trending window user_id page limit =
      ranked_ids window >>= λ ids. trending_of ids user_id page limit

  -- The IDs of the reels among the ranked videos; an error of the lookup counts as none.
  unfoldable pub reel_ids : List String → W → List String
  reel_ids [] w = []
  reel_ids (id ∷ ids) w = elim (u.repo.get_by_ids (id ∷ ids) w) [
    | ok videos ↦ ids_found (id ∷ ids) (reels videos)
    | _ ↦ []
  ]

  reels_of : List String → ℤ → ℤ → Exec W (PageResponse VideoResponse)
  reels_of [] page limit = list_reels_by_recency page limit
  reels_of (id ∷ ids) page limit = do
    videos ←
        query (λ w.
          wrap_result "VideoUseCase - GetReelsFeed - GetByIDs" (u.repo.get_by_ids (id ∷ ids) w))
    ranked_page (rank (id ∷ ids) videos) page limit

  unfoldable pub get_reels_feed : String → ℤ → ℤ → Exec W (PageResponse VideoResponse)
  unfolding reels_of
  get_reels_feed window page limit =
      ranked_ids window >>= λ ids w. reels_of (reel_ids ids w) page limit w

  -- What `GetByID` adds to the response: each count stays at zero if its lookup fails.
  abbrev pub with_likes : Option (LikeRepo W) → String → String → W → VideoResponse → VideoResponse
  with_likes none id user_id w r = r
  with_likes (some likes) id user_id w r = record r {
    likes_count = ok_or r.likes_count (likes.get_like_count id w);
    is_liked = ok_or r.is_liked (likes.is_liked_by_user id user_id w);
  }

  abbrev pub with_saved :
      Option (SavedVideoRepo W) → String → String → W → VideoResponse → VideoResponse
  with_saved none id user_id w r = r
  with_saved (some saves) id user_id w r = record r {
    is_saved = ok_or r.is_saved (saves.is_saved_by_user id user_id w);
  }

  abbrev pub with_pending : Option (ViewRepo W) → String → W → Video → Video
  with_pending none id w v = v
  with_pending (some views) id w v = record v {
    views = wrap64 (v.views +ℤ views.get_pending_views_for_video id w);
  }

  unfoldable pub get_by_id : String → String → Exec W VideoResponse
  get_by_id id user_id w =
      (do
        v ← query (u.repo.get_by_id id)
        let shown = with_pending u.view_repo id w v
        pure (
            with_saved u.saved_repo id user_id w
              (with_likes u.like_repo id user_id w (to_video_response shown))))
        w

  unfoldable pub record_view : String → String → String → Exec W (Bool × ℤ)
  record_view video_id client_ip device_id = elim u.view_repo [
    | none ↦ pure (false, pos 0)
    | some views ↦ views.record_view video_id client_ip device_id
  ]
