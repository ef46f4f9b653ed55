-- ===== src/Video/Feed/Visible.antt =====
-- What the public listings show is public and complete.
use pine_vid_backend.Prelude.{
  String, ℕ, Option, none, some, List, [], ◌∷◌, ◌≡◌, ◌≢◌, refl, subst, length, All, map-All, true,
  arith, eq_iff, All-imp,
}
use pine_vid_backend.Prelude.Int.{ℤ}
use pine_vid_backend.Effects.{
  Result, ok, err, panic, Exec, query, pure, ◌>>=◌, wrap_result, wrap_result-eq-ok,
}
use pine_vid_backend.Entity.Video.{
  Video, VideoFilter, VideoResponse, status_complete, visibility_public,
}
use pine_vid_backend.Page.{PageResponse, page_window, to_page_response}
use pine_vid_backend.Page.Window.{page_window-All}
use pine_vid_backend.Video.Deps.{VideoRepo, UseCase}
use pine_vid_backend.Video.Mapper.{to_video_response, to_video_responses, to_video_page_response}
use pine_vid_backend.Video.Feed.{
  by_ids_where, rank, ranked_page, trending_of, get_trending, reels_of, get_reels_feed, ranked_ids,
  reel_ids, list_reels_by_recency, list_public_videos, public_filter, reels_filter,
}
use pine_vid_backend.Video.Feed.Ranking.{rank-All}

-- A field that the filter leaves out is not looked at.
abbrev pub Asks {ℓ} : {A : Type ℓ} → Option A → A → Type ℓ
Asks none x = Unit
Asks (some y) x = x ≡ y

-- What the conditions of `List` say of a row (the text search is left out).
pub record Matches (f : VideoFilter) (v : Video) : Type 0 where
  pub status : Asks f.status v.status
  pub visibility : Asks f.visibility v.visibility
  pub is_reel : Asks f.is_reel v.is_reel
  pub owner : f.user_id ≢ "" → v.user_id ≡ f.user_id

abbrev pub IsVisible : Video → Type 0
IsVisible v = (v.status ≡ status_complete) × (v.visibility ≡ visibility_public)

-- What the listings rely on of a `VideoRepo`: a query returns rows that satisfy its conditions, those
-- of `GetByIDs` (`by_ids_where`) and those that the filter makes of `List`.
pub record IsCatalog {W : Type 0} (r : VideoRepo W) : Type 0 where
  pub by_ids :
      (ids : List String) (w : W) (vs : List Video)
      → r.get_by_ids ids w ≡ ok vs
      → All (λ v. by_ids_where ids v ≡ true) vs
  pub listed :
      (f : VideoFilter) (w : W) (found : List Video × ℕ)
      → r.list f w ≡ ok found
      → All (Matches f) found.0

by_ids-IsVisible : (ids : List String) (v : Video) → by_ids_where ids v ≡ true → IsVisible v
unfolding by_ids_where
by_ids-IsVisible ids v h =
    ground (arith, h, eq_iff v.status status_complete, eq_iff v.visibility visibility_public)

abbrev pub IsVisibleItem : VideoResponse → Type 0
IsVisibleItem r = (r.status ≡ status_complete) × (r.visibility ≡ visibility_public)

response-IsVisible : (v : Video) → IsVisible v → IsVisibleItem (to_video_response v)
unfolding to_video_response
response-IsVisible v h = h

page-IsVisible :
    (vs : List Video) (total : ℕ) (page limit : ℤ)
    → All IsVisible vs
    → All IsVisibleItem (to_video_page_response vs total page limit).data_items
unfolding to_video_page_response to_page_response to_video_responses
page-IsVisible vs total page limit h =
    map-All IsVisible IsVisibleItem to_video_response response-IsVisible vs h

-- The page shows what is visible, if the call succeeds at all.
abbrev pub ShowsVisible : {W : Type 0} → Result (PageResponse VideoResponse) × W → W → Type 0
ShowsVisible (ok page, w') w = All IsVisibleItem page.data_items × (w' ≡ w)
ShowsVisible (_, w') w = w' ≡ w

module _ {W : Type 0} (w : W) where
  ShowsVisible-result :
      {A : Type 0} (r : Result A) (f : A → Exec W (PageResponse VideoResponse))
      → ((a : A) → r ≡ ok a → ShowsVisible (f a w) w)
      → ShowsVisible ((query (λ _. r) >>= f) w) w
  ShowsVisible-result (ok a) f h = h a refl
  ShowsVisible-result (err e) f h = refl
  ShowsVisible-result panic f h = refl

  -- The same after a call that may change the world.
  ShowsVisible-call :
      {A : Type 0} (p : Result A × W) (f : A → Exec W (PageResponse VideoResponse))
      → ((a : A) (w' : W) → ShowsVisible (f a w') w')
      → ShowsVisible (((λ _. p) >>= f) w) p.1
  ShowsVisible-call (ok a, w') f h = h a w'
  ShowsVisible-call (err e, w') f h = refl
  ShowsVisible-call (panic, w') f h = refl

module _ {W : Type 0} (u : UseCase W) (catalog : IsCatalog u.repo) (page limit : ℤ) (w : W) where
  ranked_page-ShowsVisible :
      (vs : List Video) → All IsVisible vs → ShowsVisible (ranked_page u vs page limit w) w
  unfolding ranked_page
  ranked_page-ShowsVisible vs h =
      ShowsVisible-result w (page_window vs page limit)
        (λ ys. pure (to_video_page_response ys (length vs) page limit))
        (λ ys e.
          (page-IsVisible ys _ page limit (page_window-All IsVisible vs page limit ys e h), refl))

  listing-IsVisible :
      (f : VideoFilter) (found : List Video × ℕ)
      → f.status ≡ some status_complete
      → f.visibility ≡ some visibility_public
      → u.repo.list f w ≡ ok found
      → All IsVisible found.0
  listing-IsVisible f found st vi e =
      All-imp (Matches f) IsVisible
        (λ v m. (
          subst (λ o. Asks o v.status) st m.status,
          subst (λ o. Asks o v.visibility) vi m.visibility,
        ))
        found.0 (catalog.listed f w found e)

  list_public-ShowsVisible :
      (user_id category text : String)
      → ShowsVisible (list_public_videos u user_id category text page limit w) w
  unfolding list_public_videos
  list_public-ShowsVisible user_id category text =
      ShowsVisible-result w (u.repo.list (public_filter user_id category text page limit) w)
        (λ found. pure (to_video_page_response found.0 found.1 page limit))
        (λ found e.
          (page-IsVisible found.0 found.1 page limit (listing-IsVisible _ found refl refl e), refl))

  list_reels-ShowsVisible : ShowsVisible (list_reels_by_recency u page limit w) w
  unfolding list_reels_by_recency
  list_reels-ShowsVisible =
      ShowsVisible-result w
        (wrap_result "VideoUseCase - listReelsByRecency - List"
          (u.repo.list (reels_filter page limit) w))
        (λ found. pure (to_video_page_response found.0 found.1 page limit))
        (λ found e. (
          page-IsVisible found.0 found.1 page limit
              (listing-IsVisible _ found refl refl (wrap_result-eq-ok _ _ found e)),
          refl,
        ))

  by_ids-ShowsVisible :
      (text : String) (ids : List String)
      → ShowsVisible
          ((query (λ w. wrap_result text (u.repo.get_by_ids ids w)) >>= λ vs.
              ranked_page u (rank ids vs) page limit)
            w)
          w
  by_ids-ShowsVisible text ids =
      ShowsVisible-result w (wrap_result text (u.repo.get_by_ids ids w))
        (λ vs. ranked_page u (rank ids vs) page limit)
        (λ vs e. ranked_page-ShowsVisible (rank ids vs) (
          rank-All IsVisible ids vs (
            All-imp (λ v. by_ids_where ids v ≡ true) IsVisible (by_ids-IsVisible ids) vs
              (catalog.by_ids ids w vs (wrap_result-eq-ok text _ vs e)))))

  trending_of-ShowsVisible :
      (ids : List String) (user_id : String)
      → ShowsVisible (trending_of u ids user_id page limit w) w
  unfolding trending_of
  trending_of-ShowsVisible [] user_id = list_public-ShowsVisible user_id "" ""
  trending_of-ShowsVisible (id ∷ ids) user_id =
      by_ids-ShowsVisible "VideoUseCase - GetTrending - GetByIDs" (id ∷ ids)

  reels_of-ShowsVisible : (ids : List String) → ShowsVisible (reels_of u ids page limit w) w
  unfolding reels_of
  reels_of-ShowsVisible [] = list_reels-ShowsVisible
  reels_of-ShowsVisible (id ∷ ids) =
      by_ids-ShowsVisible "VideoUseCase - GetReelsFeed - GetByIDs" (id ∷ ids)

module _ {W : Type 0} (u : UseCase W) (catalog : IsCatalog u.repo) (page limit : ℤ) (w : W) where
  -- The trending feed, the reels feed and the public listing show public and complete videos only,
  -- whatever the page, the limit and the caller. The listing changes nothing, and the feeds change
  -- what the query for the ranking changes in the view repository, and nothing else.
  pub feeds_show_visible :
      (window user_id category text : String)
      → ShowsVisible (get_trending u window user_id page limit w) (ranked_ids u window w).1
        × ShowsVisible (get_reels_feed u window page limit w) (ranked_ids u window w).1
        × ShowsVisible (list_public_videos u user_id category text page limit w) w
  unfolding get_trending get_reels_feed
  feeds_show_visible window user_id category text = (
    ShowsVisible-call w (ranked_ids u window w) (λ ids. trending_of u ids user_id page limit)
        (λ ids w'. trending_of-ShowsVisible u catalog page limit w' ids user_id),
    ShowsVisible-call w (ranked_ids u window w)
        (λ ids w'. reels_of u (reel_ids u ids w') page limit w')
        (λ ids w'. reels_of-ShowsVisible u catalog page limit w' (reel_ids u ids w')),
    list_public-ShowsVisible u catalog page limit w user_id category text,
  )
