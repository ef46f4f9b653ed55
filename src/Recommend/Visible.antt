-- ===== src/Recommend/Visible.antt =====
-- What the personalised feed shows, and what its pagination says before there is a model.
use pine_vid_backend.Prelude.{
  String, Bool, inl, inr, ℕ, suc, ◌+◌, ◌*◌, ◌≤◌, ◌<◌, ◌≡◌, refl, sym, ap, subst, ◌∙◌, arith, none,
  List, [], map, length, length-map, drop_all, take-nil, take, All, All-imp, map-All,
}
use pine_vid_backend.Prelude.Int.{ℤ, pos, two_63}
use pine_vid_backend.Effects.{ok, Result-cases}
use pine_vid_backend.Entity.Video.{Video, VideoFilter}
use pine_vid_backend.Page.{PageResponse, to_page_response}
use pine_vid_backend.Video.Feed.Visible.{IsVisible, IsVisibleItem, IsCatalog, Matches}
use pine_vid_backend.Video.Mapper.{to_video_response}
use pine_vid_backend.Recommend.{
  UseCase, RecommendedVideo, RecommendedVideoItem, paginate, feed_filter, recommended, higher,
  to_item, total_of, get_personalized_feed,
}
use pine_vid_backend.Recommend.Paging.{ok_eq, paginate-All, paginate_pages}

module _ {W F : Type 0} (u : UseCase W F) where
  -- What is relied on: `List` returns rows that the filter asks for and no more than its
  -- limit, and `sort.Slice` keeps the
  -- elements of the slice.
  pub record IsFeed : Type 1 where
    pub catalog : IsCatalog u.video_repo
    -- `LIMIT`: no more rows are returned than the filter's limit.
    pub limited :
        (f : VideoFilter) (w : W) (found : List Video × ℕ)
        → u.video_repo.list f w ≡ ok found
        → length found.0 ≤ f.limit
    pub sorted :
        (before : RecommendedVideo F → RecommendedVideo F → Bool) (xs : List (RecommendedVideo F))
        (P : RecommendedVideo F → Type 0)
        → All P xs
        → All P (u.sort before xs)
    pub length-sort :
        (before : RecommendedVideo F → RecommendedVideo F → Bool) (xs : List (RecommendedVideo F))
        → length (u.sort before xs) ≡ length xs

  abbrev ranking_of : String → W → List Video → List (RecommendedVideo F)
  ranking_of user_id w videos = u.sort (higher u.floats) (recommended u user_id w videos)

  abbrev response_of :
      List Video × ℕ
      → List (RecommendedVideo F)
      → List (RecommendedVideo F)
      → ℤ
      → ℤ
      → PageResponse (RecommendedVideoItem F)
  response_of found ranking window page limit =
      to_page_response (map to_item window) (total_of u.model found.1 (length ranking)) page limit

  feed_lem :
      (user_id : String) (page limit : ℤ) (w : W) (found : List Video × ℕ)
      (window : List (RecommendedVideo F))
      → u.video_repo.list feed_filter w ≡ ok found
      → paginate (ranking_of user_id w found.0) page limit ≡ ok window
      → get_personalized_feed u user_id page limit w
        ≡ (ok (response_of found (ranking_of user_id w found.0) window page limit), w)
  unfolding get_personalized_feed
  feed_lem user_id page limit w found window listed paged = ground (arith, listed, paged)

  -- A feed that is returned has a listing and a page of its ranking.
  feed_parts :
      (user_id : String) (page limit : ℤ) (w w' : W) (res : PageResponse (RecommendedVideoItem F))
      → get_personalized_feed u user_id page limit w ≡ (ok res, w')
      → (found : List Video × ℕ) × (window : List (RecommendedVideo F)) × (u.video_repo.list
            feed_filter w
          ≡ ok found)
        × (paginate (ranking_of user_id w found.0) page limit ≡ ok window)
  unfolding get_personalized_feed
  feed_parts user_id page limit w w' res done =
      elim (Result-cases (u.video_repo.list feed_filter w)) [
        | inl (found, listed) ↦
            elim (Result-cases (paginate (ranking_of user_id w found.0) page limit)) [
              | inl (window, paged) ↦ (found, window, listed, paged)
              | inr (inl (e, failed)) ↦ absurd (ground (arith, listed, failed))
              | inr (inr failed) ↦ absurd (ground (arith, listed, failed))
            ]
        | inr (inl (e, failed)) ↦ absurd (ground (arith, failed))
        | inr (inr failed) ↦ absurd (ground (arith, failed))
      ]

  item-IsVisible : (r : RecommendedVideo F) → IsVisible r.video → IsVisibleItem (to_item r).video
  unfolding to_video_response
  item-IsVisible r h = h

  listed-IsVisible :
      (feed : IsFeed) (w : W) (found : List Video × ℕ)
      → u.video_repo.list feed_filter w ≡ ok found
      → All IsVisible found.0
  listed-IsVisible feed w found e =
      All-imp (Matches feed_filter) IsVisible (λ v m. (m.status, m.visibility)) found.0
        (feed.catalog.listed feed_filter w found e)

  module _ (feed : IsFeed) (user_id : String) (page limit : ℤ) (w w' : W)
      (res : PageResponse (RecommendedVideoItem F)) where
    -- A personalised feed that is returned shows public and complete videos only, and changes nothing.
    pub personalized_shows_visible :
        get_personalized_feed u user_id page limit w ≡ (ok res, w')
        → All (λ item. IsVisibleItem item.video) res.data_items × (w' ≡ w)
    unfolding to_page_response
    personalized_shows_visible done =
        let (found, window, listed, paged) = feed_parts user_id page limit w w' res done in
        let e = sym (feed_lem user_id page limit w found window listed paged) ∙ done in
        let shown =
          paginate-All (λ r. IsVisible r.video) (ranking_of user_id w found.0) page limit window
            paged
            (feed.sorted (higher u.floats) (recommended u user_id w found.0)
              (λ r. IsVisible r.video)
              (map-All IsVisible (λ r. IsVisible r.video) _ (λ v h. h) found.0
                (listed-IsVisible feed w found listed))) in
        (
          subst
              (λ (p : PageResponse (RecommendedVideoItem F)).
                All (λ item. IsVisibleItem item.video) p.data_items)
              (ok_eq (ap (λ p. p.0) e))
              (map-All (λ r. IsVisible r.video) (λ item. IsVisibleItem item.video) to_item
                item-IsVisible window shown),
          sym (ap (λ p. p.1) e),
        )

  -- Before there is a model, where the listing succeeds, the pagination counts all videos, but the
  -- filter limits the feed to 50: a page that starts after these, and whose places do not overflow
  -- an int64, is empty, also where the counted pages go on.
  pub cold_start_pages_run_dry :
      (feed : IsFeed) (user_id : String) (q l total : ℕ) (w : W) (videos : List Video)
      → u.model ≡ none
      → u.video_repo.list feed_filter w ≡ ok (videos, total)
      → 50 ≤ q * suc l
      → q * suc l + suc l < two_63
      → (res : PageResponse (RecommendedVideoItem F)) × (get_personalized_feed u user_id
            (pos (suc q))
            (pos (suc l))
            w
          ≡ (ok res, w))
        × (res.data_items ≡ [])
        × (res.pagination.total_items ≡ total)
  unfolding to_page_response
  cold_start_pages_run_dry feed user_id q l total w videos cold listed past small =
      let few : length videos ≤ 50 = feed.limited feed_filter w (videos, total) listed in
      let ranking = ranking_of user_id w videos in
      let size =
        feed.length-sort (higher u.floats) (recommended u user_id w videos) ∙ length-map videos _ in
      let empty =
        ap (take (suc l)) (drop_all (q * suc l) ranking (omega (arith, size))) ∙ take-nil (suc l) in
      let paged = (paginate_pages ranking q l 0 (pos 1) small).0 ∙ ap ok empty in
      (
        response_of (videos, total) ranking [] (pos (suc q)) (pos (suc l)),
        feed_lem user_id (pos (suc q)) (pos (suc l)) w (videos, total) [] listed paged,
        refl,
        ap (λ m. total_of m total (length ranking)) cold,
      )
