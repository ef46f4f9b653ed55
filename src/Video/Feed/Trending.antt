-- ===== src/Video/Feed/Trending.antt =====
-- The pages of the trending feed.
use pine_vid_backend.Prelude.{
  String, ℕ, suc, ◌+◌, ◌*◌, ◌<◌, ◌≤◌, List, [], ◌∷◌, ◌≡◌, ◌≢◌, refl, ap, subst, ◌∙◌, inl, inr,
  arith, take, drop, length, All, All-imp, map-All,
}
use pine_vid_backend.Prelude.Int.{ℤ, pos, two_63}
use pine_vid_backend.Effects.{◌>>=◌, Result, ok, err, panic, Result-cases}
use pine_vid_backend.Entity.Video.{Video, VideoResponse}
use pine_vid_backend.Page.{PageResponse, page_window, to_page_response}
use pine_vid_backend.Page.Window.{page_window-eq, page_window-zero_panics}
use pine_vid_backend.Video.Deps.{UseCase}
use pine_vid_backend.Video.Mapper.{to_video_response, to_video_responses, to_video_page_response}
use pine_vid_backend.Video.Feed.{
  rank, ranked_page, ranked_ids, trending_of, get_trending, public_filter, list_public_videos,
}
use pine_vid_backend.Video.Feed.Visible.{IsCatalog}

module _ {W : Type 0} (u : UseCase W) (w : W) where
  ranked_page-eq :
      (vs : List Video) (page limit : ℤ) (r : Result (List Video))
      → page_window vs page limit ≡ r
      → ranked_page u vs page limit w ≡ (elim r [
        | ok ys ↦ (ok (to_video_page_response ys (length vs) page limit), w)
        | err e ↦ (err e, w)
        | panic ↦ (panic, w)
      ])
  unfolding ranked_page
  ranked_page-eq vs page limit r e = rw e refl

  trending_of-found :
      (id : String) (ids : List String) (vs : List Video) (user_id : String) (page limit : ℤ)
      → u.repo.get_by_ids (id ∷ ids) w ≡ ok vs
      → trending_of u (id ∷ ids) user_id page limit w
        ≡ ranked_page u (rank (id ∷ ids) vs) page limit w
  unfolding trending_of
  trending_of-found id ids vs user_id page limit found = ground arith

module _ {W : Type 0} (u : UseCase W) (window user_id : String) (id : String) (ids : List String)
    (vs : List Video) (w w₁ : W) (ranking : ranked_ids u window w ≡ (ok (id ∷ ids), w₁))
    (found : u.repo.get_by_ids (id ∷ ids) w₁ ≡ ok vs) where
  get_trending-ranked :
      (page limit : ℤ)
      → get_trending u window user_id page limit w
        ≡ ranked_page u (rank (id ∷ ids) vs) page limit w₁
  unfolding get_trending
  get_trending-ranked page limit =
      ap (λ p. ((λ (_ : W). p) >>= λ xs. trending_of u xs user_id page limit) w) ranking
      ∙ (trending_of-found u w₁ id ids vs user_id page limit found)

  -- Page `q + 1` of the trending feed holds `limit` videos at most of the ranking, from place
  -- `q * limit` on, and counts all the ranked videos.
  pub trending_page :
      (q limit : ℕ)
      → q * limit + limit < two_63
      → get_trending u window user_id (pos (suc q)) (pos limit) w ≡ (
        ok (
            to_video_page_response
              (take limit (drop (q * limit) (rank (id ∷ ids) vs)))
              (length (rank (id ∷ ids) vs))
              (pos (suc q))
              (pos limit)),
        w₁,
      )
  trending_page q limit h =
      get_trending-ranked (pos (suc q)) (pos limit)
      ∙ ranked_page-eq u w₁ (rank (id ∷ ids) vs) (pos (suc q)) (pos limit) _
          (page_window-eq (rank (id ∷ ids) vs) q limit h)

  -- Page 0 of the trending feed panics for every positive limit, as soon as there is a ranking.
  pub trending_page_zero_panics :
      (limit : ℕ)
      → 0 < limit
      → limit ≤ two_63
      → get_trending u window user_id (pos 0) (pos limit) w ≡ (panic, w₁)
  trending_page_zero_panics limit h r =
      get_trending-ranked (pos 0) (pos limit)
      ∙ ranked_page-eq u w₁ (rank (id ∷ ids) vs) (pos 0) (pos limit) _
          (page_window-zero_panics (rank (id ∷ ids) vs) limit h r)

response-owner :
    (user_id : String) (v : Video)
    → v.user_id ≡ user_id
    → (to_video_response v).creator.id ≡ user_id
unfolding to_video_response
response-owner user_id v h = h

page-owner :
    (user_id : String) (vs : List Video) (total : ℕ) (page limit : ℤ)
    → All (λ v. v.user_id ≡ user_id) vs
    → All (λ r. r.creator.id ≡ user_id) (to_video_page_response vs total page limit).data_items
unfolding to_video_page_response to_page_response to_video_responses
page-owner user_id vs total page limit h =
    map-All (λ (v : Video). v.user_id ≡ user_id) (λ r. r.creator.id ≡ user_id) to_video_response
      (response-owner user_id) vs h

module _ {W : Type 0} (u : UseCase W) (catalog : IsCatalog u.repo) (window user_id : String)
    (page limit : ℤ) (w w₁ : W) where
  fallback :
      ranked_ids u window w ≡ (ok [], w₁)
      → get_trending u window user_id page limit w
        ≡ list_public_videos u user_id "" "" page limit w₁
  unfolding get_trending trending_of
  fallback empty =
      ap (λ p. ((λ (_ : W). p) >>= λ ids. trending_of u ids user_id page limit) w) empty

  -- As long as there is no ranking, a signed-in viewer's trending feed shows only the viewer's own
  -- videos: the viewer's ID is handed to the public listing, which takes it for the creator's.
  pub trending_fallback_own_videos :
      (items : PageResponse VideoResponse) (w' : W)
      → ranked_ids u window w ≡ (ok [], w₁)
      → user_id ≢ ""
      → get_trending u window user_id page limit w ≡ (ok items, w')
      → All (λ r. r.creator.id ≡ user_id) items.data_items
  unfolding list_public_videos
  trending_fallback_own_videos items w' empty signed_in shown =
      elim (Result-cases (u.repo.list (public_filter user_id "" "" page limit) w₁)) [
        | inl (found, e) ↦
            let own = page-owner user_id found.0 found.1 page limit (
              All-imp _ (λ v. v.user_id ≡ user_id) (λ v m. m.owner signed_in) found.0
                (catalog.listed _ w₁ found e)) in
            subst
              (λ (p : PageResponse VideoResponse). All (λ r. r.creator.id ≡ user_id) p.data_items)
              {x = to_video_page_response found.0 found.1 page limit} {y = items}
              (ground (arith, fallback empty)) own
        | inr (inl (x, e)) ↦ absurd (ground (arith, fallback empty))
        | inr (inr e) ↦ absurd (ground (arith, fallback empty))
      ]
