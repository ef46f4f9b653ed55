-- ===== src/Comment/Replies.antt =====
-- Replies stay on the video of their parent, and a listing keeps the comments of the database.
use pine_vid_backend.Prelude.{
  String, ◌≡◌, ◌≢◌, ◌⊎◌, inl, inr, refl, ap, ◌∙◌, arith, eq_iff, Option, none, some, List, [], ◌∷◌,
  ℕ, map,
}
use pine_vid_backend.Prelude.Int.{ℤ, to_uint64}
use pine_vid_backend.Effects.{Error, ok, err, invalid_parent_id, Result-cases, outcome_cases}
use pine_vid_backend.Entity.Video.{Time}
use pine_vid_backend.Page.{PageResponse, to_page_response, page_offset}
use pine_vid_backend.Comment.{
  Comment, CommentResponse, CommentLikeRepo, CreateCommentRequest, UseCase, create_comment,
  to_comment_entity, to_comment_response, to_comment_page_response, with_like_info, liked_by,
  list_replies,
}

module _ {W : Type 0} (u : UseCase W) (video_id user_id user_name user_avatar : String)
    (req : CreateCommentRequest) (id : String) (now : Time) (w : W) where
  -- A reply to a comment that cannot be read, or that belongs to another video, is refused, and
  -- nothing is stored.
  pub bad_parent_refused :
      (parent_id : String) (e : Error)
      → req.parent_id ≡ some parent_id
      → (u.repo.get_by_id parent_id w ≡ err e)
        ⊎ ((parent : Comment) × (u.repo.get_by_id parent_id w ≡ ok parent)
            × (parent.video_id ≢ video_id))
      → create_comment u video_id user_id user_name user_avatar req id now w
        ≡ (err invalid_parent_id, w)
  unfolding create_comment
  bad_parent_refused parent_id e reply (inl missing) = ground arith
  bad_parent_refused parent_id e reply (inr (parent, found, other)) =
      ground (arith, eq_iff parent.video_id video_id)

  -- A reply that was accepted answers a comment on the same video, and the response says whose
  -- comment it is and what it answers.
  pub reply_same_video :
      (parent_id : String) (r : CommentResponse) (w' : W)
      → req.parent_id ≡ some parent_id
      → create_comment u video_id user_id user_name user_avatar req id now w ≡ (ok r, w')
      → (parent : Comment) × (u.repo.get_by_id parent_id w ≡ ok parent)
        × (parent.video_id ≡ video_id)
        × (r.video_id ≡ video_id)
        × (r.user.id ≡ user_id)
        × (r.parent_id ≡ some parent_id)
  unfolding create_comment to_comment_entity to_comment_response
  reply_same_video parent_id r w' reply done = elim (Result-cases (u.repo.get_by_id parent_id w)) [
    | inl (parent, found) ↦
        let row = record (to_comment_entity video_id user_id user_name user_avatar req id) {
          created_at = now;
        } in
        elim (outcome_cases (u.repo.store row w)) [
          | inl (a, t, stored) ↦
              let same : parent.video_id ≡ video_id =
                ground (arith, eq_iff parent.video_id video_id) in
              let response : r ≡ to_comment_response row =
                ground (arith, eq_iff parent.video_id video_id) in
              (
                parent,
                found,
                same,
                ap (λ (x : CommentResponse). x.video_id) response,
                ap (λ (x : CommentResponse). x.user.id) response,
                ap (λ (x : CommentResponse). x.parent_id) response ∙ reply,
              )
          | inr (inl (x, t, failed)) ↦ absurd (ground (arith, eq_iff parent.video_id video_id))
          | inr (inr (t, failed)) ↦ absurd (ground (arith, eq_iff parent.video_id video_id))
        ]
    | inr (inl (x, failed)) ↦ absurd (ground arith)
    | inr (inr failed) ↦ absurd (ground arith)
  ]

map-id-responses :
    (comments : List Comment)
    → map (λ (r : CommentResponse). r.id) (map to_comment_response comments)
      ≡ map (λ (c : Comment). c.id) comments
unfolding to_comment_response
map-id-responses [] = refl
map-id-responses (c ∷ comments) = ap (◌∷◌ c.id) (map-id-responses comments)

module _ {W : Type 0} (u : UseCase W) (user_id : String) (w : W) where
  map-id-liked :
      (likes : CommentLikeRepo W) (rs : List CommentResponse)
      → map (λ (r : CommentResponse). r.id) (map (liked_by likes user_id w) rs)
        ≡ map (λ (r : CommentResponse). r.id) rs
  map-id-liked likes [] = refl
  map-id-liked likes (r ∷ rs) = ap (◌∷◌ r.id) (map-id-liked likes rs)

  map-id-with_like_info :
      (likes : Option (CommentLikeRepo W)) (rs : List CommentResponse)
      → map (λ (r : CommentResponse). r.id) (with_like_info u likes rs user_id w)
        ≡ map (λ (r : CommentResponse). r.id) rs
  map-id-with_like_info none rs = refl
  map-id-with_like_info (some likes) rs = map-id-liked likes rs

  -- A listing of replies shows the comments that the database returned, each once and in its order,
  -- whatever becomes of the lookups of their likes, and changes nothing.
  pub list_replies-ids :
      (parent_id : String) (page limit : ℤ) (found : List Comment × ℕ)
      (r : PageResponse CommentResponse) (w' : W)
      → u.repo.list_replies_by_parent_id parent_id
          (to_uint64 limit)
          (to_uint64 (page_offset page limit))
          w
        ≡ ok found
      → list_replies u parent_id user_id page limit w ≡ (ok r, w')
      → (map (λ (x : CommentResponse). x.id) r.data_items ≡ map (λ (c : Comment). c.id) found.0)
        × (w' ≡ w)
  unfolding list_replies to_comment_page_response to_page_response
  list_replies-ids parent_id page limit found r w' listed done =
      let page_res = to_comment_page_response found.0 found.1 page limit in
      let shown : r ≡ record page_res {
        data_items = with_like_info u u.like_repo page_res.data_items user_id w;
      } =
        ground arith in
      (
        ap (λ (x : PageResponse CommentResponse). map (λ (c : CommentResponse). c.id) x.data_items)
              shown
            ∙ (map-id-with_like_info u.like_repo page_res.data_items ∙ map-id-responses found.0),
        ground arith,
      )
