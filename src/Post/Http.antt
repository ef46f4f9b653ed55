-- ===== src/Post/Http.antt =====
-- The handlers of posts (internal/controller/restapi/v1/post.go). The body is none where the parser
-- refuses it, `validate` gives the text of an error, and the page and the limit are what Atoi gives.
use pine_vid_backend.Prelude.{
  String, ◌≡◌, ◌≢◌, ◌||◌, arith, eq_iff, Option, none, some, str_eq, if◌then◌else◌,
}
use pine_vid_backend.Prelude.Int.{ℤ, pos, ltb_ℤ}
use pine_vid_backend.Effects.{Error, Exec, ok, err, panic, pure, post_forbidden, post_not_found}
use pine_vid_backend.Entity.Video.{Time}
use pine_vid_backend.Page.{PageResponse}
use pine_vid_backend.Video.Deps.{Sys}
use pine_vid_backend.Account
use pine_vid_backend.Account.{get_user}
use pine_vid_backend.Account.Http.{Answer, answered, refused, answer, cause, error_text}
use pine_vid_backend.Post.{
  Post, UseCase, CreatePostRequest, PostResponse, PostLikeResponse, create_post, list_posts_by_user,
  toggle_post_like, delete_post,
}

-- `getUserID`: empty for a request without a user.
abbrev pub get_user_id : Option String → String
get_user_id none = ""
get_user_id (some user_id) = user_id

unfoldable pub page_of : ℤ → ℤ
page_of page = if ltb_ℤ page (pos 1) then pos 1 else page

unfoldable pub limit_of : ℤ → ℤ
limit_of limit = if ltb_ℤ limit (pos 1) || ltb_ℤ (pos 50) limit then pos 20 else limit

abbrev pub delete_refusal : {A : Type 0} → Error → Error → Answer A
delete_refusal post_forbidden e = refused 403 (error_text e)
delete_refusal post_not_found e = refused 404 (error_text e)
delete_refusal _ e = refused 500 "failed to delete post"

module _ {W : Type 0} (u : UseCase W) where
  -- The name and the avatar of the author are those of the row of the user, or "Viewer" and nothing.
  unfoldable pub create_post_handler :
      Account.UseCase W
      → (CreatePostRequest → Option String)
      → Option String
      → Option CreatePostRequest
      → String
      → Time
      → Exec (Sys W) (Answer PostResponse)
  create_post_handler users validate user none id now s =
      (ok (refused 400 "invalid request body"), s)
  create_post_handler users validate user (some body) id now s = elim (validate body) [
    | some text ↦ (ok (refused 400 text), s)
    | none ↦
        let user_id = get_user_id user in
        let create : String → String → Exec (Sys W) (Answer PostResponse) = λ name avatar.
          answer (answered 201) (λ _. refused 500 "failed to create post")
            (create_post u user_id name avatar body id now) in
        let (r, w) = get_user users user_id s.world in
        let s' = record s { world = w } in
        elim r [
          | ok v ↦ create v.username v.avatar s'
          | err _ ↦ create "Viewer" "" s'
          | panic ↦ (panic, s')
        ]
  ]

  unfoldable pub list_user_posts :
      String → Option String → ℤ → ℤ → Exec (Sys W) (Answer (PageResponse PostResponse))
  list_user_posts user_id viewer page limit =
      if str_eq user_id ""
      then pure (refused 400 "user id required")
      else answer (answered 200) (λ _. refused 500 "failed to fetch posts")
          (list_posts_by_user u user_id (get_user_id viewer) (page_of page) (limit_of limit))

  unfoldable pub toggle_post_like_handler :
      String → Option String → Exec (Sys W) (Answer PostLikeResponse)
  toggle_post_like_handler post_id user =
      if str_eq post_id ""
      then pure (refused 400 "post id required")
      else answer (answered 200) (λ _. refused 500 "failed to toggle post like")
          (toggle_post_like u post_id (get_user_id user))

  unfoldable pub delete_post_handler : String → Option String → Exec (Sys W) (Answer Unit)
  delete_post_handler post_id user =
      if str_eq post_id ""
      then pure (refused 400 "post id required")
      else answer (answered 200) (λ e. delete_refusal (cause e) e)
          (delete_post u (get_user_id user) post_id)

  -- The post of another user is not deleted: the response has status 403, and nothing is changed.
  pub strangers_get_403 :
      (post_id : String) (user : Option String) (p : Post) (s : Sys W)
      → post_id ≢ ""
      → u.repo.get_by_id post_id s.world ≡ ok p
      → p.user_id ≢ get_user_id user
      → delete_post_handler post_id user s ≡ (ok (refused 403 (error_text post_forbidden)), s)
  unfolding delete_post_handler delete_post cause
  strangers_get_403 post_id user p s named found other =
      ground (arith, eq_iff post_id "", eq_iff p.user_id (get_user_id user))
