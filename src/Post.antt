-- ===== src/Post.antt =====
-- Posts (internal/usecase/post/post.go, internal/mapper/post.go, internal/entity/post.go and the bodies
-- of the post endpoints).
pub mod Author
pub mod Http
mod Tests
use pine_vid_backend.Prelude.{
  String, ◌<>◌, Bool, false, ℕ, Option, none, some, List, map, str_eq, is_some, if◌then◌else◌,
}
use pine_vid_backend.Prelude.Int.{ℤ, pos, to_uint64}
use pine_vid_backend.Effects.{
  Result, panic, Exec, pure, guard, query, wrapping, ok_or, ◌>>=◌, ◌>>◌, post_forbidden,
}
use pine_vid_backend.Entity.Video.{Time}
use pine_vid_backend.Entity.Notification.{Notice, type_new_post}
use pine_vid_backend.Page.{PageResponse, to_page_response, page_offset}
use pine_vid_backend.Video.Deps.{Sys, Notifier, call, ask, spawn, when}

pub record Post : Type 0 where
  pub id : String
  pub user_id : String
  pub user_name : String
  pub user_avatar : String
  pub content : String
  pub image_url : String
  pub created_at : Time
  pub updated_at : Time

pub record CreatePostRequest : Type 0 where
  pub content : String
  pub image_url : String

pub record PostAuthor : Type 0 where
  pub id : String
  pub name : String
  pub avatar : String

pub record PostResponse : Type 0 where
  pub id : String
  pub author : PostAuthor
  pub content : String
  pub image_url : String
  pub like_count : ℤ
  pub is_liked : Bool
  pub created_at : Time

pub record PostLikeResponse : Type 0 where
  pub post_id : String
  pub liked : Bool
  pub total_likes : ℤ

pub record PostRepo (W : Type 0) : Type 0 where
  pub store : Post → Exec W Unit
  pub get_by_id : String → W → Result Post
  pub list_by_user : String → ℕ → ℕ → W → Result (List Post × ℕ)
  pub delete : String → Exec W Unit

pub record PostLikeRepo (W : Type 0) : Type 0 where
  pub toggle_like : String → String → Exec W (Bool × ℤ)
  pub get_like_count : String → W → Result ℤ
  pub is_liked_by_user : String → String → W → Result Bool

pub record UseCase (W : Type 0) : Type 0 where
  pub repo : PostRepo W
  pub like_repo : Option (PostLikeRepo W)
  pub notif_uc : Option (Notifier W)

-- `ToPostEntity`, with the times that `CreatePost` sets.
unfoldable pub to_post_entity : String → String → String → CreatePostRequest → String → Time → Post
to_post_entity user_id user_name user_avatar req id now = record {
  id = id;
  user_id = user_id;
  user_name = user_name;
  user_avatar = user_avatar;
  content = req.content;
  image_url = req.image_url;
  created_at = now;
  updated_at = now;
}

unfoldable pub to_post_response : Post → PostResponse
to_post_response p = record {
  id = p.id;
  author = record { id = p.user_id; name = p.user_name; avatar = p.user_avatar };
  content = p.content;
  image_url = p.image_url;
  like_count = pos 0;
  is_liked = false;
  created_at = p.created_at;
}

unfoldable pub new_post_notice : Post → Notice
new_post_notice p = record {
  sender_id = p.user_id;
  sender_name = p.user_name;
  sender_avatar = p.user_avatar;
  type = type_new_post;
  title = p.user_name <> " posted an update";
  message = p.content;
  target_url = "/channels/" <> p.user_id;
}

module _ {W : Type 0} where
  -- One round of `withLikeInfo`: a query that fails leaves its field.
  unfoldable pub liked_by : PostLikeRepo W → String → W → PostResponse → PostResponse
  liked_by likes viewer_id w p = record p {
    like_count = ok_or p.like_count (likes.get_like_count p.id w);
    is_liked = ok_or p.is_liked (likes.is_liked_by_user p.id viewer_id w);
  }

  abbrev pub with_like_info :
      Option (PostLikeRepo W) → List PostResponse → String → W → List PostResponse
  with_like_info none posts viewer_id w = posts
  with_like_info (some likes) posts viewer_id w = map (liked_by likes viewer_id w) posts

module _ {W : Type 0} (u : UseCase W) where
  -- `id` is a new UUID.
  unfoldable pub create_post :
      String → String → String → CreatePostRequest → String → Time → Exec (Sys W) PostResponse
  create_post user_id user_name user_avatar req id now = do
    let p = to_post_entity user_id user_name user_avatar req id now
    wrapping "PostUseCase - CreatePost - Store" (call (u.repo.store p))
    when (is_some u.notif_uc) (spawn (new_post_notice p))
    pure (to_post_response p)

  unfoldable pub list_posts_by_user :
      String → String → ℤ → ℤ → Exec (Sys W) (PageResponse PostResponse)
  list_posts_by_user user_id viewer_id page limit s =
      (do
        found ← wrapping "PostUseCase - ListPostsByUser" (
            ask
              (u.repo.list_by_user user_id (to_uint64 limit) (to_uint64 (page_offset page limit))))
        let page_res = to_page_response (map to_post_response found.0) found.1 page limit
        pure (record page_res {
          data_items = with_like_info u.like_repo page_res.data_items viewer_id s.world;
        }))
        s

  -- A nil `likeRepo` panics here.
  abbrev pub toggle_with : Option (PostLikeRepo W) → String → String → Exec (Sys W) PostLikeResponse
  toggle_with none post_id user_id s = (panic, s)
  toggle_with (some likes) post_id user_id s =
      (do
        r ← wrapping "PostUseCase - TogglePostLike" (call (likes.toggle_like post_id user_id))
        pure (record { post_id = post_id; liked = r.0; total_likes = r.1 }))
        s

  unfoldable pub toggle_post_like : String → String → Exec (Sys W) PostLikeResponse
  toggle_post_like post_id user_id = toggle_with u.like_repo post_id user_id

  unfoldable pub delete_post : String → String → Exec (Sys W) Unit
  delete_post user_id post_id = do
    p ← ask (u.repo.get_by_id post_id)
    guard (str_eq p.user_id user_id) post_forbidden
    call (u.repo.delete post_id)
