-- ===== src/Comment.antt =====
-- Comments (internal/usecase/comment/comment.go, internal/mapper/comment.go,
-- internal/entity/comment.go and the bodies of the comment endpoints).
pub mod Replies
mod Tests
use pine_vid_backend.Prelude.{
  String, Bool, false, ◌&&◌, ℕ, Option, none, some, List, map, str_eq, if◌then◌else◌,
}
use pine_vid_backend.Prelude.Int.{ℤ, pos, to_uint64}
use pine_vid_backend.Effects.{
  Error, Result, ok, err, panic, Exec, pure, guard, query, wrapping, ok_or, ◌>>=◌, ◌>>◌,
  invalid_parent_id,
}
use pine_vid_backend.Entity.Video.{Time}
use pine_vid_backend.Page.{PageResponse, PaginationMeta, to_page_response, page_offset}
use pine_vid_backend.Video.Mapper.{unset}

pub record Comment : Type 0 where
  pub id : String
  pub video_id : String
  pub user_id : String
  pub user_name : String
  pub user_avatar : String
  pub content : String
  pub parent_id : Option String
  pub reply_count : ℤ
  pub created_at : Time

pub record CreateCommentRequest : Type 0 where
  pub content : String
  pub parent_id : Option String

pub record CommentUser : Type 0 where
  pub id : String
  pub name : String
  pub avatar : String

pub record CommentResponse : Type 0 where
  pub id : String
  pub video_id : String
  pub user : CommentUser
  pub content : String
  pub parent_id : Option String
  pub reply_count : ℤ
  pub like_count : ℤ
  pub is_liked : Bool
  pub created_at : Time

pub record CommentLikeResponse : Type 0 where
  pub comment_id : String
  pub liked : Bool
  pub total_likes : ℤ

pub record CommentPageResponse : Type 0 where
  pub success : Bool
  pub data_items : List CommentResponse
  pub pagination : PaginationMeta
  pub total_all_count : ℕ

unfoldable pub to_comment_entity :
    String → String → String → String → CreateCommentRequest → String → Comment
to_comment_entity video_id user_id user_name user_avatar req id = record {
  id = id;
  video_id = video_id;
  user_id = user_id;
  user_name = user_name;
  user_avatar = user_avatar;
  content = req.content;
  parent_id = req.parent_id;
  reply_count = pos 0;
  created_at = unset;
}

unfoldable pub to_comment_response : Comment → CommentResponse
to_comment_response c = record {
  id = c.id;
  video_id = c.video_id;
  user = record { id = c.user_id; name = c.user_name; avatar = c.user_avatar };
  content = c.content;
  parent_id = c.parent_id;
  reply_count = c.reply_count;
  like_count = pos 0;
  is_liked = false;
  created_at = c.created_at;
}

unfoldable pub to_comment_page_response : List Comment → ℕ → ℤ → ℤ → PageResponse CommentResponse
to_comment_page_response comments total page limit =
    to_page_response (map to_comment_response comments) total page limit

unfoldable pub to_comment_page_response_with_total :
    List Comment → ℕ → ℕ → ℤ → ℤ → CommentPageResponse
to_comment_page_response_with_total comments total total_all page limit =
    let base = to_comment_page_response comments total page limit in
    record {
      success = base.success;
      data_items = base.data_items;
      pagination = base.pagination;
      total_all_count = total_all;
    }

pub record CommentRepo (W : Type 0) : Type 0 where
  pub store : Comment → Exec W Unit
  pub get_by_id : String → W → Result Comment
  pub list_by_video_id : String → ℕ → ℕ → W → Result (List Comment × ℕ)
  pub list_replies_by_parent_id : String → ℕ → ℕ → W → Result (List Comment × ℕ)
  pub count_all_by_video_id : String → W → Result ℕ

pub record CommentLikeRepo (W : Type 0) : Type 0 where
  pub toggle_like : String → String → Exec W (Bool × ℤ)
  pub get_like_count : String → W → Result ℤ
  pub is_liked_by_user : String → String → W → Result Bool

pub record UseCase (W : Type 0) : Type 0 where
  pub repo : CommentRepo W
  pub like_repo : Option (CommentLikeRepo W)

-- The likes of one comment; a count stays as it is if its lookup fails.
abbrev pub liked_by :
    {W : Type 0} → CommentLikeRepo W → String → W → CommentResponse → CommentResponse
liked_by likes user_id w c = record c {
  like_count = ok_or c.like_count (likes.get_like_count c.id w);
  is_liked = ok_or c.is_liked (likes.is_liked_by_user c.id user_id w);
}

module _ {W : Type 0} (u : UseCase W) where
  abbrev pub with_like_info :
      Option (CommentLikeRepo W) → List CommentResponse → String → W → List CommentResponse
  with_like_info none comments user_id w = comments
  with_like_info (some likes) comments user_id w = map (liked_by likes user_id w) comments

  -- A nil `likeRepo` panics here.
  abbrev pub toggle_with : Option (CommentLikeRepo W) → String → String → Exec W CommentLikeResponse
  toggle_with none comment_id user_id w = (panic, w)
  toggle_with (some likes) comment_id user_id w =
      (do
        r ← wrapping "CommentUseCase - ToggleLikeComment" (likes.toggle_like comment_id user_id)
        pure (record { comment_id = comment_id; liked = r.0; total_likes = r.1 }))
        w

  unfoldable pub toggle_like_comment : String → String → Exec W CommentLikeResponse
  toggle_like_comment comment_id user_id = toggle_with u.like_repo comment_id user_id

  -- The check of the parent; a panic of the lookup stays one.
  abbrev pub check_parent : Option String → String → Exec W Unit
  check_parent none video_id w = (ok tt, w)
  check_parent (some id) video_id w = elim (u.repo.get_by_id id w) [
    | ok parent ↦ guard (str_eq parent.video_id video_id) invalid_parent_id w
    | err e ↦ (err invalid_parent_id, w)
    | panic ↦ (panic, w)
  ]

  -- `id` is a new UUID.
  unfoldable pub create_comment :
      String
      → String
      → String
      → String
      → CreateCommentRequest
      → String
      → Time
      → Exec W CommentResponse
  create_comment video_id user_id user_name user_avatar req id now = do
    check_parent req.parent_id video_id
    let c = record (to_comment_entity video_id user_id user_name user_avatar req id) {
      created_at = now;
    }
    wrapping "CommentUseCase - CreateComment - Store" (u.repo.store c)
    pure (to_comment_response c)

  unfoldable pub list_video_comments : String → String → ℤ → ℤ → Exec W CommentPageResponse
  list_video_comments video_id user_id page limit w =
      (do
        found ← wrapping "CommentUseCase - ListVideoComments" (
            query (
              u.repo.list_by_video_id video_id (to_uint64 limit)
                (to_uint64 (page_offset page limit))))
        total_all ←
            wrapping "CommentUseCase - ListVideoComments - CountAllByVideoID"
              (query (u.repo.count_all_by_video_id video_id))
        let page_res = to_comment_page_response_with_total found.0 found.1 total_all page limit
        pure (record page_res {
          data_items = with_like_info u.like_repo page_res.data_items user_id w;
        }))
        w

  unfoldable pub list_replies : String → String → ℤ → ℤ → Exec W (PageResponse CommentResponse)
  list_replies parent_id user_id page limit w =
      (do
        found ← wrapping "CommentUseCase - ListReplies" (
            query (
              u.repo.list_replies_by_parent_id parent_id (to_uint64 limit)
                (to_uint64 (page_offset page limit))))
        let page_res = to_comment_page_response found.0 found.1 page limit
        pure (record page_res {
          data_items = with_like_info u.like_repo page_res.data_items user_id w;
        }))
        w
