-- ===== src/Comment/Tests.antt =====
-- The theorems about comments at a concrete comment.
use pine_vid_backend.Prelude.{◌≡◌, refl, none, some, List, [], ◌∷◌, str_eq, if◌then◌else◌}
use pine_vid_backend.Prelude.Int.{pos}
use pine_vid_backend.Effects.{ok, err, comment_not_found}
use pine_vid_backend.Comment.{
  Comment, CommentRepo, CreateCommentRequest, UseCase, create_comment, to_comment_entity,
  to_comment_response,
}
use pine_vid_backend.Comment.Replies.{reply_same_video}

abbrev parent : Comment
parent = record {
  id = "c1";
  video_id = "v1";
  user_id = "ann";
  user_name = "Ann";
  user_avatar = "";
  content = "First";
  parent_id = none;
  reply_count = pos 0;
  created_at = 1;
}

abbrev reply : Comment
reply = record parent {
  id = "c2";
  user_id = "bob";
  user_name = "Bob";
  content = "Yes";
  parent_id = some "c1";
  created_at = 5;
}

-- One comment that is there, and those stored after it.
abbrev memory : CommentRepo (List Comment)
memory = record {
  store = λ c w. (ok tt, c ∷ w);
  get_by_id = λ id w. if str_eq id "c1" then ok parent else err comment_not_found;
  list_by_video_id = λ id limit offset w. ok (w, 1);
  list_replies_by_parent_id = λ id limit offset w. ok (w, 1);
  count_all_by_video_id = λ id w. ok 2;
}

abbrev use_case : UseCase (List Comment)
use_case = record { repo = memory; like_repo = none }

abbrev request : CreateCommentRequest
request = record { content = "Yes"; parent_id = some "c1" }

reply_same_video_example :
    (found : Comment) × (memory.get_by_id "c1" [] ≡ ok found)
    × (found.video_id ≡ "v1")
    × ((to_comment_response reply).video_id ≡ "v1")
    × ((to_comment_response reply).user.id ≡ "bob")
    × ((to_comment_response reply).parent_id ≡ some "c1")
unfolding create_comment to_comment_entity
reply_same_video_example =
    reply_same_video use_case "v1" "bob" "Bob" "" request "c2" 5 [] "c1" (to_comment_response reply)
      (reply ∷ []) refl refl
