-- ===== src/Post/Tests.antt =====
-- Posts in a list.
use pine_vid_backend.Prelude.{
  ◌∙◌, sym, String, ◌≡◌, refl, ap, arith, eq_iff, str_eq, none, some, List, [], ◌∷◌, ◌++◌,
  if◌then◌else◌,
}
use pine_vid_backend.Effects.{Result, ok, err, post_not_found, post_forbidden}
use pine_vid_backend.Video.Deps.{Sys}
use pine_vid_backend.Post.{
  Post, PostRepo, CreatePostRequest, UseCase, create_post, delete_post, to_post_entity,
  to_post_response, new_post_notice,
}
use pine_vid_backend.Post.Author.{IsPostStore, post_belongs_to_author}

abbrev find : String → List Post → Result Post
find id [] = err post_not_found
find id (p ∷ ps) = if str_eq p.id id then ok p else find id ps

abbrev memory : PostRepo (List Post)
memory = record {
  store = λ p w. (ok tt, p ∷ w);
  get_by_id = find;
  list_by_user = λ user limit offset w. ok (w, 0);
  delete = λ id w. (ok tt, []);
}

abbrev use_case : UseCase (List Post)
use_case = record {
  repo = memory;
  like_repo = none;
  notif_uc = some (record { notify_followers = λ n w. (ok tt, w) });
}

memory-IsPostStore : IsPostStore memory
memory-IsPostStore = record {
  found-store = λ p w w' stored.
      sym (ap (λ (q : Result Unit × List Post). find p.id q.1) stored)
      ∙ ground (arith, eq_iff p.id p.id);
}

abbrev request : CreatePostRequest
request = record { content = "Hello"; image_url = "" }

abbrev nothing : Sys (List Post)
nothing = record { world = []; spawned = [] }

abbrev post : Post
post = to_post_entity "ann" "Ann" "" request "p1" 5

abbrev posted : Sys (List Post)
posted = record { world = post ∷ []; spawned = new_post_notice post ∷ [] }

post_belongs_to_author_example :
    ((to_post_response post).author.id ≡ "ann")
    × (posted.spawned ≡ [] ++ new_post_notice post ∷ [])
    × (delete_post use_case "bob" "p1" posted ≡ (err post_forbidden, posted))
    × (delete_post use_case "ann" "p1" posted ≡ (ok tt, record posted { world = [] }))
unfolding create_post
post_belongs_to_author_example =
    post_belongs_to_author use_case memory-IsPostStore "ann" "Ann" "" "bob" request "p1" 5 nothing
      posted (to_post_response post) (ground (arith, eq_iff "bob" "ann")) refl
