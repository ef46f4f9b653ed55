-- ===== src/Post/Author.antt =====
-- What the author of a post and others can do with it.
use pine_vid_backend.Prelude.{
  ap, ◌∙◌, String, true, false, ◌≡◌, ◌≢◌, arith, eq_iff, str_eq, is_some, [], ◌∷◌, ◌++◌,
  if◌then◌else◌, Bool-cases, inl, inr,
}
use pine_vid_backend.Effects.{ok, err, outcome_cases, post_forbidden}
use pine_vid_backend.Entity.Video.{Time}
use pine_vid_backend.Video.Deps.{Sys}
use pine_vid_backend.Post.{
  Post, PostResponse, PostRepo, CreatePostRequest, UseCase, create_post, delete_post,
  to_post_entity, to_post_response, new_post_notice,
}

-- A stored post is found until it is deleted.
pub record IsPostStore {W : Type 0} (r : PostRepo W) : Type 0 where
  pub found-store : (p : Post) (w w' : W) → r.store p w ≡ (ok tt, w') → r.get_by_id p.id w' ≡ ok p

module _ {W : Type 0} (u : UseCase W) (laws : IsPostStore u.repo) where
  created_lem :
      (author name avatar : String) (req : CreatePostRequest) (id : String) (now : Time)
      (s s' : Sys W) (r : PostResponse) (w : W)
      → let p = to_post_entity author name avatar req id now in
        u.repo.store p s.world ≡ (ok tt, w)
        → create_post u author name avatar req id now s ≡ (ok r, s')
        → (r ≡ to_post_response p)
          × (s'.world ≡ w)
          × (s'.spawned
              ≡ (if is_some u.notif_uc then s.spawned ++ new_post_notice p ∷ [] else s.spawned))
  unfolding create_post
  created_lem author name avatar req id now s s' r w stored done =
      elim (Bool-cases (is_some u.notif_uc)) [
        | inl notifies ↦ ground (arith, stored, done, notifies)
        | inr silent ↦ ground (arith, stored, done, silent)
      ]

  delete_refused :
      (user id : String) (s : Sys W) (p : Post)
      → u.repo.get_by_id id s.world ≡ ok p
      → str_eq p.user_id user ≡ false
      → delete_post u user id s ≡ (err post_forbidden, s)
  unfolding delete_post
  delete_refused user id s p found other = ground (arith, found, other)

  delete_allowed :
      (user id : String) (s : Sys W) (p : Post)
      → u.repo.get_by_id id s.world ≡ ok p
      → str_eq p.user_id user ≡ true
      → delete_post u user id s
        ≡ ((u.repo.delete id s.world).0, record s { world = (u.repo.delete id s.world).1 })
  unfolding delete_post
  delete_allowed user id s p found mine = ground (arith, found, mine)

  -- A post that was created notifies the followers once if the use case can, is found with its
  -- author, can be deleted by nobody else, and is deleted for the author by the repository.
  pub post_belongs_to_author :
      (author name avatar other : String) (req : CreatePostRequest) (id : String) (now : Time)
      (s s' : Sys W) (r : PostResponse)
      → other ≢ author
      → create_post u author name avatar req id now s ≡ (ok r, s')
      → (r.author.id ≡ author)
        × (s'.spawned ≡ (
            if is_some u.notif_uc
            then s.spawned ++ new_post_notice (to_post_entity author name avatar req id now) ∷ []
            else s.spawned))
        × (delete_post u other id s' ≡ (err post_forbidden, s'))
        × (delete_post u author id s'
            ≡ ((u.repo.delete id s'.world).0, record s' { world = (u.repo.delete id s'.world).1 }))
  unfolding create_post to_post_response to_post_entity
  post_belongs_to_author author name avatar other req id now s s' r stranger done =
      let p = to_post_entity author name avatar req id now in
      elim (outcome_cases (u.repo.store p s.world)) [
        | inl (t, w, stored) ↦
            let created = created_lem author name avatar req id now s s' r w stored done in
            let there : u.repo.get_by_id id s'.world ≡ ok p =
              ap (u.repo.get_by_id id) created.1 ∙ laws.found-store p s.world w stored in
            (
              ap (λ x. x.author.id) created.0,
              created.2,
              delete_refused other id s' p there (ground (arith, eq_iff author other, stranger)),
              delete_allowed author id s' p there (ground (arith, eq_iff author author)),
            )
        | inr (inl (e, w, failed)) ↦ absurd (ground arith)
        | inr (inr (w, failed)) ↦ absurd (ground arith)
      ]
