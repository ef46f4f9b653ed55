-- ===== src/Video/Memory.antt =====
-- A repository in memory, at which the theorems about the use case are applied: a list of rows.
use pine_vid_backend.Prelude.{
  String, Bool, true, false, not, ◌&&◌, ◌||◌, ℕ, Option, none, some, List, [], ◌∷◌, ◌++◌, ◌≡◌, ◌≢◌,
  refl, subst, ap, arith, str_eq, eq_iff, if◌then◌else◌, length, All, inl, inr, Bool-cases,
}
use pine_vid_backend.Effects.{Result, ok, err, video_not_found}
use pine_vid_backend.Entity.Video.{Video, VideoFilter}
use pine_vid_backend.Video.Deps.{VideoRepo}
use pine_vid_backend.Video.Store.{IsStore, written}
use pine_vid_backend.Video.Feed.{by_ids_where}
use pine_vid_backend.Video.Feed.Visible.{IsCatalog, Matches, Asks}

abbrev pub Rows : Type 0
Rows = List Video

unfoldable pub find : String → Rows → Result Video
find id [] = err video_not_found
find id (v ∷ rows) = if str_eq v.id id then ok v else find id rows

unfoldable pub update_rows : Video → Rows → Rows
update_rows v [] = []
update_rows v (old ∷ rows) =
    (if str_eq old.id v.id then written old v else old) ∷ update_rows v rows

unfoldable pub delete_rows : String → Rows → Rows
delete_rows id [] = []
delete_rows id (v ∷ rows) =
    let rest = delete_rows id rows in if str_eq v.id id then rest else v ∷ rest

unfoldable pub keep : (Video → Bool) → Rows → Rows
keep test [] = []
keep test (v ∷ rows) = let rest = keep test rows in if test v then v ∷ rest else rest

abbrev pub asks : Option String → String → Bool
asks none x = true
asks (some y) x = str_eq x y

unfoldable pub is_in : List String → String → Bool
is_in [] x = false
is_in (y ∷ ys) x = str_eq y x || is_in ys x

abbrev pub reel : Option Bool → Bool → Bool
reel none x = true
reel (some true) x = x
reel (some false) x = not x

abbrev pub matches : VideoFilter → Video → Bool
matches f v =
    asks f.status v.status
    && (asks f.visibility v.visibility
        && (reel f.is_reel v.is_reel && (str_eq f.user_id "" || str_eq v.user_id f.user_id)))

abbrev pub memory : VideoRepo Rows
memory = record {
  store = λ v rows. (ok tt, rows ++ v ∷ []);
  get_by_id = find;
  get_by_ids = λ ids rows. ok (keep (by_ids_where ids) rows);
  list = λ f rows. ok (let found = keep (matches f) rows in (found, length found));
  update = λ v rows. (ok tt, update_rows v rows);
  delete = λ id rows. (ok tt, delete_rows id rows);
}

find-id : (id : String) (rows : Rows) (v : Video) → find id rows ≡ ok v → v.id ≡ id
unfolding find
find-id id [] v h = cc
find-id id (x ∷ rows) v h = ground (arith, eq_iff x.id id, find-id id rows v)

find-update :
    (id : String) (v old : Video) (rows : Rows)
    → v.id ≡ id
    → find id rows ≡ ok old
    → find id (update_rows v rows) ≡ ok (written old v)
unfolding find update_rows
find-update id v old [] same h = cc
find-update id v old (x ∷ rows) same h =
    ground (arith, eq_iff x.id id, eq_iff x.id v.id, find-update id v old rows same)

find-update_ne :
    (v : Video) (id : String) (rows : Rows)
    → id ≢ v.id
    → find id (update_rows v rows) ≡ find id rows
unfolding find update_rows
find-update_ne v id [] other = refl
find-update_ne v id (x ∷ rows) other =
    ground (arith, eq_iff x.id id, eq_iff x.id v.id, find-update_ne v id rows other)

after : {r : Result Unit} {a b : Rows} → Path (Result Unit × Rows) (r, a) (ok tt, b) → a ≡ b
after p = ap (λ x. x.1) p

pub memory-IsStore : IsStore memory
memory-IsStore = record {
  get_id = find-id;
  get-update = λ id v old w w' same found stored.
      subst (λ rows. find id rows ≡ ok (written old v)) (after stored)
        (find-update id v old w same found);
  get-update_ne = λ v id w w' other stored.
      subst (λ rows. find id rows ≡ find id w) (after stored) (find-update_ne v id w other);
  update_fails = λ v w w' e stored. absurd (cc stored);
}

keep-All :
    (test : Video → Bool) (P : Video → Type 0)
    → ((v : Video) → test v ≡ true → P v)
    → (rows : Rows) → All P (keep test rows)
unfolding keep
keep-All test P h [] = tt
keep-All test P h (v ∷ rows) = elim (Bool-cases (test v)) [
  | inl yes_kept ↦ rw yes_kept (h v yes_kept, keep-All test P h rows)
  | inr dropped ↦ rw dropped (keep-All test P h rows)
]

asks-Asks : (o : Option String) (x : String) → asks o x ≡ true → Asks o x
asks-Asks none x h = tt
asks-Asks (some y) x h = ground (arith, eq_iff x y)

reel-Asks : (o : Option Bool) (x : Bool) → reel o x ≡ true → Asks o x
reel-Asks none x h = tt
reel-Asks (some true) x h = h
reel-Asks (some false) x h = ground arith

and-left : (a b : Bool) → (a && b) ≡ true → (a ≡ true) × (b ≡ true)
and-left a b h = ground arith

matches-Matches : (f : VideoFilter) (v : Video) → matches f v ≡ true → Matches f v
matches-Matches f v h =
    let (st, r1) = and-left _ _ h in
    let (vi, r2) = and-left _ _ r1 in
    let (re, ow) = and-left _ _ r2 in
    record {
      status = asks-Asks f.status v.status st;
      visibility = asks-Asks f.visibility v.visibility vi;
      is_reel = reel-Asks f.is_reel v.is_reel re;
      owner = λ named. ground (arith, eq_iff f.user_id "", eq_iff v.user_id f.user_id);
    }

ok_same : {A : Type 0} {a b : A} → ok a ≡ ok b → a ≡ b
ok_same h = cc

pub memory-IsCatalog : IsCatalog memory
memory-IsCatalog = record {
  by_ids = λ ids w vs e.
      subst (All (λ v. by_ids_where ids v ≡ true)) (ok_same e)
        (keep-All (by_ids_where ids) (λ v. by_ids_where ids v ≡ true) (λ v h. h) w);
  listed = λ f w found e.
      subst (λ (p : List Video × ℕ). All (Matches f) p.0) (ok_same e)
        (keep-All (matches f) (Matches f) (matches-Matches f) w);
}
