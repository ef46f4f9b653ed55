-- ===== src/Video/Feed/Ranking.antt =====
-- The ranking keeps the order of the IDs and shows only what the repository returned.
use pine_vid_backend.Prelude.{
  String, some, List, [], ◌∷◌, ◌≡◌, refl, ap, subst, arith, inl, inr, eq_iff, map, All,
  Option-cases,
}
use pine_vid_backend.Entity.Video.{Video}
use pine_vid_backend.Video.Feed.{by_id, rank, ids_found}

pub by_id-id : (vs : List Video) (id : String) (v : Video) → by_id vs id ≡ some v → v.id ≡ id
unfolding by_id
by_id-id [] id v h = cc
by_id-id (x ∷ vs) id v h = elim (Option-cases (by_id vs id)) [
  | inl missing ↦ ground (arith, eq_iff x.id id)
  | inr (y, e) ↦ ground (arith, by_id-id vs id y e)
]

-- The IDs of a ranking are the given IDs that were found, in their order.
pub map-id-rank :
    (ids : List String) (vs : List Video)
    → map (λ (v : Video). v.id) (rank ids vs) ≡ ids_found ids vs
unfolding rank ids_found
map-id-rank [] vs = refl
map-id-rank (id ∷ ids) vs = elim (Option-cases (by_id vs id)) [
  | inl missing ↦ rw missing (map-id-rank ids vs)
  | inr (v, e) ↦ rw (e, by_id-id vs id v e) (ap (◌∷◌ id) (map-id-rank ids vs))
]

module _ (P : Video → Type 0) where
  by_id-All : (vs : List Video) (id : String) (v : Video) → All P vs → by_id vs id ≡ some v → P v
  unfolding by_id
  by_id-All [] id v h e = cc
  by_id-All (x ∷ vs) id v h e = elim (Option-cases (by_id vs id)) [
    | inl missing ↦ subst P (ground arith) h.0
    | inr (y, f) ↦ by_id-All vs id v h.1 (ground arith)
  ]

  -- What holds of every video that was returned holds of every video that is ranked.
  pub rank-All : (ids : List String) (vs : List Video) → All P vs → All P (rank ids vs)
  unfolding rank
  rank-All [] vs h = tt
  rank-All (id ∷ ids) vs h = elim (Option-cases (by_id vs id)) [
    | inl missing ↦ rw missing (rank-All ids vs h)
    | inr (v, e) ↦ rw e (by_id-All vs id v h e, rank-All ids vs h)
  ]
