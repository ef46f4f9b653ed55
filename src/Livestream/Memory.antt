-- ===== src/Livestream/Memory.antt =====
-- A repository of livestreams in memory, at which the theorems are applied: a list of rows, of which
-- the first of an id counts.
use pine_vid_backend.Prelude.{
  String, Bool, true, false, ◌≡◌, ◌≢◌, refl, arith, eq_iff, str_eq, ℕ, List, [], ◌∷◌, ◌++◌,
  if◌then◌else◌, length, All, subst, sym, ap, inl, inr, Bool-cases,
}
use pine_vid_backend.Effects.{Error, Result, ok, err, livestream_not_found, invalid_stream_key}
use pine_vid_backend.Entity.Livestream.{Livestream}
use pine_vid_backend.Livestream.Deps.{LivestreamRepo}
use pine_vid_backend.Livestream.Store.{IsLiveStore, written}

abbrev pub Rows : Type 0
Rows = List Livestream

unfoldable pub find : (Livestream → Bool) → Error → Rows → Result Livestream
find test e [] = err e
find test e (v ∷ rows) = let rest = find test e rows in if test v then ok v else rest

abbrev pub find_id : String → Rows → Result Livestream
find_id id = find (λ v. str_eq v.id id) livestream_not_found

unfoldable pub update_rows : Livestream → Rows → Rows
update_rows v [] = []
update_rows v (old ∷ rows) =
    (if str_eq old.id v.id then written old v else old) ∷ update_rows v rows

unfoldable pub without : String → Rows → Rows
without id [] = []
without id (v ∷ rows) = let rest = without id rows in if str_eq v.id id then rest else v ∷ rest

-- The live rows, without those that an earlier row of the same id hides.
unfoldable pub live_rows : Rows → Rows
unfolding without
live_rows [] = []
live_rows (v ∷ rows) =
    let rest = without v.id (live_rows rows) in if v.is_live then v ∷ rest else rest

abbrev pub memory : LivestreamRepo Rows
memory = record {
  store = λ v rows. (ok tt, rows ++ v ∷ []);
  get_by_id = find_id;
  get_by_user_id = λ user. find (λ v. str_eq v.user_id user) livestream_not_found;
  get_by_stream_key = λ key. find (λ v. str_eq v.stream_key key) invalid_stream_key;
  list_active = λ category limit offset rows. ok (live_rows rows, length (live_rows rows));
  update = λ v rows. (ok tt, update_rows v rows);
}

find-update :
    (id : String) (v old : Livestream) (rows : Rows)
    → v.id ≡ id
    → find_id id rows ≡ ok old
    → find_id id (update_rows v rows) ≡ ok (written old v)
unfolding find update_rows
find-update id v old [] same found = cc
find-update id v old (x ∷ rows) same found =
    ground (arith, eq_iff x.id id, eq_iff x.id v.id, find-update id v old rows same)

find-update_other :
    (id : String) (v : Livestream) (rows : Rows)
    → v.id ≢ id
    → find_id id (update_rows v rows) ≡ find_id id rows
unfolding find update_rows
find-update_other id v [] apart = refl
find-update_other id v (x ∷ rows) apart =
    ground (arith, eq_iff x.id id, eq_iff x.id v.id, find-update_other id v rows apart)

find-store :
    (user : String) (v : Livestream) (rows : Rows) (e : Error)
    → v.user_id ≡ user
    → find (λ x. str_eq x.user_id user) livestream_not_found rows ≡ err e
    → find (λ x. str_eq x.user_id user) livestream_not_found (rows ++ v ∷ []) ≡ ok v
unfolding find
find-store user v [] e same missing = ground (arith, eq_iff v.user_id user)
find-store user v (x ∷ rows) e same missing = ground (arith, find-store user v rows e same)

without-All :
    (x : Livestream) (rows found : Rows)
    → All (λ v. find_id v.id rows ≡ ok v) found
    → All (λ v. find_id v.id (x ∷ rows) ≡ ok v) (without x.id found)
unfolding find without
without-All x rows [] h = tt
without-All x rows (v ∷ found) h = elim (Bool-cases (str_eq v.id x.id)) [
  | inl same ↦ rw same (without-All x rows found h.1)
  | inr apart ↦
      rw apart
        (ground (arith, h.0, eq_iff v.id x.id, eq_iff x.id v.id), without-All x rows found h.1)
]

if-All :
    (P : Livestream → Type 0) (b : Bool) (v : Livestream) (rest : Rows)
    → P v
    → All P rest
    → All P (if b then v ∷ rest else rest)
if-All P true v rest h hs = (h, hs)
if-All P false v rest h hs = hs

live_rows-All : (rows : Rows) → All (λ v. find_id v.id rows ≡ ok v) (live_rows rows)
unfolding find live_rows
live_rows-All [] = tt
live_rows-All (x ∷ rows) =
    if-All (λ v. find_id v.id (x ∷ rows) ≡ ok v) x.is_live x (without x.id (live_rows rows))
      (ground (arith, eq_iff x.id x.id)) (without-All x rows (live_rows rows) (live_rows-All rows))

pub memory-IsLiveStore : IsLiveStore memory
memory-IsLiveStore = record {
  get-update = λ id v old w w' same found stored.
      rw (ap (λ (p : Result Unit × Rows). p.1) (sym stored)) (find-update id v old w same found);
  get-update_other = λ id v w apart. find-update_other id v w apart;
  listed = λ category limit offset w found e.
      subst (λ (p : Rows × ℕ). All (λ ls. find_id ls.id w ≡ ok ls) p.0)
        {x = (live_rows w, length (live_rows w))} {y = found} (cc e) (live_rows-All w);
  get_user-store = λ v w w' e fresh missing stored. (
    v,
    rw (ap (λ (p : Result Unit × Rows). p.1) (sym stored))
        (find-store v.user_id v w e refl missing),
    record { stream_key = refl; is_live = refl; started_at = refl; viewers_count = refl },
  );
}
