-- ===== src/Livestream/Store.antt =====
-- What the livestream use case relies on of a `LivestreamRepo`
-- (internal/repo/persistent/livestream/livestream.go).
use pine_vid_backend.Prelude.{String, ◌≡◌, ◌≢◌, List, ℕ, All, none}
use pine_vid_backend.Prelude.Int.{ℤ}
use pine_vid_backend.Effects.{Error, ok, err}
use pine_vid_backend.Entity.Livestream.{Livestream}
use pine_vid_backend.Livestream.Deps.{LivestreamRepo}

-- The row `old` after `UPDATE livestreams SET … WHERE id = v.id`.
abbrev pub written : Livestream → Livestream → Livestream
written old v = record old {
  stream_key = v.stream_key;
  title = v.title;
  category = v.category;
  is_live = v.is_live;
  hls_url = v.hls_url;
  viewers_count = v.viewers_count;
  started_at = v.started_at;
  ended_at = v.ended_at;
  updated_at = v.updated_at;
}

-- The columns that the use case reads of a row that `Store` has written.
pub record IsStored (v row : Livestream) : Type 0 where
  pub stream_key : row.stream_key ≡ v.stream_key
  pub is_live : row.is_live ≡ v.is_live
  pub started_at : row.started_at ≡ v.started_at
  pub viewers_count : row.viewers_count ≡ v.viewers_count

-- A successful `Update` writes its columns to the row of its id, an update changes no other row,
-- `ListActive` lists rows as they are, and the row of a user who had none is the one stored.
pub record IsLiveStore {W : Type 0} (r : LivestreamRepo W) : Type 0 where
  pub get-update :
      (id : String) (v old : Livestream) (w w' : W)
      → v.id ≡ id
      → r.get_by_id id w ≡ ok old
      → r.update v w ≡ (ok tt, w')
      → r.get_by_id id w' ≡ ok (written old v)
  pub get-update_other :
      (id : String) (v : Livestream) (w : W)
      → v.id ≢ id
      → r.get_by_id id (r.update v w).1 ≡ r.get_by_id id w
  pub listed :
      (category : String) (limit offset : ℤ) (w : W) (found : List Livestream × ℕ)
      → r.list_active category limit offset w ≡ ok found
      → All (λ ls. r.get_by_id ls.id w ≡ ok ls) found.0
  pub get_user-store :
      (v : Livestream) (w w' : W) (e : Error)
      → v.started_at ≡ none
      → r.get_by_user_id v.user_id w ≡ err e
      → r.store v w ≡ (ok tt, w')
      → (row : Livestream) × (r.get_by_user_id v.user_id w' ≡ ok row) × IsStored v row
