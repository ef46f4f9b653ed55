-- ===== src/Video/Store.antt =====
-- What the use cases rely on of a `VideoRepo`: after a successful `Update` the row of that id has
-- the columns that internal/repo/persistent/video/video.go writes, and no other row has changed.
use pine_vid_backend.Prelude.{String, ◌≡◌, ◌≢◌}
use pine_vid_backend.Effects.{Error, ok, err}
use pine_vid_backend.Entity.Video.{Video}
use pine_vid_backend.Video.Deps.{VideoRepo}

-- The row `old` after `UPDATE videos SET … WHERE id = v.id`.
abbrev pub written : Video → Video → Video
written old v = record old {
  title = v.title;
  description = v.description;
  category = v.category;
  status = v.status;
  visibility = v.visibility;
  hls_url = v.hls_url;
  thumbnail_url = v.thumbnail_url;
  duration = v.duration;
  views = v.views;
  updated_at = v.updated_at;
}

pub record IsStore {W : Type 0} (r : VideoRepo W) : Type 0 where
  pub get_id : (id : String) (w : W) (v : Video) → r.get_by_id id w ≡ ok v → v.id ≡ id
  pub get-update :
      (id : String) (v old : Video) (w w' : W)
      → v.id ≡ id
      → r.get_by_id id w ≡ ok old
      → r.update v w ≡ (ok tt, w')
      → r.get_by_id id w' ≡ ok (written old v)
  pub get-update_ne :
      (v : Video) (id : String) (w w' : W)
      → id ≢ v.id
      → r.update v w ≡ (ok tt, w')
      → r.get_by_id id w' ≡ r.get_by_id id w
  pub update_fails : (v : Video) (w w' : W) (e : Error) → r.update v w ≡ (err e, w') → w' ≡ w
