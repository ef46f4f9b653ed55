-- ===== src/Video/Upload/Accept.antt =====
-- Which files an upload is accepted for, and what is stored for them.
use pine_vid_backend.Prelude.{
  String, ◌<>◌, ◌≡◌, false, true, arith, eq_iff, refl, ap, Bool-cases, inl, inr, str_eq,
}
use pine_vid_backend.Prelude.Int.{pos}
use pine_vid_backend.Effects.{ok, err, unsupported_video_format}
use pine_vid_backend.Entity.Video.{
  Video, CreateVideoUpload, allowed_video_extensions, Time, status_pending,
}
use pine_vid_backend.Video.Deps.{UseCase, Sys}
use pine_vid_backend.Video.Mapper.{to_video_entity}
use pine_vid_backend.Video.Upload.{to_lower, upload_ext, create_upload}
use pine_vid_backend.Video.Upload.Extension.{IsPlain, ext-append}

abbrev pub object_key : String → String → String
object_key video_id e = "raw-uploads/" <> (video_id <> ("/raw" <> e))

abbrev pub uploaded_row : String → CreateVideoUpload → String → Time → Time → String → Video
uploaded_row user_id req video_id created updated e =
    record (to_video_entity user_id req video_id (object_key video_id e)) {
      created_at = created;
      updated_at = updated;
    }

allowed_empty : allowed_video_extensions "" ≡ false
unfolding allowed_video_extensions
allowed_empty = refl

upload_ext-append :
    (stem e : String)
    → IsPlain e
    → allowed_video_extensions (to_lower ("." <> e)) ≡ true
    → upload_ext (stem <> ("." <> e)) ≡ to_lower ("." <> e)
unfolding upload_ext
upload_ext-append stem e plain allowed = elim (Bool-cases (str_eq (to_lower ("." <> e)) "")) [
  | inl empty ↦
      absurd (cc (allowed_empty, rw ((eq_iff (to_lower ("." <> e)) "").0 empty) at allowed))
  | inr given ↦ rw (ext-append stem e plain, given)
]

module _ {W : Type 0} (u : UseCase W) (user_id : String) (req : CreateVideoUpload)
    (video_id : String) (created updated : Time) (s : Sys W) where
  -- A file whose extension is not on the list is refused, and nothing is stored.
  pub create_upload_refuses :
      allowed_video_extensions (upload_ext req.file_name) ≡ false
      → create_upload u user_id req video_id created updated s ≡ (err unsupported_video_format, s)
  unfolding create_upload
  create_upload_refuses h = ground arith

  -- A file `stem.e` is accepted if `.e`, in lower case, is on the list: if the row can be stored,
  -- the response names the object key that ends in that extension, which the stored row holds too;
  -- the row is the caller's, pending and with no views, and no goroutine is started.
  pub create_upload_accepts :
      (stem e : String) (w' : W)
      → req.file_name ≡ stem <> ("." <> e)
      → IsPlain e
      → allowed_video_extensions (to_lower ("." <> e)) ≡ true
      → u.repo.store
          (uploaded_row user_id req video_id created updated (to_lower ("." <> e)))
          s.world
        ≡ (ok tt, w')
      → (create_upload u user_id req video_id created updated s ≡ (
        ok (record {
          video_id = video_id;
          upload_url =
              "http://localhost:9000/raw-videos/" <> object_key video_id (to_lower ("." <> e));
          raw_s3_key = object_key video_id (to_lower ("." <> e));
        }),
        record s { world = w' },
      ))
        × (let row = uploaded_row user_id req video_id created updated (to_lower ("." <> e)) in
            (row.user_id ≡ user_id)
            × (row.status ≡ status_pending)
            × (row.views ≡ pos 0)
            × (row.raw_s3_key ≡ object_key video_id (to_lower ("." <> e))))
  unfolding create_upload to_video_entity
  create_upload_accepts stem e w' name plain allowed stored = (
    rw (ap upload_ext name, upload_ext-append stem e plain allowed) (ground arith),
    (refl, refl, refl, refl),
  )
