-- ===== src/Video/Upload.antt =====
-- `CreateUpload` (internal/usecase/video/video.go): the allow-list on the file's extension, and the
-- row of a video whose raw file is still to come. `ext` is `filepath.Ext` on a Unix path, and
-- `to_lower` is `strings.ToLower` on ASCII and on the two other runes that it maps into ASCII (the
-- Kelvin sign and the capital I with a dot). Other runes it leaves as they are: an extension with
-- one of them is refused in either case.
pub mod Extension
pub mod Accept
use Prim.Native.String.{[], ◌∷◌}
use pine_vid_backend.Prelude.{String, Char, code, ◌==◌, ◌<>◌, str_eq, if◌then◌else◌}
use pine_vid_backend.Effects.{Exec, pure, guard, wrapping, ◌>>=◌, ◌>>◌, unsupported_video_format}
use pine_vid_backend.Entity.Video.{
  Video, CreateVideoUpload, UploadUrlResponse, allowed_video_extensions, Time,
}
use pine_vid_backend.Video.Deps.{UseCase, Sys, call}
use pine_vid_backend.Video.Mapper.{to_video_entity}

-- The text from the last dot on, in the part behind the last slash.
unfoldable pub ext_from : String → String → String
ext_from found [] = found
ext_from found (c ∷ s) =
    ext_from (if code c == b'/' then "" else if code c == b'.' then c ∷ s else found) s

unfoldable pub ext : String → String
unfolding ext_from
ext = ext_from ""

unfoldable pub translate : String → String → Char → Char
translate [] ls c = c
translate (u ∷ us) [] c = c
translate (u ∷ us) (l ∷ ls) c = if code u == code c then l else translate us ls c

unfoldable pub lower_char : Char → Char
unfolding translate
lower_char = translate "ABCDEFGHIJKLMNOPQRSTUVWXYZKİ" "abcdefghijklmnopqrstuvwxyzki"

unfoldable pub to_lower : String → String
unfolding lower_char
to_lower [] = []
to_lower (c ∷ s) = lower_char c ∷ to_lower s

-- The extension that the upload goes by.
unfoldable pub upload_ext : String → String
upload_ext file_name = let e = to_lower (ext file_name) in if str_eq e "" then ".mp4" else e

module _ {W : Type 0} (u : UseCase W) where
  -- `video_id` is the new UUID; the clock is read once for each time field.
  unfoldable pub create_upload :
      String → CreateVideoUpload → String → Time → Time → Exec (Sys W) UploadUrlResponse
  create_upload user_id req video_id created updated = do
    let e = upload_ext req.file_name
    guard (allowed_video_extensions e) unsupported_video_format
    let s3_key = "raw-uploads/" <> (video_id <> ("/raw" <> e))
    let v = record (to_video_entity user_id req video_id s3_key) {
      created_at = created;
      updated_at = updated;
    }
    wrapping "VideoUseCase - CreateUpload - Store" (call (u.repo.store v))
    pure (record {
      video_id = video_id;
      upload_url = "http://localhost:9000/raw-videos/" <> s3_key;
      raw_s3_key = s3_key;
    })
