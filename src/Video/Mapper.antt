-- ===== src/Video/Mapper.antt =====
-- internal/mapper/video.go
use pine_vid_backend.Prelude.{String, false, ℕ, List, map, str_eq, if◌then◌else◌}
use pine_vid_backend.Prelude.Int.{ℤ, pos}
use pine_vid_backend.Entity.Video.{
  Video, CreateVideoUpload, UpdateVideo, UpdateThumbnail, VideoResponse, visibility_public,
  status_pending, Time,
}
use pine_vid_backend.Page.{PageResponse, to_page_response}

-- `if text != "" { field = text }`
abbrev pub or_keep : String → String → String
or_keep text old = if str_eq text "" then old else text

-- The zero value of a `time.Time` that is not set yet.
abbrev pub unset : Time
unset = 0

unfoldable pub to_video_entity : String → CreateVideoUpload → String → String → Video
to_video_entity user_id req id s3_key = record {
  id = id;
  user_id = user_id;
  user_name = "";
  user_avatar = "";
  title = req.title;
  description = req.description;
  category = req.category;
  status = status_pending;
  visibility = or_keep req.visibility visibility_public;
  raw_s3_key = s3_key;
  hls_url = "";
  thumbnail_url = req.thumbnail_url;
  duration = req.duration;
  is_reel = req.is_reel;
  views = pos 0;
  created_at = unset;
  updated_at = unset;
}

unfoldable pub apply_video_update : Video → UpdateVideo → Video
apply_video_update v req = record v {
  title = or_keep req.title v.title;
  description = or_keep req.description v.description;
  category = or_keep req.category v.category;
  visibility = or_keep req.visibility v.visibility;
  thumbnail_url = or_keep req.thumbnail_url v.thumbnail_url;
}

unfoldable pub apply_thumbnail_update : Video → UpdateThumbnail → Video
apply_thumbnail_update v req = record v {
  thumbnail_url = or_keep req.thumbnail_url v.thumbnail_url;
}

unfoldable pub to_video_response : Video → VideoResponse
to_video_response v = record {
  id = v.id;
  creator = record { id = v.user_id; name = v.user_name; avatar = v.user_avatar };
  title = v.title;
  description = v.description;
  category = v.category;
  status = v.status;
  visibility = v.visibility;
  hls_url = v.hls_url;
  thumbnail_url = v.thumbnail_url;
  duration = v.duration;
  is_reel = v.is_reel;
  views = v.views;
  likes_count = pos 0;
  is_liked = false;
  is_saved = false;
  created_at = v.created_at;
  updated_at = v.updated_at;
}

unfoldable pub to_video_responses : List Video → List VideoResponse
unfolding to_video_response
to_video_responses = map to_video_response

unfoldable pub to_video_page_response : List Video → ℕ → ℤ → ℤ → PageResponse VideoResponse
to_video_page_response videos total page limit =
    to_page_response (to_video_responses videos) total page limit
