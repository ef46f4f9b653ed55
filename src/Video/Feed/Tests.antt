-- ===== src/Video/Feed/Tests.antt =====
-- The theorems about the feeds at concrete rows.
use pine_vid_backend.Prelude.{String, ◌≡◌, refl, List, [], ◌∷◌, none, some, true}
use pine_vid_backend.Prelude.Int.{pos}
use pine_vid_backend.Effects.{ok, pure}
use pine_vid_backend.Entity.Video.{Video, VideoResponse}
use pine_vid_backend.Page.{PageResponse}
use pine_vid_backend.Video.Deps.{UseCase, ViewRepo}
use pine_vid_backend.Video.Mapper.{to_video_page_response}
use pine_vid_backend.Video.Memory.{Rows, memory, memory-IsCatalog, keep}
use pine_vid_backend.Video.Feed.{
  by_ids_where, is_listed, rank, get_trending, get_reels_feed, list_public_videos, ranked_ids,
}
use pine_vid_backend.Video.Feed.Visible.{ShowsVisible, feeds_show_visible}

abbrev row : String → String → String → Video
row id owner visibility = record {
  id = id;
  user_id = owner;
  user_name = "Ann";
  user_avatar = "";
  title = "A film";
  description = "";
  category = "Film";
  status = "complete";
  visibility = visibility;
  raw_s3_key = "";
  hls_url = "";
  thumbnail_url = "";
  duration = "";
  is_reel = true;
  views = pos 3;
  created_at = 1;
  updated_at = 1;
}

abbrev rows : Rows
rows = row "v1" "ann" "public" ∷ row "v2" "bob" "private" ∷ row "v3" "bob" "public" ∷ []

abbrev views : ViewRepo Rows
views = record {
  record_view = λ id ip device. pure (true, pos 1);
  get_pending_views_for_video = λ id w. pos 0;
  get_trending_video_ids = λ days limit w. (ok ("v3" ∷ "v2" ∷ "v1" ∷ []), w);
}

abbrev ranked : UseCase Rows
ranked = record {
  repo = memory;
  view_repo = some views;
  like_repo = none;
  saved_repo = none;
  nats_publisher = none;
  notif_uc = none;
}

abbrev unranked : UseCase Rows
unranked = record {
  repo = memory;
  view_repo = none;
  like_repo = none;
  saved_repo = none;
  nats_publisher = none;
  notif_uc = none;
}

abbrev visible : List Video
visible = row "v1" "ann" "public" ∷ row "v3" "bob" "public" ∷ []

ranking : ranked_ids ranked "24h" rows ≡ (ok ("v3" ∷ "v2" ∷ "v1" ∷ []), rows)
unfolding ranked_ids
ranking = refl

no_ranking : ranked_ids unranked "24h" rows ≡ (ok [], rows)
unfolding ranked_ids
no_ranking = refl

found : memory.get_by_ids ("v3" ∷ "v2" ∷ "v1" ∷ []) rows ≡ ok visible
unfolding keep by_ids_where is_listed
found = refl

rank-visible :
    rank ("v3" ∷ "v2" ∷ "v1" ∷ []) visible ≡ row "v3" "bob" "public" ∷ row "v1" "ann" "public" ∷ []
unfolding rank
rank-visible = refl

feeds_show_visible_example :
    ShowsVisible
      (get_trending ranked "7d" "ann" (pos 1) (pos 10) rows)
      (ranked_ids ranked "7d" rows).1
    × ShowsVisible
        (get_reels_feed ranked "7d" (pos 1) (pos 10) rows)
        (ranked_ids ranked "7d" rows).1
    × ShowsVisible (list_public_videos ranked "ann" "" "" (pos 1) (pos 10) rows) rows
feeds_show_visible_example =
    feeds_show_visible ranked memory-IsCatalog (pos 1) (pos 10) rows "7d" "ann" "" ""

abbrev by_rank : List Video
by_rank = rank ("v3" ∷ "v2" ∷ "v1" ∷ []) visible

abbrev own_page : PageResponse VideoResponse
own_page = to_video_page_response (row "v1" "ann" "public" ∷ []) 1 (pos 1) (pos 10)

own_only : get_trending unranked "24h" "ann" (pos 1) (pos 10) rows ≡ (ok own_page, rows)
unfolding get_trending ranked_ids list_public_videos keep
own_only = refl
