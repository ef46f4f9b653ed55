-- ===== src/Livestream/Mapper.antt =====
-- internal/mapper/livestream.go, without the chat messages
use pine_vid_backend.Prelude.{ℕ, List, map}
use pine_vid_backend.Prelude.Int.{ℤ, pos}
use pine_vid_backend.Entity.Livestream.{Livestream, LivestreamResponse}
use pine_vid_backend.Page.{PageResponse, to_page_response}

unfoldable pub to_livestream_response : Livestream → LivestreamResponse
to_livestream_response ls = record {
  id = ls.id;
  streamer = record {
    id = ls.user_id;
    name = ls.user_name;
    avatar = ls.user_avatar;
    followers_count = pos 0;
  };
  title = ls.title;
  category = ls.category;
  is_live = ls.is_live;
  hls_url = ls.hls_url;
  viewers_count = ls.viewers_count;
  started_at = ls.started_at;
  ended_at = ls.ended_at;
}

unfoldable pub to_livestream_page_response :
    List Livestream → ℕ → ℤ → ℤ → PageResponse LivestreamResponse
unfolding to_livestream_response
to_livestream_page_response streams total page limit =
    to_page_response (map to_livestream_response streams) total page limit
