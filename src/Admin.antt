-- ===== src/Admin.antt =====
-- The bans of videos and streams (internal/usecase/admin/admin.go); the bans of users are in Account.
pub mod Republish
pub mod Dashboard
mod Tests
use pine_vid_backend.Prelude.{String, false}
use pine_vid_backend.Effects.{Exec, query, ◌>>=◌}
use pine_vid_backend.Entity.Video.{Time, visibility_private}
use pine_vid_backend.Video.Deps.{VideoRepo}
use pine_vid_backend.Livestream.Deps.{LivestreamRepo}

unfoldable pub ban_video : {W : Type 0} → VideoRepo W → String → Time → Exec W Unit
ban_video videos video_id now = do
  v ← query (videos.get_by_id video_id)
  videos.update (record v { visibility = visibility_private; updated_at = now })

unfoldable pub ban_stream : {W : Type 0} → LivestreamRepo W → String → Time → Exec W Unit
ban_stream streams stream_id now = do
  ls ← query (streams.get_by_id stream_id)
  streams.update (record ls { is_live = false; updated_at = now })
