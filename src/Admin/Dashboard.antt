-- ===== src/Admin/Dashboard.antt =====
-- The dashboard, the workers and the list of users (internal/usecase/admin/admin.go,
-- internal/mapper/user.go). float64 is a parameter, and so is the layout of a time.
pub mod Workers
use pine_vid_backend.Prelude.{String, Bool, ℕ, none, List, map, length, ◌*◌}
use pine_vid_backend.Prelude.Int.{ℤ, pos}
use pine_vid_backend.Effects.{Result, Exec, pure, query, wrapping, ◌>>=◌}
use pine_vid_backend.Entity.Video.{Time, VideoFilter}
use pine_vid_backend.Entity.User.{User}
use pine_vid_backend.Video.Deps.{VideoRepo}
use pine_vid_backend.Page.{PageResponse, to_page_response}

pub record WorkerHeartbeat (F : Type 0) : Type 0 where
  pub worker_id : String
  pub status : String
  pub current_job : String
  pub cpu_usage : F
  pub ram_usage_mb : F
  pub last_heartbeat : Time

pub record ChannelStats : Type 0 where
  pub total_channels : ℤ
  pub active_channels : ℤ
  pub banned_channels : ℤ

pub record CategoryStat : Type 0 where
  pub category : String
  pub video_count : ℤ

pub record CategoryStatResponse : Type 0 where
  pub category : String
  pub video_count : ℤ

pub record WorkerStatusResponse (F : Type 0) : Type 0 where
  pub worker_id : String
  pub status : String
  pub current_job : String
  pub cpu_usage : F
  pub ram_usage : F

pub record SystemDashboardResponse : Type 0 where
  pub total_videos : ℤ
  pub active_livestreams : ℤ
  pub active_workers : ℤ
  pub total_viewers : ℤ
  pub total_channels : ℤ
  pub active_channels : ℤ
  pub banned_channels : ℤ
  pub category_breakdown : List CategoryStatResponse

pub record UserResponse : Type 0 where
  pub id : String
  pub username : String
  pub email : String
  pub avatar : String
  pub role : String
  pub is_banned : Bool
  pub created_at : String

pub record WorkerRepo (W F : Type 0) : Type 0 where
  pub upsert_heartbeat : WorkerHeartbeat F → Exec W Unit
  pub list_active : ℕ → W → Result (List (WorkerHeartbeat F))

pub record AdminStatsRepo (W : Type 0) : Type 0 where
  pub channel_stats : W → Result ChannelStats
  pub category_breakdown : W → Result (List CategoryStat)

-- The queries that only the admin use case makes of the repositories of streams and users, by page and
-- limit for users, and `Format` with the layout of `ToUserResponse`.
pub record Queries (W : Type 0) : Type 0 where
  pub count_active : W → Result ℤ
  pub sum_active_viewers : W → Result ℤ
  pub list_users : ℤ → ℤ → W → Result (List User × ℕ)
  pub format_time : Time → String

pub record UseCase (W F : Type 0) : Type 0 where
  pub videos : VideoRepo W
  pub queries : Queries W
  pub workers : WorkerRepo W F
  pub stats : AdminStatsRepo W

-- `repo.VideoFilter{Limit: 1}`
abbrev pub one_video : VideoFilter
one_video = record {
  user_id = "";
  category = "";
  query = "";
  status = none;
  visibility = none;
  is_reel = none;
  limit = 1;
  offset = 0;
}

-- 30 seconds, in nanoseconds.
abbrev pub worker_stale_after : ℕ
worker_stale_after = 30 * 1000000000

unfoldable pub to_worker_status : {F : Type 0} → WorkerHeartbeat F → WorkerStatusResponse F
to_worker_status w = record {
  worker_id = w.worker_id;
  status = w.status;
  current_job = w.current_job;
  cpu_usage = w.cpu_usage;
  ram_usage = w.ram_usage_mb;
}

unfoldable pub to_category : CategoryStat → CategoryStatResponse
to_category c = record { category = c.category; video_count = c.video_count }

unfoldable pub to_user_response : (Time → String) → User → UserResponse
to_user_response format_time u = record {
  id = u.id;
  username = u.username;
  email = u.email;
  avatar = u.avatar;
  role = u.role;
  is_banned = u.is_banned;
  created_at = format_time u.created_at;
}

module _ {W F : Type 0} (u : UseCase W F) where
  unfoldable pub get_dashboard : Exec W SystemDashboardResponse
  get_dashboard = do
    (listed, total_videos) ←
        wrapping "AdminUseCase - GetDashboard - vRepo.List" (query (u.videos.list one_video))
    active ← wrapping "AdminUseCase - GetDashboard - CountActive" (query u.queries.count_active)
    viewers ←
        wrapping "AdminUseCase - GetDashboard - SumActiveViewers"
          (query u.queries.sum_active_viewers)
    workers ←
        wrapping "AdminUseCase - GetDashboard - wRepo.ListActive"
          (query (u.workers.list_active worker_stale_after))
    channels ←
        wrapping "AdminUseCase - GetDashboard - statsRepo.ChannelStats"
          (query u.stats.channel_stats)
    categories ←
        wrapping "AdminUseCase - GetDashboard - statsRepo.CategoryBreakdown"
          (query u.stats.category_breakdown)
    pure (record {
      total_videos = pos total_videos;
      active_livestreams = active;
      active_workers = pos (length workers);
      total_viewers = viewers;
      total_channels = channels.total_channels;
      active_channels = channels.active_channels;
      banned_channels = channels.banned_channels;
      category_breakdown = map to_category categories;
    })

  unfoldable pub get_workers_status : Exec W (List (WorkerStatusResponse F))
  get_workers_status = do
    workers ←
        wrapping "AdminUseCase - GetWorkersStatus - wRepo.ListActive"
          (query (u.workers.list_active worker_stale_after))
    pure (map to_worker_status workers)

  unfoldable pub record_heartbeat : WorkerHeartbeat F → Exec W Unit
  record_heartbeat hb = u.workers.upsert_heartbeat hb

  unfoldable pub list_users : ℤ → ℤ → Exec W (PageResponse UserResponse)
  list_users page limit = do
    (users, total) ← query (u.queries.list_users page limit)
    let items = map (to_user_response u.queries.format_time) users
    pure (to_page_response items total page limit)
