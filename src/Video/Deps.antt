-- ===== src/Video/Deps.antt =====
-- The interfaces that `video.UseCase` is built over: `VideoRepo`, `LikeRepo` and `SavedVideoRepo` of
-- internal/repo/contracts.go, the view counter, the job publisher of pkg/nats/publisher.go and
-- `usecase.Notification`. `W` is the world behind them: the databases and the message queue.
-- A query returns a result and changes nothing.
use pine_vid_backend.Prelude.{String, Bool, ℕ, Option, List, ◌∷◌, [], ◌++◌, if◌then◌else◌}
use pine_vid_backend.Prelude.Int.{ℤ}
use pine_vid_backend.Effects.{Result, ok, Exec}
use pine_vid_backend.Entity.Video.{Video, VideoFilter}
use pine_vid_backend.Entity.Notification.{Notice}

pub record VideoRepo (W : Type 0) : Type 0 where
  pub store : Video → Exec W Unit
  pub get_by_id : String → W → Result Video
  pub get_by_ids : List String → W → Result (List Video)
  pub list : VideoFilter → W → Result (List Video × ℕ)
  pub update : Video → Exec W Unit
  pub delete : String → Exec W Unit

-- The part of `view.Repo` that the use case calls.
pub record ViewRepo (W : Type 0) : Type 0 where
  pub record_view : String → String → String → Exec W (Bool × ℤ)
  pub get_pending_views_for_video : String → W → ℤ
  pub get_trending_video_ids : ℕ → ℕ → Exec W (List String)

pub record LikeRepo (W : Type 0) : Type 0 where
  pub get_like_count : String → W → Result ℤ
  pub is_liked_by_user : String → String → W → Result Bool

pub record SavedVideoRepo (W : Type 0) : Type 0 where
  pub is_saved_by_user : String → String → W → Result Bool

-- `PublishTranscodeJob(videoID, rawObjectKey, userID)`
pub record Publisher (W : Type 0) : Type 0 where
  pub publish_transcode_job : String → String → String → Exec W Unit

-- `usecase.Notification`, as far as the other use cases call it.
pub record Notifier (W : Type 0) : Type 0 where
  pub notify_followers : Notice → Exec W Unit

-- `video.UseCase`: what may be nil in Go is an `Option`.
pub record UseCase (W : Type 0) : Type 0 where
  pub repo : VideoRepo W
  pub view_repo : Option (ViewRepo W)
  pub like_repo : Option (LikeRepo W)
  pub saved_repo : Option (SavedVideoRepo W)
  pub nats_publisher : Option (Publisher W)
  pub notif_uc : Option (Notifier W)

-- The world, and the calls of `NotifyFollowers` that were started as goroutines and have not run.
pub record Sys (W : Type 0) : Type 0 where
  pub world : W
  pub spawned : List Notice

module _ {W A : Type 0} where
  -- A call of a dependency.
  abbrev pub call : Exec W A → Exec (Sys W) A
  call m s = let (r, w) = m s.world in (r, record s { world = w })

  abbrev pub ask : (W → Result A) → Exec (Sys W) A
  ask q s = (q s.world, s)

module _ {W : Type 0} where
  -- `go func() { … NotifyFollowers(…) … }()`
  abbrev pub spawn : Notice → Exec (Sys W) Unit
  spawn n s = (ok tt, record s { spawned = s.spawned ++ n ∷ [] })

  -- `if condition { call }`
  abbrev pub when : Bool → Exec (Sys W) Unit → Exec (Sys W) Unit
  when b m s = if b then m s else (ok tt, s)
