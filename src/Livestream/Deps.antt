-- ===== src/Livestream/Deps.antt =====
-- What `livestream.UseCase` (internal/usecase/livestream/livestream.go) is built over, and its state:
-- the pending ends that its mutex guards and the timers of `time.AfterFunc`.

use pine_vid_backend.Prelude.{
  String, Bool, ◌&&◌, ◌==◌, ℕ, Option, List, ◌∷◌, [], str_eq, if◌then◌else◌,
}
use pine_vid_backend.Prelude.Int.{ℤ}
use pine_vid_backend.Effects.{Result, Exec}
use pine_vid_backend.Entity.Video.{Time}
use pine_vid_backend.Entity.Livestream.{Livestream}
use pine_vid_backend.Video.Deps.{VideoRepo, Publisher, Notifier, Sys}

pub record LivestreamRepo (W : Type 0) : Type 0 where
  pub store : Livestream → Exec W Unit
  pub get_by_id : String → W → Result Livestream
  pub get_by_user_id : String → W → Result Livestream
  pub get_by_stream_key : String → W → Result Livestream
  pub list_active : String → ℤ → ℤ → W → Result (List Livestream × ℕ)
  pub update : Livestream → Exec W Unit

-- The part of `FollowRepo` that the use case calls.
pub record FollowRepo (W : Type 0) : Type 0 where
  pub count_followers : String → W → Result ℤ

-- `minio.Client`: `UploadFile(bucket, key, path)`
pub record MinioClient (W : Type 0) : Type 0 where
  pub upload_file : String → String → String → Exec W Unit

-- `srs.Client`: the keys that SRS receives data for. The map is the function that looks a key up.
pub record SrsClient (W : Type 0) : Type 0 where
  pub active_stream_keys : W → Result (String → Bool)

-- `os.Stat` and `os.Remove`
pub record Files (W : Type 0) : Type 0 where
  pub stat : String → W → Result Unit
  pub remove : String → Exec W Unit

-- `livestream.UseCase` without the mutable part: what may be nil in Go is an `Option`.
-- `recording_date` is `now.Format("02/01/2006 15:04")`.
pub record UseCase (W : Type 0) : Type 0 where
  pub repo : LivestreamRepo W
  pub video_repo : Option (VideoRepo W)
  pub follow_repo : Option (FollowRepo W)
  pub notif_uc : Option (Notifier W)
  pub minio_client : Option (MinioClient W)
  pub nats_publisher : Option (Publisher W)
  pub srs_client : Option (SrsClient W)
  pub files : Files W
  pub recording_date : Time → String
  pub raw_bucket : String
  pub dvr_local_dir : String

-- A timer of `time.AfterFunc` is a pointer, known by its number, and a function that runs
-- `finalizeStreamEnd` for a key.
pub record Timer : Type 0 where
  pub id : ℕ
  pub key : String

abbrev pub same_timer : Timer → Timer → Bool
same_timer t t' = (t.id == t'.id) && str_eq t.key t'.key

-- `timer.Stop()` on the timers that have not fired: of a timer that has fired nothing is stopped.
unfoldable pub stop : Timer → List Timer → List Timer
stop t [] = []
stop t (x ∷ xs) = let rest = stop t xs in if same_timer x t then rest else x ∷ rest

pub record PendingEnd : Type 0 where
  pub timer : Timer
  pub dvr_path : String

-- The map `pending`, the timers that are armed, and the keys of the timers that have fired and
-- whose function waits for the mutex.
pub record Live (W : Type 0) : Type 0 where
  pub sys : Sys W
  pub pending : List (String × PendingEnd)
  pub armed : List Timer
  pub fired : List String
  pub next_timer : ℕ

-- A call that has nothing to do with the pending ends.
abbrev pub outside : {W A : Type 0} → Exec (Sys W) A → Exec (Live W) A
outside m s = let (r, sys) = m s.sys in (r, record s { sys = sys })

-- The map `pending` by key.
unfoldable pub lookup : String → List (String × PendingEnd) → Option PendingEnd
lookup key [] = Option.none
lookup key ((k, p) ∷ rest) =
    let below = lookup key rest in if str_eq k key then Option.some p else below

unfoldable pub delete : String → List (String × PendingEnd) → List (String × PendingEnd)
delete key [] = []
delete key ((k, p) ∷ rest) =
    let below = delete key rest in if str_eq k key then below else (k, p) ∷ below

abbrev pub insert : String → PendingEnd → List (String × PendingEnd) → List (String × PendingEnd)
insert key p pending = (key, p) ∷ delete key pending
