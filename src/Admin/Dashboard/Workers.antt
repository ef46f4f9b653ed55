-- ===== src/Admin/Dashboard/Workers.antt =====
-- The dashboard and the list of workers.
use pine_vid_backend.Prelude.{◌≡◌, arith, List, map, length, length-map, inl, inr}
use pine_vid_backend.Prelude.Int.{pos}
use pine_vid_backend.Effects.{ok, Result-cases}
use pine_vid_backend.Admin.Dashboard.{
  UseCase, SystemDashboardResponse, WorkerStatusResponse, get_dashboard, get_workers_status,
  to_worker_status, worker_stale_after,
}

-- A dashboard that is shown changes nothing, and in its state the list of workers succeeds with as
-- many workers as the dashboard counts.
pub dashboard_counts_workers :
    {W F : Type 0} (u : UseCase W F) (d : SystemDashboardResponse) (w w' : W)
    → get_dashboard u w ≡ (ok d, w')
    → (w' ≡ w)
      × (statuses : List (WorkerStatusResponse F)) × (get_workers_status u w ≡ (ok statuses, w))
      × (d.active_workers ≡ pos (length statuses))
unfolding get_dashboard get_workers_status
dashboard_counts_workers u d w w' shown =
    elim (Result-cases (u.workers.list_active worker_stale_after w)) [
      | inl (workers, listed) ↦ (
        ground arith,
        map to_worker_status workers,
        ground arith,
        ground (arith, length-map workers to_worker_status),
      )
      | inr (inl (x, failed)) ↦ absurd (ground arith)
      | inr (inr failed) ↦ absurd (ground arith)
    ]
