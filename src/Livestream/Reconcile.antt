-- ===== src/Livestream/Reconcile.antt =====
-- `ReconcileLiveStreams` (internal/usecase/livestream/livestream.go): rows that are live in the
-- database while SRS receives nothing for them go offline.
pub mod Spares
use pine_vid_backend.Prelude.{
  String, Bool, Option, none, some, List, [], ◌∷◌, is_some, if◌then◌else◌,
}
use pine_vid_backend.Prelude.Int.{ℤ, pos}
use pine_vid_backend.Effects.{Exec, pure, wrapping, ignoring, ◌>>=◌, ◌>>◌}
use pine_vid_backend.Entity.Video.{Time}
use pine_vid_backend.Entity.Livestream.{Livestream}
use pine_vid_backend.Video.Deps.{call, ask}
use pine_vid_backend.Livestream.Deps.{UseCase, SrsClient, Live, lookup, outside}
use pine_vid_backend.Livestream.Session.{went_offline}

abbrev pub reconcile_scan_limit : ℤ
reconcile_scan_limit = pos 1000

module _ {W : Type 0} (u : UseCase W) where
  -- One round of the loop.
  unfoldable pub reconcile_row : (String → Bool) → Time → Livestream → Exec (Live W) Unit
  reconcile_row active now ls s =
      if active ls.stream_key
      then (pure tt s)
      else if is_some (lookup ls.stream_key s.pending)
      then (pure tt s)
      else (outside (ignoring (call (u.repo.update (went_offline ls now)))) s)

  unfoldable pub reconcile_rows : (String → Bool) → Time → List Livestream → Exec (Live W) Unit
  reconcile_rows active now [] = pure tt
  reconcile_rows active now (ls ∷ rows) = do
    reconcile_row active now ls
    reconcile_rows active now rows

  -- The scan for the rows that are live.
  unfoldable pub reconcile_listed : (String → Bool) → Time → Exec (Live W) Unit
  reconcile_listed active now = do
    found ←
        wrapping "LivestreamUseCase - ReconcileLiveStreams - ListActive"
          (outside (ask (u.repo.list_active "" reconcile_scan_limit (pos 0))))
    reconcile_rows active now found.0

  unfoldable pub reconcile_with : Option (SrsClient W) → Time → Exec (Live W) Unit
  reconcile_with none now = pure tt
  reconcile_with (some srs) now = do
    active ←
        wrapping "LivestreamUseCase - ReconcileLiveStreams - ActiveStreamKeys"
          (outside (ask srs.active_stream_keys))
    reconcile_listed active now

  unfoldable pub reconcile_live_streams : Time → Exec (Live W) Unit
  unfolding reconcile_with
  reconcile_live_streams now = reconcile_with u.srs_client now
