-- ===== src/Livestream.antt =====
-- Livestreams (internal/usecase/livestream/livestream.go).
pub mod Deps
pub mod Store
pub mod Mapper
mod Tests
pub mod Memory
pub mod Duration
pub mod Path
pub mod Pending
pub mod Replay
pub mod Session
pub mod Reconcile
pub mod Schedule
pub mod Chat
pub mod Channel
