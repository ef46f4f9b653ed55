-- ===== src/Events.antt =====
-- The event hubs (internal/events): the channels that server-sent events are read from.
pub mod Chan
pub mod Members
pub mod Chat
pub mod Direct
pub mod Forward
pub mod Status
mod Tests
