-- ===== src/Entity.antt =====
-- internal/entity: the records that the layers pass to one another.
pub mod Video
pub mod Livestream
pub mod Notification
pub mod User
