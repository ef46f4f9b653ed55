-- ===== src/Video.antt =====
-- internal/usecase/video/video.go: the life of a video, from upload to deletion, and the feeds.
-- `Deps` has what the use case is built over, `Mapper` the conversions of
-- internal/mapper/video.go; the handlers stand in the modules named for their part.
pub mod Deps
pub mod Store
pub mod Memory
pub mod Mapper
pub mod Upload
pub mod Studio
pub mod Transcode
pub mod Feed
mod Tests
