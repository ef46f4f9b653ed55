-- ===== src/Lib.antt =====
-- The pineVid backend: the Go service behind a site for videos and livestreams.
--
-- Parts and how they interact. HTTP controllers call the use cases (internal/usecase), which read and
-- write rows through repositories (internal/repo), put transcode jobs on a queue (pkg/nats), upload
-- recordings (pkg/minio), ask the streaming server SRS (pkg/srs) which streams it receives, and start
-- goroutines that notify followers. Messages to connected browsers go through hubs of channels
-- (internal/events). Views are counted in Redis and moved to Postgres in batches. A worker reports the end of a transcode through a callback, and
-- SRS reports the start and the end of sessions and recordings through webhooks. This library models
-- use cases, with the mappers (internal/mapper) and the entities (internal/entity) that they use.
--
-- What is where.
-- Prelude: the names shared by all modules; Prelude/Tests Boolean tests on numbers, Prelude/Lists
-- lists measured by native numbers, Prelude/Int integers and their wrap-around at 64 bits,
-- Prelude/Assoc association lists.
-- Effects: the result of a call (a value, an error, or a panic), calls as functions on a state, and
-- the ways Go code passes errors on. What was written before an error stays written.
-- Entity (Video, Livestream, Notification, User): internal/entity and the request and response bodies
-- of internal/controller/restapi/v1. Status and visibility are strings, as in Go. Times are
-- nanoseconds.
-- Page: the page count of the mappers and the window of a ranking, in 64-bit arithmetic, with the
-- panic of a slice expression out of range. Page/Count and Page/Window hold the theorems.
-- Video: internal/usecase/video/video.go and internal/mapper/video.go. Video/Deps are its interfaces,
-- Video/Store and Video/Feed/Visible the laws it relies on, Video/Memory a repository in memory that
-- obeys them. Video/Upload is CreateUpload; Video/Studio is PublishVideo, UpdateVideo,
-- UpdateThumbnail and DeleteVideo; Video/Transcode is ConfirmUpload, RetryTranscode and
-- HandleTranscodeCallback; Video/Feed is GetTrending, GetReelsFeed, the listings, GetByID and
-- RecordView.
-- Livestream: internal/usecase/livestream/livestream.go. Livestream/Session is
-- AuthenticateStreamKey, UnpublishStream, finalizeStreamEnd and HandleDVRComplete over the map of
-- pending ends and the timers; Livestream/Replay is processDVR; Livestream/Duration is dvrDuration;
-- Livestream/Path is filepath.Join; Livestream/Reconcile is ReconcileLiveStreams; Livestream/Schedule
-- interleaves all of these as steps; Livestream/Channel holds the stream key, the info and the
-- listings.
-- Livestream/Chat holds SendChatMessage, BroadcastHeart and HeartStream.
-- Account: internal/usecase/user/user.go, and the bans of users of internal/usecase/admin/admin.go.
-- Account/Gate holds Auth, OptionalAuth and RequireAdmin of internal/controller/restapi/middleware.
-- Admin: the bans of videos and streams of internal/usecase/admin/admin.go; Admin/Dashboard its
-- dashboard, workers and list of users.
-- Follow: internal/usecase/follow/follow.go; Follow/Http and Account/Http are the handlers of
-- internal/controller/restapi/v1/user.go.
-- Comment: internal/usecase/comment/comment.go and internal/mapper/comment.go.
-- Post: internal/usecase/post/post.go and internal/mapper/post.go; Post/Http is
-- internal/controller/restapi/v1/post.go.
-- Collections: internal/usecase/savedvideo, history, like and userpreference.
-- Notify: internal/usecase/notification/notification.go and internal/mapper/notification.go.
-- Events: internal/events. Events/Chan are Go's channels, Events/Members what holds of the channels of
-- a hub; Events/Chat is chat_hub.go, Events/Direct notification_hub.go, Events/Status hub.go with the
-- callback of the worker (transcodeCallback of internal/controller/restapi/v1/video.go); Events/Forward
-- is the goroutine of SubscribeChat and SubscribeNotifications.
-- Views: the view counter of internal/repo (counters in Redis, rows in Postgres) with the batch that
-- moves the counts; Views/Parse is strconv.ParseInt, Views/Pending the scan of the pending counters.
-- Recommend: the feed of internal/usecase/recommendation/recommendation.go.
-- Subtitle: internal/usecase/subtitle; Subtitle/Vtt is vtt_parser.go, Subtitle/Text the functions of
-- the package strings that it calls.
-- Vocabulary: internal/usecase/vocabulary/vocabulary.go; Vocabulary/Lookup is LookupWord.
--
-- How the state and the operations correspond. A method that takes a context and returns a value and
-- an error is a function into `Exec S A`: from a state to a result and a state. Its name is the
-- method's name in lower case with underscores. The state is the world behind the repositories (a
-- parameter), for videos with the goroutines that were started (`Sys`), for livestreams with the
-- pending ends, the timers that are armed, and those that have fired (`Live`). A use case's fields are
-- a record, and one that Go allows to be nil is an Option. The clock, new UUIDs, bcrypt the token
-- manager and float64 are arguments. A call of a hub has an `Outcome`: it returns, panics, or waits
-- for ever for a mutex that a panic has left locked. What a handler does under one hold of the mutex, and the calls up to the
-- next, are one step of Livestream/Schedule, and the database may move between any two steps. The start
-- of a timer and the insertion of its pending end in UnpublishStream are two steps. The other theorems
-- on sessions take each handler as a whole.
--
-- Bounds and fuel. Page numbers, limits and offsets wrap around at 64 bits, and the theorems that need
-- no overflow say so. `decimal` in Livestream/Duration prints 19 digits at most, enough for every
-- int64. The scan loop of GetPendingViews takes fuel, and Views/Pending/Complete shows how much
-- is enough. The hours and minutes of dvrDuration are computed in float64 by Go; the model divides, which
-- agrees below 1024 hours. Everything else recurses on the structure of its data.
--
-- What is not modelled: contexts and their timeouts (a call that times out is an error of the
-- dependency), tracing and logging, HTTP and RPC decoding but for the handlers named above, the
-- validation of bodies, the SQL of most repositories and the other services themselves (the laws take
-- times to be stored as they are, where Postgres keeps microseconds), the training of the
-- recommendation model (floating-point arithmetic with random numbers; the model is a value), and the
-- functions of Go's packages that are parameters: float64 and its parser, JSON, URLs, the lower case
-- of Unicode.
pub mod Account
pub mod Admin
pub mod Collections
pub mod Comment
pub mod Effects
pub mod Entity
pub mod Events
pub mod Follow
pub mod Livestream
pub mod Notify
pub mod Page
pub mod Post
pub mod Prelude
pub mod Recommend
pub mod Subtitle
pub mod Video
pub mod Views
pub mod Vocabulary
