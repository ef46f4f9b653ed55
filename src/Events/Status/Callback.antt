-- ===== src/Events/Status/Callback.antt =====
-- The callback of the transcode worker (transcodeCallback of internal/controller/restapi/v1/video.go),
-- which records the report and tells the clients of the hub.
use pine_vid_backend.Prelude.{
  String, ◌≡◌, ◌≢◌, arith, inl, inr, Option-cases, ℕ, Option, none, some,
}
use pine_vid_backend.Effects.{outcome_cases, ok, err, panic}
use pine_vid_backend.Entity.Video.{Time}
use pine_vid_backend.Video.Deps.{UseCase, Sys}
use pine_vid_backend.Video.Transcode.{handle_transcode_callback}
use pine_vid_backend.Events.Chan.{Outcome, done, panicked, blocked}
use pine_vid_backend.Events.Status.{VideoEvent, Hub, broadcast}

pub record TranscodeCallback : Type 0 where
  pub video_id : String
  pub status : String
  pub hls_master_url : String
  pub error_message : String

-- The status code and the text of a response.
pub record Reply : Type 0 where
  pub code : ℕ
  pub text : String

unfoldable pub event_of : TranscodeCallback → VideoEvent
event_of body = record {
  video_id = body.video_id;
  status = body.status;
  hls_url = body.hls_master_url;
}

abbrev pub updated : Reply
updated = record { code = 200; text = "Transcode status updated successfully" }

-- The response after a broadcast.
abbrev pub told : {W : Type 0} → Sys W → Outcome Hub Unit → Outcome (Sys W × Option Hub) Reply
told s (done _ h) = done updated (s, some h)
told s (panicked h) = panicked (s, some h)
told s blocked = blocked

-- The broadcast, if there is a hub.
unfoldable pub tell :
    {W : Type 0} → VideoEvent → Sys W → Option Hub → Outcome (Sys W × Option Hub) Reply
tell event s none = done updated (s, none)
tell event s (some h) = told s (broadcast event h)

told_code :
    {W : Type 0} (s : Sys W) (o : Outcome Hub Unit) (p : Sys W × Option Hub) (r : Reply)
    → told s o ≡ done r p
    → r.code ≡ 200
told_code s (done a h) p r e = cc
told_code s (panicked h) p r e = cc
told_code s blocked p r e = cc

tell_code :
    {W : Type 0} (event : VideoEvent) (s : Sys W) (hub : Option Hub) (p : Sys W × Option Hub)
    (r : Reply)
    → tell event s hub ≡ done r p
    → r.code ≡ 200
unfolding tell
tell_code event s none p r e = cc
tell_code event s (some h) p r e = told_code s (broadcast event h) p r e

-- `validate` is the validator, which gives the text of an error. The body is none where it cannot be
-- parsed.
module _ {W : Type 0} (u : UseCase W) (validate : TranscodeCallback → Option String) where
  unfoldable pub transcode_callback :
      Option TranscodeCallback → Time → Sys W × Option Hub → Outcome (Sys W × Option Hub) Reply
  transcode_callback none now (s, hub) =
      done (record { code = 400; text = "invalid payload" }) (s, hub)
  transcode_callback (some body) now (s, hub) = elim (validate body) [
    | some text ↦ done (record { code = 400; text = text }) (s, hub)
    | none ↦
        let (r, s') =
          handle_transcode_callback u body.video_id body.status body.hls_master_url now s in
        elim r [
          | ok _ ↦ tell (event_of body) s' hub
          | err _ ↦
              done (record { code = 500; text = "failed to update transcode status" }) (s', hub)
          | panic ↦ panicked (s', hub)
        ]
  ]

  -- A callback that is not answered with status 200, because its body cannot be parsed or is not valid
  -- or the report cannot be recorded, tells no client: the hub is as before.
  pub failed_callback_is_silent :
      (parsed : Option TranscodeCallback) (now : Time) (s s' : Sys W) (hub hub' : Option Hub)
      (r : Reply)
      → transcode_callback parsed now (s, hub) ≡ done r (s', hub')
      → r.code ≢ 200
      → hub' ≡ hub
  unfolding transcode_callback
  failed_callback_is_silent none now s s' hub hub' r answered bad = ground arith
  failed_callback_is_silent (some body) now s s' hub hub' r answered bad =
      elim (Option-cases (validate body)) [
        | inl valid ↦
            let call =
              handle_transcode_callback u body.video_id body.status body.hls_master_url now in
            elim (outcome_cases (call s)) [
              | inl (a, t, e) ↦
                  absurd (bad (tell_code (event_of body) t hub (s', hub') r (ground arith)))
              | inr (inl (x, t, e)) ↦ ground arith
              | inr (inr (t, e)) ↦ absurd (ground arith)
            ]
        | inr (text, invalid) ↦ ground arith
      ]
