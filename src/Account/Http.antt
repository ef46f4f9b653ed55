-- ===== src/Account/Http.antt =====
-- The handlers of accounts (internal/controller/restapi/v1/user.go): the status and the text of each
-- response. The body is none where the parser refuses it; the validator is a parameter, and so is the
-- layout of a time.
pub mod Login
use pine_vid_backend.Prelude.{String, Bool, ℕ, Option, none, some, ◌<>◌, if◌then◌else◌}
use pine_vid_backend.Effects.{
  Error, Exec, ok, err, panic, pure, user_not_found, user_already_exists, invalid_credentials,
  user_banned, cannot_follow_self, invalid_transition, video_not_found, unsupported_video_format,
  video_forbidden, video_not_failed, livestream_not_found, invalid_stream_key, comment_not_found,
  invalid_parent_id, post_not_found, post_forbidden, message, wrap, ◌>>=◌,
}
use pine_vid_backend.Entity.Video.{Time}
use pine_vid_backend.Entity.User.{User, Token}
use pine_vid_backend.Admin.Dashboard.{UserResponse, to_user_response}
use pine_vid_backend.Account.{UseCase, register, login, refresh_token, get_user, update_user}

pub record Register : Type 0 where
  pub username : String
  pub email : String
  pub password : String

pub record Credentials : Type 0 where
  pub email : String
  pub password : String

pub record RefreshToken : Type 0 where
  pub refresh_token : String

pub record UpdateProfile : Type 0 where
  pub username : String
  pub email : String
  pub avatar : String

-- A response with a body, or `errorResponse`.
pub data Answer (A : Type 0) : Type 0 where
  answered : ℕ → A → Answer A
  refused : ℕ → String → Answer A

-- The error behind the wraps, which `errors.Is` compares.
unfoldable pub cause : Error → Error
cause (wrap text e) = cause e
cause e = e

-- `err.Error()`
unfoldable pub error_text : Error → String
error_text user_not_found = "user not found"
error_text user_already_exists = "user already exists"
error_text invalid_credentials = "invalid credentials"
error_text user_banned = "this account has been banned"
error_text cannot_follow_self = "cannot follow your own channel"
error_text invalid_transition = "invalid status transition"
error_text video_not_found = "video not found"
error_text unsupported_video_format = "unsupported video format: only .mp4, .mov, .mkv are allowed"
error_text video_forbidden = "you do not have permission to modify this video"
error_text video_not_failed = "video transcode has not failed, nothing to retry"
error_text livestream_not_found = "livestream not found"
error_text invalid_stream_key = "invalid stream key"
error_text comment_not_found = "comment not found"
error_text invalid_parent_id = "parent comment does not exist or belongs to a different video"
error_text post_not_found = "post not found"
error_text post_forbidden = "you do not have permission to modify this post"
error_text (message text) = text
error_text (wrap text e) = text <> (": " <> error_text e)

module _ {A : Type 0} where
  abbrev pub internal : Answer A
  internal = refused 500 "internal server error"

  -- The refusals by the cause of an error; the second argument is the error's text.
  abbrev pub register_refusal : Error → Answer A
  register_refusal user_already_exists = refused 409 "user already exists"
  register_refusal _ = internal

  abbrev pub login_refusal : String → Error → String → Answer A
  login_refusal credentials invalid_credentials text = refused 401 credentials
  login_refusal credentials user_banned text = refused 403 text
  login_refusal credentials _ text = internal

  abbrev pub profile_refusal : Error → Answer A
  profile_refusal user_not_found = refused 404 "user not found"
  profile_refusal _ = internal

  -- A handler answers each error of its use case.
  abbrev pub answer :
      {S B : Type 0} → (B → Answer A) → (Error → Answer A) → Exec S B → Exec S (Answer A)
  answer good bad m s =
      let (r, s') = m s in
      elim r [ ok b ↦ (ok (good b), s') | err e ↦ (ok (bad e), s') | panic ↦ (panic, s') ]

  -- A body that is parsed and valid, or status 400.
  abbrev pub with_body :
      {S B : Type 0} → (B → Bool) → Option B → (B → Exec S (Answer A)) → Exec S (Answer A)
  with_body valid none handler = pure (refused 400 "invalid request body")
  with_body valid (some body) handler =
      if valid body then handler body else pure (refused 400 "invalid request body")

  -- The user that a middleware has left in the request.
  abbrev pub with_user :
      {S : Type 0} → Option String → (String → Exec S (Answer A)) → Exec S (Answer A)
  with_user none handler = pure (refused 401 "unauthorized")
  with_user (some user_id) handler = handler user_id

module _ {W : Type 0} (u : UseCase W) where
  unfoldable pub register_handler :
      (Register → Bool) → Option Register → String → Time → Exec W (Answer User)
  register_handler valid parsed id now = with_body valid parsed λ body.
      answer (answered 201) (λ e. register_refusal (cause e))
        (register u body.username body.email body.password id now)

  unfoldable pub login_handler :
      (Credentials → Bool) → Option Credentials → Time → Exec W (Answer Token)
  login_handler valid parsed now = with_body valid parsed λ body.
      answer (λ token. answered 200 (record { token = token }))
        (λ e. login_refusal "invalid credentials" (cause e) (error_text e))
        (login u body.email body.password now)

  unfoldable pub refresh_handler :
      (RefreshToken → Bool) → Option RefreshToken → Time → Exec W (Answer Token)
  refresh_handler valid parsed now = with_body valid parsed λ body.
      answer (answered 200) (λ e. login_refusal "invalid refresh token" (cause e) (error_text e))
        (refresh_token u body.refresh_token now)

  unfoldable pub profile_handler : (Time → String) → Option String → Exec W (Answer UserResponse)
  profile_handler format_time user = with_user user λ user_id.
      answer (λ v. answered 200 (to_user_response format_time v)) (λ e. profile_refusal (cause e))
        (get_user u user_id)

  -- The body of an update is parsed and not validated.
  unfoldable pub update_profile_handler :
      (Time → String) → Option String → Option UpdateProfile → Time → Exec W (Answer UserResponse)
  update_profile_handler format_time user parsed now = with_user user λ user_id.
      with_body (λ _. Bool.true) parsed
        λ body.
          answer (λ v. answered 200 (to_user_response format_time v))
            (λ e. profile_refusal (cause e))
            (update_user u user_id body.username body.email body.avatar now)
