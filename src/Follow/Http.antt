-- ===== src/Follow/Http.antt =====
-- The handlers of channels (internal/controller/restapi/v1/user.go).
use pine_vid_backend.Prelude.{
  String, Bool, false, ℕ, Option, none, some, List, [], ◌∷◌, str_eq, if◌then◌else◌,
}
use pine_vid_backend.Prelude.Int.{ℤ, pos, ◌+ℤ◌, wrap64, ltb_ℤ}
use pine_vid_backend.Effects.{Error, Exec, ok, err, panic, pure, cannot_follow_self, ◌>>=◌}
use pine_vid_backend.Entity.Video.{Time, VideoResponse}
use pine_vid_backend.Entity.User.{User}
use pine_vid_backend.Page.{PageResponse}
use pine_vid_backend.Video.Deps
use pine_vid_backend.Video.Feed.{list_public_videos}
use pine_vid_backend.Account
use pine_vid_backend.Account.{get_user}
use pine_vid_backend.Account.Http.{Answer, answered, refused, answer, cause, error_text}
use pine_vid_backend.Follow.{
  FollowRepo, FollowToggleResponse, ChannelSummary, toggle_follow, count_followers, is_following,
  list_followed_channels,
}

pub record ChannelDetailsResponse : Type 0 where
  pub id : String
  pub username : String
  pub email : String
  pub avatar : String
  pub bio : String
  pub subscribers_count : ℤ
  pub is_following : Bool
  pub total_videos : ℕ
  pub total_views : ℤ
  pub created_at : String

-- The sum of an int64 over the listed videos.
unfoldable pub sum_views : ℤ → List VideoResponse → ℤ
sum_views acc [] = acc
sum_views acc (v ∷ vs) = sum_views (wrap64 (acc +ℤ v.views)) vs

-- An error leaves the zero value, a panic is passed on.
abbrev pub or_zero : {S A : Type 0} → A → Exec S A → Exec S A
or_zero zero_value m s =
    let (r, s') = m s in
    elim r [ ok a ↦ (ok a, s') | err _ ↦ (ok zero_value, s') | panic ↦ (panic, s') ]

-- What the listing of the channel's videos counts.
abbrev pub counted : PageResponse VideoResponse → ℕ × ℤ
counted page = (page.pagination.total_items, sum_views (pos 0) page.data_items)

module _ {W : Type 0} (users : Account.UseCase W) (videos : Deps.UseCase W) (follows : FollowRepo W)
    (format_time : Time → String) where
  unfoldable pub count_videos : String → Exec W (ℕ × ℤ)
  count_videos user_id w =
      let (r, w') = list_public_videos videos user_id "" "" (pos 1) (pos 100) w in
      elim r [
        | ok page ↦ (ok (counted page), w')
        | err _ ↦ (ok (0, pos 0), w')
        | panic ↦ (panic, w')
      ]

  -- The details of a user; `viewer` is empty for a request without a user.
  unfoldable pub details_of : String → User → Exec W (Answer ChannelDetailsResponse)
  details_of viewer user = do
    (total, views) ← count_videos user.id
    subscribers ← or_zero (pos 0) (count_followers follows user.id)
    following ← or_zero false (is_following follows viewer user.id)
    pure (
        answered 200 (record {
          id = user.id;
          username = user.username;
          email = user.email;
          avatar = user.avatar;
          bio = "Verified Content Creator on PipeVid Platform.";
          subscribers_count = subscribers;
          is_following = following;
          total_videos = total;
          total_views = views;
          created_at = format_time user.created_at;
        }))

  unfoldable pub get_channel_details : String → String → Exec W (Answer ChannelDetailsResponse)
  get_channel_details identifier viewer w =
      let (r, w') = get_user users identifier w in
      if str_eq identifier "" then (ok (refused 400 "channel identifier required"), w) else elim r [
        | ok user ↦ details_of viewer user w'
        | err _ ↦ (ok (refused 404 "channel not found"), w')
        | panic ↦ (panic, w')
      ]

module _ {W : Type 0} (follows : FollowRepo W) where
  abbrev pub toggle_refusal : {A : Type 0} → Error → Error → Answer A
  toggle_refusal cannot_follow_self e = refused 400 (error_text e)
  toggle_refusal _ e = refused 500 "failed to toggle follow"

  unfoldable pub toggle_follow_channel :
      Option String → String → Exec W (Answer FollowToggleResponse)
  toggle_follow_channel none channel_id = pure (refused 401 "unauthorized")
  toggle_follow_channel (some follower_id) channel_id =
      if str_eq follower_id ""
      then pure (refused 401 "unauthorized")
      else answer (answered 200) (λ e. toggle_refusal (cause e) e)
          (toggle_follow follows follower_id channel_id)

  -- `page` and `limit` are the numbers of the query, 1 and 10 where it has none.
  unfoldable pub followed_channels :
      Option String → ℤ → ℤ → Exec W (Answer (PageResponse ChannelSummary))
  followed_channels none page limit = pure (refused 401 "unauthorized")
  followed_channels (some follower_id) page limit =
      if str_eq follower_id ""
      then pure (refused 401 "unauthorized")
      else answer (answered 200) (λ _. refused 500 "failed to list followed channels")
          (list_followed_channels follows follower_id page
            (if ltb_ℤ (pos 50) limit then pos 50 else limit))
