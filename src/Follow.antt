-- ===== src/Follow.antt =====
-- Following a channel (internal/usecase/follow/follow.go).
pub mod Toggle
pub mod Http
mod Tests
use pine_vid_backend.Prelude.{String, Bool, false, not, ℕ, List, map, str_eq, if◌then◌else◌}
use pine_vid_backend.Prelude.Int.{ℤ}
use pine_vid_backend.Effects.{
  Result, Exec, pure, guard, query, wrapping, ◌>>=◌, ◌>>◌, cannot_follow_self,
}
use pine_vid_backend.Entity.User.{User}
use pine_vid_backend.Page.{PageResponse, to_page_response}

pub record FollowRepo (W : Type 0) : Type 0 where
  pub follow : String → String → Exec W Unit
  pub unfollow : String → String → Exec W Unit
  pub is_following : String → String → W → Result Bool
  pub count_followers : String → W → Result ℤ
  pub list_followed_channels : String → ℤ → ℤ → W → Result (List User × ℕ)

pub record FollowToggleResponse : Type 0 where
  pub channel_id : String
  pub following : Bool
  pub followers_count : ℤ

pub record ChannelSummary : Type 0 where
  pub id : String
  pub username : String
  pub avatar : String

unfoldable pub to_channel_summary : User → ChannelSummary
to_channel_summary c = record { id = c.id; username = c.username; avatar = c.avatar }

module _ {W : Type 0} (repo : FollowRepo W) where
  -- The write of `ToggleFollow`.
  abbrev pub switch : Bool → String → String → Exec W Unit
  switch following follower_id channel_id =
      if following
      then wrapping "FollowUseCase - ToggleFollow - Unfollow" (repo.unfollow follower_id channel_id)
      else wrapping "FollowUseCase - ToggleFollow - Follow" (repo.follow follower_id channel_id)

  unfoldable pub toggle_follow : String → String → Exec W FollowToggleResponse
  toggle_follow follower_id channel_id = do
    guard (not (str_eq follower_id channel_id)) cannot_follow_self
    following ←
        wrapping "FollowUseCase - ToggleFollow - IsFollowing"
          (query (repo.is_following follower_id channel_id))
    switch following follower_id channel_id
    count ←
        wrapping "FollowUseCase - ToggleFollow - CountFollowers"
          (query (repo.count_followers channel_id))
    pure (record { channel_id = channel_id; following = not following; followers_count = count })

  unfoldable pub count_followers : String → Exec W ℤ
  count_followers channel_id = query (repo.count_followers channel_id)

  unfoldable pub is_following : String → String → Exec W Bool
  is_following follower_id channel_id =
      if str_eq follower_id "" then pure false else query (repo.is_following follower_id channel_id)

  unfoldable pub list_followed_channels : String → ℤ → ℤ → Exec W (PageResponse ChannelSummary)
  list_followed_channels follower_id page limit = do
    found ←
        wrapping "FollowUseCase - ListFollowedChannels"
          (query (repo.list_followed_channels follower_id page limit))
    pure (to_page_response (map to_channel_summary found.0) found.1 page limit)
