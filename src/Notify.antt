-- ===== src/Notify.antt =====
-- Notifications (internal/usecase/notification/notification.go, internal/mapper/notification.go): the
-- fan-out to the followers of a user, and a user's own list. The
-- subscriptions of the hub are in Events.
pub mod Fanout
pub mod Online
mod Tests
use Prim.Native.Nat.{zero, suc}
use pine_vid_backend.Prelude.{String, Bool, false, ℕ, Option, none, some, List, [], ◌∷◌, map}
use pine_vid_backend.Prelude.Int.{ℤ, pos}
use pine_vid_backend.Effects.{Result, Exec, pure, query, wrapping, ignoring, ok_or, ◌>>=◌, ◌>>◌}
use pine_vid_backend.Entity.Video.{Time}
use pine_vid_backend.Entity.Notification.{Notification, Notice}
use pine_vid_backend.Entity.User.{User}
use pine_vid_backend.Page.{PaginationMeta, PageResponse, page_offset, to_page_response}

pub record NotificationRepo (W : Type 0) : Type 0 where
  pub store : Notification → Exec W Unit
  pub list_by_user_id : String → ℤ → ℤ → W → Result (List Notification × ℕ)
  pub count_unread : String → W → Result ℤ
  pub mark_as_read : String → String → Exec W Unit
  pub mark_all_as_read : String → Exec W Unit

-- The part of `FollowRepo` that the use case calls.
pub record FollowRepo (W : Type 0) : Type 0 where
  pub list_followers : String → ℤ → W → Result (List User)

-- The part of `NotificationHub` that the fan-out calls: a send does not wait for the readers.
pub record NotificationHub (W : Type 0) : Type 0 where
  pub send_direct : String → Notification → Exec W Unit

-- `rfc3339` is `Format(time.RFC3339)`.
pub record UseCase (W : Type 0) : Type 0 where
  pub repo : NotificationRepo W
  pub follow_repo : Option (FollowRepo W)
  pub notif_hub : Option (NotificationHub W)
  pub rfc3339 : Time → String

pub record NotificationSender : Type 0 where
  pub id : String
  pub name : String
  pub avatar : String

pub record NotificationResponse : Type 0 where
  pub id : String
  pub user_id : String
  pub sender : NotificationSender
  pub type : String
  pub title : String
  pub message : String
  pub target_url : String
  pub is_read : Bool
  pub created_at : String

pub record NotificationListResponse : Type 0 where
  pub page_response : PageResponse NotificationResponse
  pub unread_count : ℤ

-- The notification of one follower.
unfoldable pub addressed : Notice → String → String → Time → Notification
addressed n follower_id id now = record {
  id = id;
  user_id = follower_id;
  sender_id = n.sender_id;
  sender_name = n.sender_name;
  sender_avatar = n.sender_avatar;
  type = n.type;
  title = n.title;
  message = n.message;
  target_url = n.target_url;
  is_read = false;
  created_at = now;
}

unfoldable pub to_notification_response : (Time → String) → Notification → NotificationResponse
to_notification_response rfc3339 n = record {
  id = n.id;
  user_id = n.user_id;
  sender = record { id = n.sender_id; name = n.sender_name; avatar = n.sender_avatar };
  type = n.type;
  title = n.title;
  message = n.message;
  target_url = n.target_url;
  is_read = n.is_read;
  created_at = rfc3339 n.created_at;
}

module _ {W : Type 0} (u : UseCase W) where
  abbrev pub push : Option (NotificationHub W) → String → Notification → Exec W Unit
  push none follower_id n w = pure tt w
  push (some hub) follower_id n w = hub.send_direct follower_id n w

  -- One round of the loop. A failed `Store` is dropped; `uuids` are the UUIDs of the rounds.
  unfoldable pub notify_one : Notice → String → String → Time → Exec W Unit
  notify_one n follower_id id now = do
    ignoring (u.repo.store (addressed n follower_id id now))
    push u.notif_hub follower_id (addressed n follower_id id now)

  unfoldable pub notify_all : Notice → (ℕ → String) → Time → ℕ → List User → Exec W Unit
  notify_all n uuids now round [] = pure tt
  notify_all n uuids now round (follower ∷ followers) = do
    notify_one n follower.id (uuids round) now
    notify_all n uuids now (suc round) followers

  abbrev pub notify_with : Option (FollowRepo W) → Notice → (ℕ → String) → Time → Exec W Unit
  notify_with none n uuids now w = pure tt w
  notify_with (some follows) n uuids now w =
      (do
        followers ←
            wrapping "NotificationUseCase - NotifyFollowers - ListFollowers"
              (query (follows.list_followers n.sender_id (pos 1000)))
        notify_all n uuids now zero followers)
        w

  unfoldable pub notify_followers : Notice → (ℕ → String) → Time → Exec W Unit
  notify_followers n uuids now = notify_with u.follow_repo n uuids now

  unfoldable pub list_notifications : String → ℤ → ℤ → Exec W NotificationListResponse
  list_notifications user_id page limit w =
      (do
        found ←
            wrapping "NotificationUseCase - ListNotifications"
              (query (u.repo.list_by_user_id user_id limit (page_offset page limit)))
        pure (record {
          page_response =
              to_page_response (map (to_notification_response u.rfc3339) found.0) found.1 page
                limit;
          unread_count = ok_or (pos 0) (u.repo.count_unread user_id w);
        }))
        w

  unfoldable pub mark_as_read : String → String → Exec W Unit
  mark_as_read id user_id =
      wrapping "NotificationUseCase - MarkAsRead" (u.repo.mark_as_read id user_id)

  unfoldable pub mark_all_as_read : String → Exec W Unit
  mark_all_as_read user_id =
      wrapping "NotificationUseCase - MarkAllAsRead" (u.repo.mark_all_as_read user_id)
