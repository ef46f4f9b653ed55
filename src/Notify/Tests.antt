-- ===== src/Notify/Tests.antt =====
-- The fan-out at concrete followers.
use pine_vid_backend.Prelude.{String, false, ◌≡◌, refl, arith, some, List, [], ◌∷◌, ◌++◌}
use pine_vid_backend.Prelude.Int.{pos}
use pine_vid_backend.Effects.{ok, err, message}
use pine_vid_backend.Entity.Notification.{Notice, type_new_video}
use pine_vid_backend.Entity.User.{User, role_user}
use pine_vid_backend.Notify.{UseCase, FollowRepo, addressed, notify_followers}
use pine_vid_backend.Notify.Fanout.{messages}
use pine_vid_backend.Events.Direct
use pine_vid_backend.Events.Chan.{mem, set_chan}
use pine_vid_backend.Events.Direct.Invariant.{Listens, joined}
use pine_vid_backend.Events.Direct.Delivery.{Reach, start, next, subscribes}
use pine_vid_backend.Notify.Online.{World, real_hub, IsApart, followers_are_reached}

-- The hub with one connection of the user "cat", on channel 0, and no rows.
abbrev connected : World Unit
connected = record { rows = tt; hub = joined "cat" Direct.new_notification_hub }

abbrev person : String → User
person id = record {
  id = id;
  username = id;
  email = "";
  avatar = "";
  password_hash = "";
  role = role_user;
  is_banned = false;
  created_at = 1;
  updated_at = 1;
}

abbrev two : List User
two = person "bob" ∷ person "cat" ∷ []

abbrev follows : FollowRepo (World Unit)
follows = record { list_followers = λ id limit w. ok two }

-- No row can be stored.
abbrev use_case : UseCase (World Unit)
use_case = record {
  repo = record {
    store = λ n w. (err (message "down"), w);
    list_by_user_id = λ user limit offset w. ok ([], 0);
    count_unread = λ user w. ok (pos 0);
    mark_as_read = λ id user w. (ok tt, w);
    mark_all_as_read = λ user w. (ok tt, w);
  };
  follow_repo = some follows;
  notif_hub = some real_hub;
  rfc3339 = λ now. "2026-01-01T00:00:00Z";
}

use_case-IsApart : IsApart use_case
use_case-IsApart = record { hub-store = λ n w. refl; store_ends = λ n w. refl }

connected-Reach : Reach connected.hub
unfolding Direct.subscribe
connected-Reach = next start (subscribes "cat" 0 refl)

connected-Listens : Listens connected.hub "cat" 0
unfolding mem
connected-Listens = refl

abbrev notice : Notice
notice = record {
  sender_id = "ann";
  sender_name = "Ann";
  sender_avatar = "";
  type = type_new_video;
  title = "Ann posted a new video";
  message = "A film";
  target_url = "/watch/v1";
}

followers_are_reached_example :
    (w' : World Unit) × (notify_followers use_case notice (λ round. "n") 7 connected ≡ (ok tt, w'))
    × ((w'.hub.chans 0).buffer ≡ [] ++ addressed notice "cat" "n" 7 ∷ [])
unfolding messages set_chan
followers_are_reached_example =
    followers_are_reached use_case use_case-IsApart "cat" 0 refl notice (λ round. "n") 7 follows two
      connected refl refl connected-Reach connected-Listens (omega arith)
