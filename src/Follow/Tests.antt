-- ===== src/Follow/Tests.antt =====
-- The theorems about following at a concrete store: the pairs that follow.
use pine_vid_backend.Prelude.{
  String, str_eq, ◌&&◌, ap, Bool, true, false, not, ◌≡◌, refl, arith, [], if◌then◌else◌,
}
use pine_vid_backend.Prelude.Int.{pos}
use pine_vid_backend.Effects.{ok}
use pine_vid_backend.Follow.{FollowRepo, FollowToggleResponse, toggle_follow}
use pine_vid_backend.Follow.Toggle.{IsFollowStore, toggle_twice}

-- Who follows whom.
abbrev Pairs : Type 0
Pairs = String → String → Bool

abbrev set_pair : String → String → Bool → Pairs → Pairs
set_pair follower channel b w x y = if str_eq x follower && str_eq y channel then b else w x y

abbrev memory : FollowRepo Pairs
memory = record {
  follow = λ follower channel w. (ok tt, set_pair follower channel true w);
  unfollow = λ follower channel w. (ok tt, set_pair follower channel false w);
  is_following = λ follower channel w. ok (w follower channel);
  count_followers = λ channel w. ok (if w "ann" channel then pos 1 else pos 0);
  list_followed_channels = λ follower page limit w. ok ([], 0);
}

memory-IsFollowStore : IsFollowStore memory
memory-IsFollowStore = record {
  following-follow = λ follower channel a b w w' wrote. ground (arith, ap (λ p. p.1 a b) wrote);
  following-unfollow = λ follower channel a b w w' wrote. ground (arith, ap (λ p. p.1 a b) wrote);
}

abbrev nobody : Pairs
nobody = λ x y. false

abbrev followed : FollowToggleResponse
followed = record { channel_id = "bob"; following = true; followers_count = pos 1 }

abbrev unfollowed : FollowToggleResponse
unfollowed = record { channel_id = "bob"; following = false; followers_count = pos 0 }

abbrev once : Pairs
once = set_pair "ann" "bob" true nobody

abbrev twice : Pairs
twice = set_pair "ann" "bob" false once

toggle_twice_example :
    (false ≡ not true)
    × (memory.is_following "ann" "bob" twice ≡ memory.is_following "ann" "bob" nobody)
unfolding toggle_follow
toggle_twice_example =
    toggle_twice memory memory-IsFollowStore "ann" "bob" "ann" "bob" nobody once twice followed
      unfollowed refl refl
