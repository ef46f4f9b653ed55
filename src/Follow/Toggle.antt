-- ===== src/Follow/Toggle.antt =====
-- `ToggleFollow` is a switch.
use pine_vid_backend.Prelude.{
  String, str_eq, ◌&&◌, if◌then◌else◌, true, false, not, ◌≡◌, arith, eq_iff, inl, inr,
}
use pine_vid_backend.Effects.{ok, err, cannot_follow_self, Result-cases, outcome_cases}
use pine_vid_backend.Follow.{FollowRepo, FollowToggleResponse, toggle_follow}

-- A successful write shows in the next query, and in no query for another pair.
pub record IsFollowStore {W : Type 0} (r : FollowRepo W) : Type 0 where
  pub following-follow :
      (follower channel a b : String) (w w' : W)
      → r.follow follower channel w ≡ (ok tt, w')
      → r.is_following a b w'
        ≡ (if str_eq a follower && str_eq b channel then ok true else r.is_following a b w)
  pub following-unfollow :
      (follower channel a b : String) (w w' : W)
      → r.unfollow follower channel w ≡ (ok tt, w')
      → r.is_following a b w'
        ≡ (if str_eq a follower && str_eq b channel then ok false else r.is_following a b w)

module _ {W : Type 0} (repo : FollowRepo W) (follower channel : String) where
  -- Nobody follows the own channel: the call is refused before the database is asked.
  pub own_channel_refused :
      (w : W)
      → follower ≡ channel
      → toggle_follow repo follower channel w ≡ (err cannot_follow_self, w)
  unfolding toggle_follow
  own_channel_refused w same = ground (arith, eq_iff follower channel)

module _ {W : Type 0} (repo : FollowRepo W) (laws : IsFollowStore repo)
    (follower channel : String) where
  -- A successful toggle changes whether the follower follows the channel and nothing else about who
  -- follows whom, and reports the new state.
  pub toggled :
      (a b : String) (w w' : W) (r : FollowToggleResponse)
      → toggle_follow repo follower channel w ≡ (ok r, w')
      → (repo.is_following follower channel w ≡ ok (not r.following))
        × (repo.is_following a b w' ≡ (
            if str_eq a follower && str_eq b channel
            then ok r.following
            else repo.is_following a b w))
  unfolding toggle_follow
  toggled a b w w' r done = elim (Result-cases (repo.is_following follower channel w)) [
    | inl (true, asked) ↦ elim (outcome_cases (repo.unfollow follower channel w)) [
      | inl (done', t, wrote) ↦ elim (Result-cases (repo.count_followers channel t)) [
        | inl (n, counted) ↦ ground (arith, laws.following-unfollow follower channel a b w t wrote)
        | inr (inl (x, failed)) ↦ absurd (ground arith)
        | inr (inr failed) ↦ absurd (ground arith)
      ]
      | inr (inl (x, t, failed)) ↦ absurd (ground arith)
      | inr (inr (t, failed)) ↦ absurd (ground arith)
    ]
    | inl (false, asked) ↦ elim (outcome_cases (repo.follow follower channel w)) [
      | inl (done', t, wrote) ↦ elim (Result-cases (repo.count_followers channel t)) [
        | inl (n, counted) ↦ ground (arith, laws.following-follow follower channel a b w t wrote)
        | inr (inl (x, failed)) ↦ absurd (ground arith)
        | inr (inr failed) ↦ absurd (ground arith)
      ]
      | inr (inl (x, t, failed)) ↦ absurd (ground arith)
      | inr (inr (t, failed)) ↦ absurd (ground arith)
    ]
    | inr (inl (x, failed)) ↦ absurd (ground arith)
    | inr (inr failed) ↦ absurd (ground arith)
  ]

  -- Two successful toggles are none, as far as it is asked who follows whom: the second reports what
  -- was so before the first, and after it everybody follows whom they followed before. (The time of
  -- the row, and with it the place in a list, may be new.)
  pub toggle_twice :
      (a b : String) (w w' w'' : W) (r r' : FollowToggleResponse)
      → toggle_follow repo follower channel w ≡ (ok r, w')
      → toggle_follow repo follower channel w' ≡ (ok r', w'')
      → (r'.following ≡ not r.following) × (repo.is_following a b w'' ≡ repo.is_following a b w)
  toggle_twice a b w w' w'' r r' first second =
      let (before, between) = toggled a b w w' r first in
      let (before', between') = toggled follower channel w w' r first in
      let (here, after) = toggled a b w' w'' r' second in
      ground (
        arith,
        before,
        between,
        between',
        here,
        after,
        eq_iff follower follower,
        eq_iff channel channel,
        eq_iff a follower,
        eq_iff b channel,
      )
