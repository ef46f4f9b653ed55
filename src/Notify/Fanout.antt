-- ===== src/Notify/Fanout.antt =====
-- Every follower is served.
use Prim.Native.Nat.{suc}
use pine_vid_backend.Prelude.{
  String, Bool, true, false, ◌≡◌, ◌≢◌, refl, ap, sym, subst, ◌∙◌, arith, eq_iff, str_eq, inl, inr,
  ℕ, some, List, [], ◌∷◌, if◌then◌else◌, Bool-cases,
}
use pine_vid_backend.Prelude.Int.{pos}
use pine_vid_backend.Effects.{then-ok, wrapping, query, ◌>>=◌, Result, ok, ignoring}
use pine_vid_backend.Entity.Video.{Time}
use pine_vid_backend.Entity.Notification.{Notification, Notice}
use pine_vid_backend.Entity.User.{User}
use pine_vid_backend.Notify.{
  push, notify_with, UseCase, FollowRepo, NotificationHub, addressed, notify_one, notify_all,
  notify_followers,
}

-- What one user has been sent so far, `inbox`, and what a further message makes of it, `accept`. In a
-- `Good` state a send returns, adds to the user's messages and to no other's; a store adds to none and
-- does not panic.
pub record IsHub {W I : Type 0} (u : UseCase W) (hub : NotificationHub W) (user : String)
    (Good : W → Type 0) (inbox : W → I) (accept : Notification → I → I) : Type 0 where
  pub send_ends :
      (other : String) (n : Notification) (w : W)
      → Good w
      → hub.send_direct other n w ≡ (ok tt, (hub.send_direct other n w).1)
  pub send-Good :
      (other : String) (n : Notification) (w : W) → Good w → Good (hub.send_direct other n w).1
  pub inbox-send :
      (n : Notification) (w : W) → Good w → inbox (hub.send_direct user n w).1 ≡ accept n (inbox w)
  pub inbox-send_other :
      (other : String) (n : Notification) (w : W)
      → Good w
      → other ≢ user
      → inbox (hub.send_direct other n w).1 ≡ inbox w
  pub store_ends :
      (n : Notification) (w : W) → (ignoring (u.repo.store n) w) ≡ (ok tt, (u.repo.store n w).1)
  pub store-Good : (n : Notification) (w : W) → Good w → Good (u.repo.store n w).1
  pub inbox-store : (n : Notification) (w : W) → inbox (u.repo.store n w).1 ≡ inbox w

-- What messages make of an inbox, in their order.
abbrev pub deliver : {I : Type 0} → (Notification → I → I) → List Notification → I → I
deliver accept [] i = i
deliver accept (n ∷ ns) i = deliver accept ns (accept n i)

-- The messages of a fan-out that are for one user.
unfoldable pub messages : Notice → (ℕ → String) → Time → String → ℕ → List User → List Notification
messages n uuids now user round [] = []
messages n uuids now user round (follower ∷ followers) =
    let rest = messages n uuids now user (suc round) followers in
    if str_eq follower.id user then addressed n user (uuids round) now ∷ rest else rest

deliver-if :
    {I : Type 0} (accept : Notification → I → I) (b : Bool) (n : Notification)
    (ns : List Notification) (i : I)
    → deliver accept ns (if b then accept n i else i) ≡ deliver accept (if b then n ∷ ns else ns) i
deliver-if accept true n ns i = refl
deliver-if accept false n ns i = refl

module _ {W I : Type 0} (u : UseCase W) (hub : NotificationHub W) (user : String)
    (Good : W → Type 0) (inbox : W → I) (accept : Notification → I → I)
    (online : u.notif_hub ≡ some hub) (laws : IsHub u hub user Good inbox accept) (n : Notice)
    (uuids : ℕ → String) (now : Time) where
  -- The world after one round.
  abbrev after_one : String → String → W → W
  after_one follower id w =
      let m = addressed n follower id now in (hub.send_direct follower m (u.repo.store m w).1).1

  notify_one_lem :
      (follower id : String) (w : W)
      → Good w
      → notify_one u n follower id now w ≡ (ok tt, after_one follower id w)
  unfolding notify_one
  notify_one_lem follower id w good =
      let m = addressed n follower id now in
      then-ok (ignoring (u.repo.store m)) (push u u.notif_hub follower m) tt w _
        (laws.store_ends m w)
      ∙ (ap (λ h. push u h follower m (u.repo.store m w).1) online
          ∙ laws.send_ends follower m _ (laws.store-Good m w good))

  after_one-Good : (follower id : String) (w : W) → Good w → Good (after_one follower id w)
  after_one-Good follower id w good =
      let m = addressed n follower id now in laws.send-Good follower m _ (laws.store-Good m w good)

  inbox-after_one :
      (follower id : String) (w : W)
      → Good w
      → inbox (after_one follower id w)
        ≡ (if str_eq follower user then accept (addressed n user id now) (inbox w) else inbox w)
  inbox-after_one follower id w good =
      let m = addressed n follower id now in
      let good' = laws.store-Good m w good in
      let stored = laws.inbox-store m w in
      elim (Bool-cases (str_eq follower user)) [
        | inl same ↦
            let k : follower ≡ user = ground (arith, eq_iff follower user) in
            rw same (
              subst
                (λ f.
                  inbox (hub.send_direct f m (u.repo.store m w).1).1
                  ≡ accept (addressed n user id now) (inbox w))
                (sym k)
                (laws.inbox-send m _ good'
                  ∙ (ap (accept m) stored ∙ ap (λ f. accept (addressed n f id now) (inbox w)) k)))
        | inr other ↦ rw other (
            laws.inbox-send_other follower m _ good' (ground (arith, eq_iff follower user))
            ∙ stored)
      ]

  -- The loop returns, and the user has got the messages.
  notify_all_lem :
      (round : ℕ) (followers : List User) (w : W)
      → Good w
      → (w' : W) × (notify_all u n uuids now round followers w ≡ (ok tt, w'))
        × (inbox w' ≡ deliver accept (messages n uuids now user round followers) (inbox w))
  unfolding notify_all messages
  notify_all_lem round [] w good = (w, refl, refl)
  notify_all_lem round (follower ∷ followers) w good =
      let id = uuids round in
      let w₁ = after_one follower.id id w in
      let (w', ends, got) =
        notify_all_lem (suc round) followers w₁ (after_one-Good follower.id id w good) in
      let later = messages n uuids now user (suc round) followers in
      (
        w',
        then-ok (notify_one u n follower.id id now) (notify_all u n uuids now (suc round) followers)
              tt w w₁ (notify_one_lem follower.id id w good)
            ∙ ends,
        got
            ∙ (ap (deliver accept later) (inbox-after_one follower.id id w good)
                ∙ deliver-if accept (str_eq follower.id user) (addressed n user id now) later
                    (inbox w)),
      )

  read_followers :
      (follows : FollowRepo W) (followers : List User) (w : W)
      → follows.list_followers n.sender_id (pos 1000) w ≡ ok followers
      → wrapping "NotificationUseCase - NotifyFollowers - ListFollowers"
          (query (follows.list_followers n.sender_id (pos 1000)))
          w
        ≡ (ok followers, w)
  read_followers follows followers w listed = rw listed refl

  notify_with_lem :
      (follows : FollowRepo W) (followers : List User) (w : W)
      → follows.list_followers n.sender_id (pos 1000) w ≡ ok followers
      → notify_with u (some follows) n uuids now w ≡ notify_all u n uuids now 0 followers w
  notify_with_lem follows followers w listed =
      ap
        (λ (p : Result (List User) × W).
          ((λ _. p) >>= λ listed. notify_all u n uuids now 0 listed) w)
        (read_followers follows followers w listed)

  -- A fan-out whose list of followers could be read returns, and the user has been sent the messages
  -- for that user, one for each time the user is on the list and in its order, whether or not the rows
  -- could be stored.
  pub notify_followers_lem :
      (follows : FollowRepo W) (followers : List User) (w : W)
      → u.follow_repo ≡ some follows
      → follows.list_followers n.sender_id (pos 1000) w ≡ ok followers
      → Good w
      → (w' : W) × (notify_followers u n uuids now w ≡ (ok tt, w'))
        × (inbox w' ≡ deliver accept (messages n uuids now user 0 followers) (inbox w))
  unfolding notify_followers
  notify_followers_lem follows followers w on listed good =
      let (w', ends, got) = notify_all_lem 0 followers w good in
      (
        w',
        ap (λ h. notify_with u h n uuids now w) on
            ∙ (notify_with_lem follows followers w listed ∙ ends),
        got,
      )
