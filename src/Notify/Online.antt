-- ===== src/Notify/Online.antt =====
-- The fan-out over the hub of internal/events/notification_hub.go: what arrives in the channel of a
-- follower who is connected.
use pine_vid_backend.Prelude.{
  String, ◌≡◌, refl, ap, subst, if◌then◌else◌, ◌≤◌, ◌+◌, arith, ◌∙◌, sym, false, ℕ, some, List, [],
  ◌∷◌, ◌++◌, append_assoc, append-nil, length, length-append, Bool-cases, inl, inr,
}
use pine_vid_backend.Prelude.Int.{pos}
use pine_vid_backend.Effects.{ok, ignoring}
use pine_vid_backend.Entity.Video.{Time}
use pine_vid_backend.Entity.Notification.{Notification, Notice}
use pine_vid_backend.Entity.User.{User}
use pine_vid_backend.Events.Chan.{Chan, mem, offer, capacity-offer}
use pine_vid_backend.Events.Members.{each_member}
use pine_vid_backend.Events.Direct
use pine_vid_backend.Events.Direct.{subs}
use pine_vid_backend.Events.Direct.Invariant.{
  Listens, IsValid, sent, sent-IsValid, send_direct_returns,
}
use pine_vid_backend.Events.Direct.Delivery.{Reach, Reach-IsValid}
use pine_vid_backend.Notify.{UseCase, FollowRepo, NotificationHub, notify_followers}
use pine_vid_backend.Notify.Fanout.{IsHub, deliver, messages, notify_followers_lem}

-- The world of the use case: the stores, and the hub.
pub record World (R : Type 0) : Type 0 where
  pub rows : R
  pub hub : Direct.NotificationHub

-- The hub as the use case calls it.
unfoldable pub real_hub : {R : Type 0} → NotificationHub (World R)
real_hub = record {
  send_direct =
      λ user n w. let (r, h) = Direct.send_direct user n w.hub in (r, record w { hub = h });
}

-- The database does not touch the hub, and a store does not panic.
pub record IsApart {R : Type 0} (u : UseCase (World R)) : Type 0 where
  pub hub-store : (n : Notification) (w : World R) → (u.repo.store n w).1.hub ≡ w.hub
  pub store_ends :
      (n : Notification) (w : World R) → ignoring (u.repo.store n) w ≡ (ok tt, (u.repo.store n w).1)

-- Messages that fit are all taken, in their order.
pub buffer-deliver :
    (ns : List Notification) (c : Chan Notification)
    → length c.buffer + length ns ≤ c.capacity
    → (deliver offer ns c).buffer ≡ c.buffer ++ ns
unfolding offer
buffer-deliver [] c fits = sym (append-nil c.buffer)
buffer-deliver (n ∷ ns) c fits =
    let here : (offer n c).buffer ≡ c.buffer ++ n ∷ [] = ground arith in
    buffer-deliver ns (offer n c)
      (omega (arith, ap length here, length-append c.buffer (n ∷ []), capacity-offer n c))
    ∙ (ap (λ xs. xs ++ ns) here ∙ append_assoc c.buffer (n ∷ []) ns)

module _ {R : Type 0} (u : UseCase (World R)) (apart : IsApart u) (user : String) (c : ℕ) where
  -- The hub is valid, and the user reads from the channel.
  abbrev Good : World R → Type 0
  Good w = IsValid w.hub × Listens w.hub user c

  state-send :
      (other : String) (n : Notification) (w : World R)
      → IsValid w.hub
      → real_hub.send_direct other n w ≡ (ok tt, record w { hub = sent other n w.hub })
  unfolding real_hub
  state-send other n w v = ap (λ p. (p.0, record w { hub = p.1 })) (send_direct_returns v other n)

  hub-send :
      (other : String) (n : Notification) (w : World R)
      → IsValid w.hub
      → (real_hub.send_direct other n w).1.hub ≡ sent other n w.hub
  hub-send other n w v = ap (λ p. p.1.hub) (state-send other n w v)

  chans-send :
      (other : String) (n : Notification) (w : World R)
      → IsValid w.hub
      → (real_hub.send_direct other n w).1.hub.chans c
        ≡ (if mem c (subs w.hub other) then offer n (w.hub.chans c) else w.hub.chans c)
  chans-send other n w v =
      ap (λ h. h.chans c) (hub-send other n w v) ∙ each_member v.channels other (offer n) c

  real_hub-IsHub : IsHub u real_hub user Good (λ w. w.hub.chans c) offer
  real_hub-IsHub = record {
    send_ends = λ other n w good.
        state-send other n w good.0
        ∙ ap (λ (w' : World R). (ok tt, w')) (sym (ap (λ p. p.1) (state-send other n w good.0)));
    send-Good = λ other n w good.
        subst (λ h. IsValid h × Listens h user c) (sym (hub-send other n w good.0))
          (sent-IsValid good.0 other n, good.1);
    inbox-send = λ n w good. rw (chans-send user n w good.0, good.1) refl;
    inbox-send_other = λ other n w good differs.
        let elsewhere : mem c (subs w.hub other) ≡ false =
          elim (Bool-cases (mem c (subs w.hub other))) [
            | inl listens ↦ absurd (differs (good.0.channels.one_key other user c listens good.1))
            | inr not_in ↦ not_in
          ] in
        rw (chans-send other n w good.0, elsewhere) refl;
    store_ends = apart.store_ends;
    store-Good =
        λ n w good. subst (λ h. IsValid h × Listens h user c) (sym (apart.hub-store n w)) good;
    inbox-store = λ n w. ap (λ h. h.chans c) (apart.hub-store n w);
  }

  module _ (online : u.notif_hub ≡ some real_hub) (n : Notice) (uuids : ℕ → String) (now : Time)
      (follows : FollowRepo (World R)) (followers : List User) (w : World R)
      (on : u.follow_repo ≡ some follows)
      (listed : follows.list_followers n.sender_id (pos 1000) w ≡ ok followers) where
    -- A fan-out whose list of followers could be read returns, also where the rows could not be stored.
    -- A channel that a user reads from, and that has room for all of the user's messages, then holds
    -- them after those that it held: one for each time the user is on the list.
    pub followers_are_reached :
        Reach w.hub
        → Listens w.hub user c
        → length (w.hub.chans c).buffer + length (messages n uuids now user 0 followers) ≤ 16
        → (w' : World R) × (notify_followers u n uuids now w ≡ (ok tt, w'))
          × ((w'.hub.chans c).buffer
              ≡ (w.hub.chans c).buffer ++ messages n uuids now user 0 followers)
    followers_are_reached r listens fits =
        let v = Reach-IsValid r in
        let (w', ends, got) =
          notify_followers_lem u real_hub user Good (λ w. w.hub.chans c) offer online real_hub-IsHub
            n uuids now follows followers w on listed (v, listens) in
        (
          w',
          ends,
          ap (λ ch. ch.buffer) got
              ∙ buffer-deliver (messages n uuids now user 0 followers) (w.hub.chans c)
                  (omega (arith, v.channels.sized c)),
        )
