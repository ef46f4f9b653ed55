-- ===== src/Events/Direct/Invariant.antt =====
-- What holds of the notification hub between calls, and that no call panics.
use Prim.Native.Nat.{suc}
use pine_vid_backend.Prelude.{
  String, true, false, not, ◌&&◌, ◌||◌, ◌≡◌, ◌≢◌, refl, ap, arith, fun_ext, eq_iff, ◌==◌, ==_iff,
  str_eq, ℕ, Option, none, some, List, [], ◌∷◌, ◌++◌, if◌then◌else◌,
}
use pine_vid_backend.Entity.Notification.{Notification}
use pine_vid_backend.Effects.{ok}
use pine_vid_backend.Events.Chan.{
  Chan, make, mem, Distinct, each, offer, set_chan, close, Fits, offer-Fits, closed-offer,
  capacity-offer, receive, set_key,
}
use pine_vid_backend.Events.Members
use pine_vid_backend.Events.Members.{mem-next, each_member}
use pine_vid_backend.Events.Direct.{
  NotificationHub, new_notification_hub, subs, remove_first, kept, unsubscribe, send_each,
  send_direct,
}

abbrev pub Listens : NotificationHub → String → ℕ → Type 0
Listens h user c = mem c (subs h user) ≡ true

pub record IsValid (h : NotificationHub) : Type 0 where
  -- A user without channels is not in the map.
  pub occupied : (user : String) → h.subscribers user ≢ some []
  -- The channels of the users are open, each belongs to one user once, and no buffer holds more than
  -- 16 notifications.
  pub channels : Members.IsValid 16 (subs h) h.chans h.next

pub new_notification_hub-IsValid : IsValid new_notification_hub
unfolding mem
new_notification_hub-IsValid = record {
  occupied = λ user. cc;
  channels = record {
    allocated = λ user c listens. cc;
    opened = λ user c listens. refl;
    one_key = λ user other c listens listens'. cc;
    distinct = λ user. tt;
    sized = λ c. refl;
    fitting = λ c. omega arith;
  };
}

mem-append_one : (c d : ℕ) (xs : List ℕ) → mem d (xs ++ c ∷ []) ≡ (c == d || mem d xs)
unfolding mem
mem-append_one c d [] = refl
mem-append_one c d (x ∷ xs) = ground (arith, mem-append_one c d xs)

append_one-Distinct :
    (c : ℕ) (xs : List ℕ) → Distinct xs → mem c xs ≡ false → Distinct (xs ++ c ∷ [])
unfolding mem
append_one-Distinct c [] h fresh = (refl, tt)
append_one-Distinct c (x ∷ xs) h fresh = (
  ground (arith, mem-append_one c x xs, ==_iff c x, ==_iff x c),
  append_one-Distinct c xs h.1 (ground arith),
)

append-ne-nil : (c : ℕ) (xs : List ℕ) → xs ++ c ∷ [] ≢ []
append-ne-nil c [] = cc
append-ne-nil c (x ∷ xs) = cc

-- Where no channel stands twice, all its entries are removed.
pub mem-remove_first :
    (c d : ℕ) (xs : List ℕ) → Distinct xs → mem d (remove_first c xs) ≡ (not (d == c) && mem d xs)
unfolding mem remove_first
mem-remove_first c d [] h = ground arith
mem-remove_first c d (x ∷ xs) h =
    ground (arith, mem-remove_first c d xs h.1, ==_iff x c, ==_iff x d, ==_iff d c)

remove_first-Distinct : (c : ℕ) (xs : List ℕ) → Distinct xs → Distinct (remove_first c xs)
unfolding remove_first
remove_first-Distinct c [] h = tt
remove_first-Distinct c (x ∷ xs) h =
    ground (arith, remove_first-Distinct c xs h.1, mem-remove_first c x xs h.1)

-- Over open channels the loop of `SendDirect` ends, and it offers the notification to each channel.
send_each_lem :
    (n : Notification) (cs : List ℕ) (chans : ℕ → Chan Notification)
    → ((c : ℕ) → mem c cs ≡ true → (chans c).closed ≡ false)
    → send_each n cs chans ≡ (ok tt, (each (offer n) cs chans))
unfolding send_each each mem set_chan
send_each_lem n [] chans opened = refl
send_each_lem n (c ∷ cs) chans opened =
    let here : (chans c).closed ≡ false = opened c (ground (arith, ==_iff c c)) in
    let later = send_each_lem n cs (set_chan c (offer n (chans c)) chans) λ d listens.
      ground (arith, opened d, here, closed-offer n (chans c), ==_iff d c, ==_iff c d) in
    ground (arith, here, later)

offer_keeps :
    (n : Notification) (c : Chan Notification)
    → ((offer n c).closed ≡ c.closed)
      × ((offer n c).capacity ≡ c.capacity)
      × (Fits c → Fits (offer n c))
offer_keeps n c = (closed-offer n c, capacity-offer n c, offer-Fits n c)

pub subs-kept :
    (h : NotificationHub) (user : String) (cs : List ℕ) (other : String)
    → subs (record h { subscribers = set_key user (kept cs) h.subscribers }) other
      ≡ (if str_eq other user then cs else subs h other)
subs-kept h user [] other = ground arith
subs-kept h user (c ∷ cs) other = ground arith

-- The states after the calls that return.
abbrev pub joined : String → NotificationHub → NotificationHub
joined user h = record h {
  subscribers = set_key user (some (subs h user ++ h.next ∷ [])) h.subscribers;
  chans = set_chan h.next (make 16) h.chans;
  next = suc h.next;
}

abbrev pub closing : String → ℕ → NotificationHub → NotificationHub
closing user c h = record h {
  subscribers = set_key user (kept (remove_first c (subs h user))) h.subscribers;
  chans = close c h.chans;
}

abbrev pub sent : String → Notification → NotificationHub → NotificationHub
sent user n h = record h { chans = each (offer n) (subs h user) h.chans }

kept-ne-nil : (cs : List ℕ) → kept cs ≢ some []
kept-ne-nil [] = cc
kept-ne-nil (c ∷ cs) = cc

pub joined-IsValid : {h : NotificationHub} → IsValid h → (user : String) → IsValid (joined user h)
unfolding mem
joined-IsValid {h} v user =
    let room = subs h user in
    record {
      occupied = λ other. ground (arith, v.occupied other, append-ne-nil h.next room);
      channels =
          Members.joined-IsValid v.channels user (room ++ h.next ∷ []) _ (λ other. ground arith)
            (λ c. mem-append_one h.next c room)
            (append_one-Distinct h.next room (v.channels.distinct user) (mem-next v.channels user));
    }

pub closing-IsValid :
    {h : NotificationHub}
    → IsValid h
    → (user : String) (c : ℕ) → Listens h user c
    → IsValid (closing user c h)
closing-IsValid {h} v user c listens =
    let room = subs h user in
    let apart = v.channels.distinct user in
    record {
      occupied = λ other. ground (arith, v.occupied other, kept-ne-nil (remove_first c room));
      channels =
          Members.closing-IsValid v.channels user c listens (remove_first c room) _
            (subs-kept h user (remove_first c room)) (λ d. mem-remove_first c d room apart)
            (remove_first-Distinct c room apart);
    }

pub sent-IsValid :
    {h : NotificationHub} → IsValid h → (user : String) (n : Notification) → IsValid (sent user n h)
sent-IsValid {h} v user n = record {
  occupied = v.occupied;
  channels = Members.each-IsValid v.channels user (offer n) (offer_keeps n);
}

pub reading-IsValid :
    {h : NotificationHub} → IsValid h → (c : ℕ) → IsValid (record h { chans = receive c h.chans })
reading-IsValid {h} v c = record {
  occupied = v.occupied;
  channels = Members.receive-IsValid v.channels c;
}

-- In a valid hub the calls return.
pub unsubscribe_returns :
    {h : NotificationHub}
    → IsValid h
    → (user : String) (c : ℕ) → Listens h user c
    → unsubscribe user c h ≡ (ok tt, (closing user c h))
unfolding unsubscribe
unsubscribe_returns v user c listens = rw (listens, v.channels.opened user c listens) refl

pub send_direct_returns :
    {h : NotificationHub}
    → IsValid h
    → (user : String) (n : Notification) → send_direct user n h ≡ (ok tt, (sent user n h))
unfolding send_direct
send_direct_returns {h} v user n =
    ground (arith, send_each_lem n (subs h user) h.chans (v.channels.opened user))

kept_members : (o : Option (List ℕ)) → o ≢ some [] → kept (elim o [ none ↦ [] | some cs ↦ cs ]) ≡ o
kept_members none h = refl
kept_members (some []) h = absurd (h refl)
kept_members (some (c ∷ cs)) h = refl

-- Writing back what is there changes nothing.
set_key-same :
    {h : NotificationHub}
    → IsValid h
    → (user : String) (cs : List ℕ) → cs ≡ subs h user
    → set_key user (kept cs) h.subscribers ≡ h.subscribers
set_key-same {h} v user cs same = fun_ext λ other.
    ground
      (arith, ap kept same, kept_members (h.subscribers user) (v.occupied user), eq_iff other user)

pub unsubscribe_absent :
    {h : NotificationHub}
    → IsValid h
    → (user : String) (c : ℕ) → mem c (subs h user) ≡ false
    → unsubscribe user c h ≡ (ok tt, h)
unfolding unsubscribe
unsubscribe_absent {h} v user c absent =
    rw absent
      (ap (λ m. (ok tt, record h { subscribers = m })) (set_key-same v user (subs h user) refl))
