-- ===== src/Events/Direct.antt =====
-- internal/events/notification_hub.go: the channels of each user's notifications. A call holds the
-- mutex from its start to its end and unlocks it in a `defer`, also when it panics.
pub mod Invariant
pub mod Delivery
use Prim.Native.Nat.{suc}
use pine_vid_backend.Prelude.{
  String, Bool, ◌==◌, ℕ, Option, none, some, List, [], ◌∷◌, ◌++◌, if◌then◌else◌,
}
use pine_vid_backend.Entity.Notification.{Notification}
use pine_vid_backend.Effects.{ok, panic, Exec}
use pine_vid_backend.Events.Chan.{Chan, make, set_key, offer, set_chan, close, mem}

-- `subscribers`, and the channels on Go's heap; `next` is the first that is not allocated.
pub record NotificationHub : Type 0 where
  pub subscribers : String → Option (List ℕ)
  pub chans : ℕ → Chan Notification
  pub next : ℕ

abbrev pub new_notification_hub : NotificationHub
new_notification_hub = record { subscribers = λ user_id. none; chans = λ c. make 16; next = 0 }

-- A missing key reads as the nil slice.
abbrev pub subs : NotificationHub → String → List ℕ
subs h user_id = elim (h.subscribers user_id) [ none ↦ [] | some cs ↦ cs ]

unfoldable pub subscribe : String → Exec NotificationHub ℕ
subscribe user_id h = (
  ok h.next,
  record h {
    subscribers = set_key user_id (some (subs h user_id ++ h.next ∷ [])) h.subscribers;
    chans = set_chan h.next (make 16) h.chans;
    next = suc h.next;
  },
)

-- `append(subs[:i], subs[i+1:]...)` at the first entry that is the channel, and `break`.
unfoldable pub remove_first : ℕ → List ℕ → List ℕ
remove_first c [] = []
remove_first c (x ∷ xs) = let below = remove_first c xs in if x == c then xs else x ∷ below

-- A user without channels is deleted from the map.
abbrev pub kept : List ℕ → Option (List ℕ)
kept [] = none
kept (c ∷ cs) = some (c ∷ cs)

-- The function that `Subscribe` returns with the channel `c`.
unfoldable pub unsubscribe : String → ℕ → Exec NotificationHub Unit
unsubscribe user_id c h =
    let found = mem c (subs h user_id) in
    let left = if found then remove_first c (subs h user_id) else subs h user_id in
    let h' = record h { subscribers = set_key user_id (kept left) h.subscribers } in
    if found
    then (if (h.chans c).closed
        then (panic, record h { subscribers = set_key user_id (some left) h.subscribers })
        else (ok tt, record h' { chans = close c h.chans }))
    else (ok tt, h')

-- The loop of `SendDirect`: a send to a closed channel panics, also in a `select`.
unfoldable pub send_each : Notification → List ℕ → Exec (ℕ → Chan Notification) Unit
send_each n [] chans = (ok tt, chans)
send_each n (c ∷ cs) chans =
    let next = send_each n cs (set_chan c (offer n (chans c)) chans) in
    if (chans c).closed then (panic, chans) else next

unfoldable pub send_direct : String → Notification → Exec NotificationHub Unit
send_direct user_id n h =
    let (r, chans) = send_each n (subs h user_id) h.chans in (r, record h { chans = chans })
