-- ===== src/Events/Status.antt =====
-- internal/events/hub.go: the channels of the clients that follow the status of videos. The calls are
-- taken one after the other: Go lets two broadcasts send at once, under the read lock.
pub mod Invariant
pub mod Callback
mod Tests
use Prim.Native.Nat.{suc}
use pine_vid_backend.Prelude.{String, Bool, true, false, ℕ, List, [], ◌∷◌, if◌then◌else◌}
use pine_vid_backend.Events.Chan.{
  Outcome, done, panicked, blocked, Chan, make, offer, set_chan, close, remove,
}
use pine_vid_backend.Events.Chat.{add}

pub record VideoEvent : Type 0 where
  pub video_id : String
  pub status : String
  pub hls_url : String

-- `clients` and the mutex; the channels live on Go's heap, `next` is the first that is not allocated.
pub record Hub : Type 0 where
  pub locked : Bool
  pub clients : List ℕ
  pub chans : ℕ → Chan VideoEvent
  pub next : ℕ

abbrev pub new_hub : Hub
new_hub = record { locked = false; clients = []; chans = λ c. make 10; next = 0 }

abbrev pub with_client : Hub → Hub
with_client h = record h {
  clients = add h.next h.clients;
  chans = set_chan h.next (make 10) h.chans;
  next = suc h.next;
}

unfoldable pub subscribe : Hub → Outcome Hub ℕ
subscribe h = if h.locked then blocked else done h.next (with_client h)

abbrev pub without_client : ℕ → Hub → Hub
without_client c h = record h { clients = remove c h.clients }

-- The function that `Subscribe` returns with the channel `c`. The panic of a second `close` leaves the
-- mutex locked: it is unlocked without a `defer`.
unfoldable pub unsubscribe : ℕ → Hub → Outcome Hub Unit
unsubscribe c h =
    if h.locked
    then blocked
    else if (h.chans c).closed
    then panicked (record (without_client c h) { locked = true })
    else done tt (record (without_client c h) { chans = close c h.chans })

-- The sends of a broadcast, and whether all of them were made: a send to a closed channel panics.
unfoldable pub send_all : VideoEvent → List ℕ → (ℕ → Chan VideoEvent) → Bool × (ℕ → Chan VideoEvent)
send_all event [] chans = (true, chans)
send_all event (c ∷ cs) chans =
    let after = send_all event cs (set_chan c (offer event (chans c)) chans) in
    if (chans c).closed then (false, chans) else after

-- A `defer` unlocks the mutex, also after a panic.
unfoldable pub broadcast : VideoEvent → Hub → Outcome Hub Unit
broadcast event h =
    let (sent, chans) = send_all event h.clients h.chans in
    let h' = record h { chans = chans } in
    if h.locked then blocked else if sent then done tt h' else panicked h'
