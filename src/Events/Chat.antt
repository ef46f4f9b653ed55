-- ===== src/Events/Chat.antt =====
-- internal/events/chat_hub.go: the rooms of the livestreams' chats. Each call holds the mutex from its
-- start to its end, so a call is one step. The iteration order of a Go map is any: a room is a list of
-- channels, and Events/Chat/Delivery shows that its order does not matter.
pub mod Invariant
pub mod Delivery
use Prim.Native.Nat.{suc}
use pine_vid_backend.Prelude.{
  String, Bool, true, false, ℕ, Option, none, some, List, [], ◌∷◌, if◌then◌else◌,
}
use pine_vid_backend.Prelude.Int.{ℤ}
use pine_vid_backend.Events.Chan.{
  Outcome, done, panicked, blocked, Chan, make, set_key, offer, set_chan, close, mem, remove, each,
}

pub record ChatMessage : Type 0 where
  pub stream_id : String
  pub type : String
  pub username : String
  pub avatar : String
  pub text : String
  pub value : ℤ
  pub created_at : String

-- `rooms` and the mutex. The channels live on Go's heap, `next` is the first that is not allocated.
-- `locked` says that a call has left the mutex locked.
pub record ChatHub : Type 0 where
  pub locked : Bool
  pub rooms : String → Option (List ℕ)
  pub chans : ℕ → Chan ChatMessage
  pub next : ℕ

abbrev pub new_chat_hub : ChatHub
new_chat_hub = record { locked = false; rooms = λ stream. none; chans = λ c. make 20; next = 0 }

abbrev pub members : Option (List ℕ) → List ℕ
members none = []
members (some room) = room

-- `room[ch] = struct{}{}`
abbrev pub add : ℕ → List ℕ → List ℕ
add c room = if mem c room then room else c ∷ room

abbrev pub joined : String → ChatHub → ChatHub
joined stream_id h = record h {
  rooms = set_key stream_id (some (add h.next (members (h.rooms stream_id)))) h.rooms;
  chans = set_chan h.next (make 20) h.chans;
  next = suc h.next;
}

unfoldable pub subscribe : String → ChatHub → Outcome ChatHub ℕ
subscribe stream_id h = if h.locked then blocked else done h.next (joined stream_id h)

-- A room without its last channel is deleted.
abbrev pub kept : List ℕ → Option (List ℕ)
kept [] = none
kept (c ∷ cs) = some (c ∷ cs)

abbrev pub without : ℕ → Option (List ℕ) → Option (List ℕ)
without c none = none
without c (some room) = kept (remove c room)

abbrev pub left : String → ℕ → ChatHub → ChatHub
left stream_id c h = record h { rooms = set_key stream_id (without c (h.rooms stream_id)) h.rooms }

-- The function that `Subscribe` returns with the channel `c`. `close` panics on a closed channel, and
-- the mutex stays locked then, since no `defer` unlocks it.
unfoldable pub unsubscribe : String → ℕ → ChatHub → Outcome ChatHub Unit
unsubscribe stream_id c h =
    if h.locked
    then blocked
    else if (h.chans c).closed
    then panicked (record (left stream_id c h) { locked = true })
    else done tt (record (left stream_id c h) { chans = close c h.chans })

-- The panic of a send to a closed channel is recovered.
unfoldable pub safe_send : ChatMessage → Chan ChatMessage → Chan ChatMessage
safe_send msg c = if c.closed then c else offer msg c

abbrev pub sent : String → ChatMessage → ChatHub → ChatHub
sent stream_id msg h = record h {
  chans = each (safe_send msg) (members (h.rooms stream_id)) h.chans;
}

unfoldable pub broadcast : String → ChatMessage → ChatHub → Outcome ChatHub Unit
broadcast stream_id msg h = if h.locked then blocked else done tt (sent stream_id msg h)
