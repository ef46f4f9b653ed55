-- ===== src/Events/Chat/Invariant.antt =====
-- What holds of the chat hub between calls, when each subscription is ended once at most.
use pine_vid_backend.Prelude.{
  String, true, false, ◌≡◌, ◌≢◌, refl, arith, str_eq, ℕ, Option, none, some, List, [], ◌∷◌,
  if◌then◌else◌,
}
use pine_vid_backend.Events.Chan.{
  done, Chan, close, mem, remove, Fits, offer-Fits, closed-offer, capacity-offer, mem-remove,
  remove-Distinct, receive,
}
use pine_vid_backend.Events.Members
use pine_vid_backend.Events.Members.{mem-next}
use pine_vid_backend.Events.Chan.{mem-remove, remove-Distinct}
use pine_vid_backend.Events.Chat.{
  add, ChatMessage, ChatHub, members, kept, without, subscribe, unsubscribe, safe_send, broadcast,
  new_chat_hub, joined, left, sent,
}

-- The channel is in the room of the stream.
abbrev pub Listens : ChatHub → String → ℕ → Type 0
Listens h stream c = mem c (members (h.rooms stream)) ≡ true

pub record IsValid (h : ChatHub) : Type 0 where
  pub unlocked : h.locked ≡ false
  -- An empty room is deleted.
  pub occupied : (stream : String) → h.rooms stream ≢ some []
  -- The channels of the rooms are open, each is in one room once, and no buffer holds more than 20
  -- messages.
  pub channels : Members.IsValid 20 (λ stream. members (h.rooms stream)) h.chans h.next

pub new_chat_hub-IsValid : IsValid new_chat_hub
unfolding mem
new_chat_hub-IsValid = record {
  unlocked = refl;
  occupied = λ stream. cc;
  channels = record {
    allocated = λ stream c listens. cc;
    opened = λ stream c listens. refl;
    one_key = λ stream other c listens listens'. cc;
    distinct = λ stream. tt;
    sized = λ c. refl;
    fitting = λ c. omega arith;
  };
}

pub joined-IsValid : {h : ChatHub} → IsValid h → (stream : String) → IsValid (joined stream h)
unfolding mem
joined-IsValid {h} v stream =
    let fresh = mem-next v.channels stream in
    record {
      unlocked = v.unlocked;
      occupied = λ other. ground (arith, v.occupied other, fresh);
      channels =
          Members.joined-IsValid v.channels stream (add h.next (members (h.rooms stream))) _
            (λ other. ground arith) (λ c. ground (arith, fresh))
            (rw fresh (fresh, v.channels.distinct stream));
    }

members-kept : (cs : List ℕ) → members (kept cs) ≡ cs
members-kept [] = refl
members-kept (c ∷ cs) = refl

members-without :
    (c : ℕ) (room : Option (List ℕ)) → members (without c room) ≡ remove c (members room)
unfolding remove
members-without c none = refl
members-without c (some room) = members-kept (remove c room)

kept-ne-nil : (cs : List ℕ) → kept cs ≢ some []
kept-ne-nil [] = cc
kept-ne-nil (c ∷ cs) = cc

without-ne-nil : (c : ℕ) (room : Option (List ℕ)) → without c room ≢ some []
without-ne-nil c none = cc
without-ne-nil c (some room) = kept-ne-nil (remove c room)

pub members-left :
    (stream : String) (c : ℕ) (h : ChatHub) (other : String)
    → members ((left stream c h).rooms other) ≡ (
        if str_eq other stream
        then remove c (members (h.rooms stream))
        else members (h.rooms other))
members-left stream c h other = ground (arith, members-without c (h.rooms stream))

abbrev pub closing : String → ℕ → ChatHub → ChatHub
closing stream c h = record (left stream c h) { chans = close c h.chans }

pub closing-IsValid :
    {h : ChatHub}
    → IsValid h
    → (stream : String) (c : ℕ) → Listens h stream c
    → IsValid (closing stream c h)
closing-IsValid {h} v stream c listens = record {
  unlocked = v.unlocked;
  occupied = λ other. ground (arith, v.occupied other, without-ne-nil c (h.rooms stream));
  channels =
      let room = members (h.rooms stream) in
      Members.closing-IsValid v.channels stream c listens (remove c room) _
        (members-left stream c h) (λ d. mem-remove c d room)
        (remove-Distinct c room (v.channels.distinct stream));
}

safe_send_keeps :
    (msg : ChatMessage) (c : Chan ChatMessage)
    → ((safe_send msg c).closed ≡ c.closed)
      × ((safe_send msg c).capacity ≡ c.capacity)
      × (Fits c → Fits (safe_send msg c))
unfolding safe_send
safe_send_keeps msg c = (
  ground (arith, closed-offer msg c),
  ground (arith, capacity-offer msg c),
  λ h. ground (arith, offer-Fits msg c h),
)

pub sent-IsValid :
    {h : ChatHub} → IsValid h → (stream : String) (msg : ChatMessage) → IsValid (sent stream msg h)
sent-IsValid {h} v stream msg = record {
  unlocked = v.unlocked;
  occupied = v.occupied;
  channels = Members.each-IsValid v.channels stream (safe_send msg) (safe_send_keeps msg);
}

pub reading-IsValid :
    {h : ChatHub} → IsValid h → (c : ℕ) → IsValid (record h { chans = receive c h.chans })
reading-IsValid {h} v c = record {
  unlocked = v.unlocked;
  occupied = v.occupied;
  channels = Members.receive-IsValid v.channels c;
}

-- In a valid hub the calls return.
pub subscribe_returns :
    {h : ChatHub}
    → IsValid h
    → (stream : String) → subscribe stream h ≡ done h.next (joined stream h)
unfolding subscribe
subscribe_returns v stream = rw v.unlocked

pub unsubscribe_returns :
    {h : ChatHub}
    → IsValid h
    → (stream : String) (c : ℕ) → Listens h stream c
    → unsubscribe stream c h ≡ done tt (closing stream c h)
unfolding unsubscribe
unsubscribe_returns v stream c listens = rw (v.unlocked, v.channels.opened stream c listens)

pub broadcast_returns :
    {h : ChatHub}
    → IsValid h
    → (stream : String) (msg : ChatMessage) → broadcast stream msg h ≡ done tt (sent stream msg h)
unfolding broadcast
broadcast_returns v stream msg = rw v.unlocked
