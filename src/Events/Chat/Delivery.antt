-- ===== src/Events/Chat/Delivery.antt =====
-- The chat hub over time: what its subscribers get, and what a second end of a subscription does.
use pine_vid_backend.Prelude.{
  String, true, inl, inr, ==_iff, Bool-cases, ◌∙◌, ◌≡◌, refl, sym, subst, ℕ, if◌then◌else◌,
}
use pine_vid_backend.Events.Chan.{done, panicked, blocked, mem, offer, receive, set_chan}
use pine_vid_backend.Events.Members.{each_member}
use pine_vid_backend.Events.Chat.{
  ChatMessage, ChatHub, members, subscribe, unsubscribe, safe_send, broadcast, new_chat_hub, left,
  sent,
}
use pine_vid_backend.Events.Chat.Invariant.{
  Listens, IsValid, closing, new_chat_hub-IsValid, joined-IsValid, closing-IsValid, sent-IsValid,
  reading-IsValid, subscribe_returns, unsubscribe_returns, broadcast_returns,
}

-- What happens to a hub. Each subscription is ended once: its channel is still in its room.
pub data Step : ChatHub → ChatHub → Type 0 where
  subscribes :
      {h h' : ChatHub} (stream : String) (c : ℕ) → subscribe stream h ≡ done c h' → Step h h'
  unsubscribes :
      {h h' : ChatHub} (stream : String) (c : ℕ)
      → Listens h stream c
      → unsubscribe stream c h ≡ done tt h'
      → Step h h'
  broadcasts :
      {h h' : ChatHub} (stream : String) (msg : ChatMessage)
      → broadcast stream msg h ≡ done tt h'
      → Step h h'
  reads : {h h' : ChatHub} (c : ℕ) → h' ≡ record h { chans = receive c h.chans } → Step h h'

pub data Reach : ChatHub → Type 0 where
  start : Reach new_chat_hub
  next : {h h' : ChatHub} → Reach h → Step h h' → Reach h'

done_inj : {S A : Type 0} {a b : A} {s t : S} → done a s ≡ done b t → s ≡ t
done_inj e = cc

Step-IsValid : {h h' : ChatHub} → Step h h' → IsValid h → IsValid h'
Step-IsValid (subscribes {h} {h'} stream c e) v =
    subst IsValid (done_inj (sym (subscribe_returns v stream) ∙ e)) (joined-IsValid v stream)
Step-IsValid (unsubscribes {h} {h'} stream c listens e) v =
    subst IsValid (done_inj (sym (unsubscribe_returns v stream c listens) ∙ e))
      (closing-IsValid v stream c listens)
Step-IsValid (broadcasts {h} {h'} stream msg e) v =
    subst IsValid (done_inj (sym (broadcast_returns v stream msg) ∙ e)) (sent-IsValid v stream msg)
Step-IsValid (reads {h} {h'} c e) v = subst IsValid (sym e) (reading-IsValid v c)

-- However subscriptions, first unsubscriptions, broadcasts and reads follow one another, the mutex is
-- free between the calls, the channels of the rooms are open, each is in one room once, no room is
-- kept empty, and no buffer holds more than its 20 messages.
pub Reach-IsValid : {h : ChatHub} → Reach h → IsValid h
Reach-IsValid start = new_chat_hub-IsValid
Reach-IsValid (next r st) = Step-IsValid st (Reach-IsValid r)

-- A broadcast returns whatever its readers do: it gives the message, at the end of the buffer, to each
-- channel of the room that holds fewer than 20 messages, and leaves all others, those of the other
-- rooms and the full ones, as they are.
pub broadcast_delivers :
    {h : ChatHub}
    → Reach h
    → (stream : String) (msg : ChatMessage)
    → (h' : ChatHub) × (broadcast stream msg h ≡ done tt h')
      × ((c : ℕ)
          → h'.chans c
            ≡ (if mem c (members (h.rooms stream)) then offer msg (h.chans c) else h.chans c))
unfolding safe_send
broadcast_delivers {h} r stream msg =
    let v = Reach-IsValid r in
    (
      sent stream msg h,
      broadcast_returns v stream msg,
      λ c. elim (Bool-cases (mem c (members (h.rooms stream)))) [
        | inl listens ↦
            rw
              (
                each_member v.channels stream (safe_send msg) c,
                listens,
                v.channels.opened stream c listens,
              )
              refl
        | inr apart ↦ rw (each_member v.channels stream (safe_send msg) c, apart) refl
      ],
    )

-- The function that ends a subscription panics when it is called again, and from then on every call
-- of the hub waits for its mutex for ever, in every room.
pub unsubscribe_twice_wedges :
    {h : ChatHub}
    → Reach h
    → (stream : String) (c : ℕ) → Listens h stream c
    → (h' h'' : ChatHub) × (unsubscribe stream c h ≡ done tt h')
      × (unsubscribe stream c h' ≡ panicked h'')
      × ((other : String) (d : ℕ) (msg : ChatMessage)
          → (subscribe other h'' ≡ blocked)
            × (unsubscribe other d h'' ≡ blocked)
            × (broadcast other msg h'' ≡ blocked))
unfolding subscribe unsubscribe broadcast set_chan
unsubscribe_twice_wedges {h} r stream c listens =
    let v = Reach-IsValid r in
    let h' = closing stream c h in
    (
      h',
      record (left stream c h') { locked = true },
      unsubscribe_returns v stream c listens,
      rw (v.unlocked, (==_iff c c).1 refl) refl,
      λ other d msg. (refl, refl, refl),
    )
