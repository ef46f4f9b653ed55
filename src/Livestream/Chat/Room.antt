-- ===== src/Livestream/Chat/Room.antt =====
-- What the viewers of a stream see of the chat and of the hearts.
use pine_vid_backend.Prelude.{String, ◌≡◌, refl, arith, some, ℕ, length, ◌<◌, ◌++◌, ◌∷◌, []}
use pine_vid_backend.Events.Chan.{done, Chan, offer}
use pine_vid_backend.Events.Chat.{ChatMessage, ChatHub, broadcast}
use pine_vid_backend.Events.Chat.Invariant.{Listens}
use pine_vid_backend.Events.Chat.Delivery.{Reach, Reach-IsValid, broadcast_delivers}
use pine_vid_backend.Livestream.Chat.{
  SendChatMessage, ChatMessageResponse, chat_message, send_chat_message, to_chat_message_response,
}

-- An open channel with room takes the message at the end of its buffer.
buffer-offer :
    {M : Type 0} (msg : M) (c : Chan M)
    → length c.buffer < c.capacity
    → (offer msg c).buffer ≡ c.buffer ++ msg ∷ []
unfolding offer
buffer-offer msg c room = ground arith

-- After a broadcast a viewer's channel with room ends with the message.
viewer_gets :
    {h : ChatHub}
    → Reach h
    → (stream : String) (msg : ChatMessage) (c : ℕ) → Listens h stream c
    → length (h.chans c).buffer < 20
    → (h' : ChatHub) × (broadcast stream msg h ≡ done tt h')
      × ((h'.chans c).buffer ≡ (h.chans c).buffer ++ msg ∷ [])
viewer_gets {h} r stream msg c listens room =
    let (h', returns, chans) = broadcast_delivers r stream msg in
    let v = (Reach-IsValid r).channels in
    (h', returns, rw (chans c, listens) (buffer-offer msg (h.chans c) (omega (arith, v.sized c))))

-- A chat message is answered with what the viewers get: after `SendChatMessage`, which returns, the
-- channel of each viewer of the stream that holds fewer than 20 messages ends with a message whose
-- response form is the answer.
pub chat_reaches_viewers :
    {h : ChatHub}
    → Reach h
    → (initial : String → String) (clock stream : String) (req : SendChatMessage) (c : ℕ)
    → Listens h stream c
    → length (h.chans c).buffer < 20
    → (h' : ChatHub) × (answer : ChatMessageResponse) × (msg : ChatMessage) × (send_chat_message
          initial clock stream req
          (some h)
        ≡ done answer (some h'))
      × ((h'.chans c).buffer ≡ (h.chans c).buffer ++ msg ∷ [])
      × (to_chat_message_response msg ≡ answer)
unfolding send_chat_message
chat_reaches_viewers {h} r initial clock stream req c listens room =
    let msg = chat_message initial clock stream req in
    let (h', returns, got) = viewer_gets r stream msg c listens room in
    (h', to_chat_message_response msg, msg, ground (arith, returns), got, refl)
