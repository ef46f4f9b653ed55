-- ===== src/Events/Tests.antt =====
-- The theorems about the hubs at concrete subscribers.
use Prim.Native.Nat.{suc}
use pine_vid_backend.Prelude.{String, true, false, ◌≡◌, refl, ℕ, [], ◌∷◌, ◌++◌, map, if◌then◌else◌}
use pine_vid_backend.Prelude.Int.{pos}
use pine_vid_backend.Events.Chan.{done, panicked, blocked, mem, offer}
use pine_vid_backend.Events.Chat.{
  ChatMessage, ChatHub, new_chat_hub, joined, members, subscribe, unsubscribe, broadcast,
}
use pine_vid_backend.Events.Chat.Invariant.{Listens, IsValid}
use pine_vid_backend.Events.Chat.Delivery.{
  Reach, start, next, subscribes, Reach-IsValid, broadcast_delivers, unsubscribe_twice_wedges,
}
use pine_vid_backend.Events.Direct
use pine_vid_backend.Events.Direct.Invariant
use pine_vid_backend.Events.Direct.Delivery
use pine_vid_backend.Events.Direct.Delivery.{unsubscribe_twice}
use pine_vid_backend.Events.Forward.{
  Phase, waiting, holding, Forwarder, started, Step, Steps, accepts, takes, hands, leaves, here,
}
use pine_vid_backend.Events.Forward
use pine_vid_backend.Events.Forward.Order.{received_in_order, left_behind, can_catch_up}

abbrev hello : ChatMessage
hello = record {
  stream_id = "s1";
  type = "chat";
  username = "ann";
  avatar = "a";
  text = "hello";
  value = pos 0;
  created_at = "10:00:00";
}

-- One viewer of the stream "s1", on channel 0.
abbrev one : ChatHub
one = joined "s1" new_chat_hub

one-Reach : Reach one
unfolding subscribe
one-Reach = next start (subscribes "s1" 0 refl)

one-Listens : Listens one "s1" 0
unfolding mem
one-Listens = refl

Reach-IsValid_example : IsValid one
Reach-IsValid_example = Reach-IsValid one-Reach

broadcast_delivers_example :
    (h' : ChatHub) × (broadcast "s1" hello one ≡ done tt h')
    × ((c : ℕ)
        → h'.chans c
          ≡ (if mem c (members (one.rooms "s1")) then offer hello (one.chans c) else one.chans c))
broadcast_delivers_example = broadcast_delivers one-Reach "s1" hello

unsubscribe_twice_wedges_example :
    (h' h'' : ChatHub) × (unsubscribe "s1" 0 one ≡ done tt h')
    × (unsubscribe "s1" 0 h' ≡ panicked h'')
    × ((other : String) (d : ℕ) (msg : ChatMessage)
        → (subscribe other h'' ≡ blocked)
          × (unsubscribe other d h'' ≡ blocked)
          × (broadcast other msg h'' ≡ blocked))
unsubscribe_twice_wedges_example = unsubscribe_twice_wedges one-Reach "s1" 0 one-Listens

-- One connection of the user "ann", on channel 0.
abbrev ann : Direct.NotificationHub
ann = Direct.Invariant.joined "ann" Direct.new_notification_hub

ann-Reach : Direct.Delivery.Reach ann
unfolding Direct.subscribe
ann-Reach = Direct.Delivery.next Direct.Delivery.start (Direct.Delivery.subscribes "ann" 0 refl)

ann-Listens : Direct.Invariant.Listens ann "ann" 0
unfolding mem
ann-Listens = refl

-- A goroutine that doubles numbers: two were sent, the first is in its hand.
abbrev twice : ℕ → ℕ
twice = λ n. suc (suc n)

abbrev one_held : Forwarder ℕ ℕ
one_held = record {
  buffer = 2 ∷ [];
  closed = false;
  phase = holding 3;
  reader = true;
  accepted = 1 ∷ 2 ∷ [];
  received = [];
}

one_held-Steps : Steps twice started one_held
one_held-Steps =
    Forward.next (Forward.next (Forward.next here (accepts 1 refl refl)) (accepts 2 refl refl))
      (takes 1 (2 ∷ []) refl refl refl)

received_in_order_example : [] ++ (3 ∷ []) ++ (4 ∷ []) ≡ map twice (1 ∷ 2 ∷ [])
received_in_order_example = received_in_order twice one_held-Steps

abbrev gone : Forwarder ℕ ℕ
gone = record one_held { reader = false; closed = true }

left_behind_example : (gone.phase ≡ holding 3) × (gone.reader ≡ false)
left_behind_example = left_behind twice {s = gone} 3 here refl refl

can_catch_up_example :
    (s' : Forwarder ℕ ℕ) × Steps twice one_held s' × (s'.received ≡ map twice (1 ∷ 2 ∷ []))
can_catch_up_example = can_catch_up twice one_held-Steps refl
