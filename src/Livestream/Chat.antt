-- ===== src/Livestream/Chat.antt =====
-- Live chat: `SendChatMessage` and `BroadcastHeart` of internal/usecase/livestream/livestream.go,
-- `HeartStream` of internal/usecase/like/like.go, and `ToChatMessageResponse` of
-- internal/mapper/livestream.go. `clock` is `time.Now().Format("15:04:05")`, and `initial` takes the
-- first byte of a name that is not empty, `name[0:1]`.
pub mod Room
mod Tests
use pine_vid_backend.Prelude.{String, Option, none, some, str_eq, if◌then◌else◌}
use pine_vid_backend.Prelude.Int.{ℤ, pos}
use pine_vid_backend.Effects.{Result, ok, err, panic, Exec, Error, wrap}
use pine_vid_backend.Events.Chan.{Outcome, done, panicked, blocked}
use pine_vid_backend.Events.Chat.{ChatMessage, ChatHub, broadcast}

-- `request.SendChatMessage`
pub record SendChatMessage : Type 0 where
  pub username : String
  pub avatar : String
  pub text : String

pub record ChatUser : Type 0 where
  pub name : String
  pub avatar : String

pub record ChatMessageResponse : Type 0 where
  pub stream_id : String
  pub type : String
  pub user : ChatUser
  pub text : String
  pub value : ℤ
  pub created_at : String

pub record HeartResponse : Type 0 where
  pub stream_id : String
  pub total_hearts : ℤ

unfoldable pub to_chat_message_response : ChatMessage → ChatMessageResponse
to_chat_message_response msg = record {
  stream_id = msg.stream_id;
  type = msg.type;
  user = record { name = msg.username; avatar = msg.avatar };
  text = msg.text;
  value = msg.value;
  created_at = msg.created_at;
}

-- The hub, if the use case has one.
abbrev pub post : String → ChatMessage → Option ChatHub → Outcome (Option ChatHub) Unit
post stream_id msg none = done tt none
post stream_id msg (some h) = elim (broadcast stream_id msg h) [
  | done _ h' ↦ done tt (some h')
  | panicked h' ↦ panicked (some h')
  | blocked ↦ blocked
]

unfoldable pub chat_message : (String → String) → String → String → SendChatMessage → ChatMessage
chat_message initial clock stream_id req =
    let username = if str_eq req.username "" then "Guest" else req.username in
    record {
      stream_id = stream_id;
      type = "chat";
      username = username;
      avatar = if str_eq req.avatar "" then initial username else req.avatar;
      text = req.text;
      value = pos 0;
      created_at = clock;
    }

unfoldable pub send_chat_message :
    (String → String)
    → String
    → String
    → SendChatMessage
    → Option ChatHub
    → Outcome (Option ChatHub) ChatMessageResponse
send_chat_message initial clock stream_id req hub =
    let msg = chat_message initial clock stream_id req in
    elim (post stream_id msg hub) [
      | done _ hub' ↦ done (to_chat_message_response msg) hub'
      | panicked hub' ↦ panicked hub'
      | blocked ↦ blocked
    ]

unfoldable pub heart_message : String → String → ℤ → ChatMessage
heart_message clock stream_id total_hearts = record {
  stream_id = stream_id;
  type = "heart";
  username = "";
  avatar = "";
  text = "";
  value = total_hearts;
  created_at = clock;
}

unfoldable pub broadcast_heart :
    String → String → ℤ → Option ChatHub → Outcome (Option ChatHub) Unit
broadcast_heart clock stream_id total_hearts hub =
    post stream_id (heart_message clock stream_id total_hearts) hub

-- The part of `LikeRepo` that `HeartStream` calls.
pub record HeartRepo (W : Type 0) : Type 0 where
  pub increment_heart : String → Exec W ℤ

pub record World (W : Type 0) : Type 0 where
  pub rows : W
  pub chat_hub : Option ChatHub

abbrev pub response : String → ℤ → HeartResponse
response stream_id total = record { stream_id = stream_id; total_hearts = total }

-- `HeartStream`, of a use case that has the livestreams.
unfoldable pub heart_stream :
    {W : Type 0}
    → HeartRepo W
    → String
    → String
    → World W
    → Outcome (World W) (Result HeartResponse)
heart_stream repo clock stream_id w =
    let (r, rows) = repo.increment_heart stream_id w.rows in
    let w' = record w { rows = rows } in
    elim r [
      | ok total ↦ elim (broadcast_heart clock stream_id total w.chat_hub) [
        | done _ hub ↦ done (ok (response stream_id total)) (record w' { chat_hub = hub })
        | panicked hub ↦ panicked (record w' { chat_hub = hub })
        | blocked ↦ blocked
      ]
      | err e ↦ done (err (wrap "LikeUseCase - HeartStream" e)) w'
      | panic ↦ panicked w'
    ]
