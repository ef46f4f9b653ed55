-- ===== src/Livestream/Chat/Tests.antt =====
-- The chat and the hearts with one viewer.
use Prim.Native.Nat.{suc}
use pine_vid_backend.Prelude.{ℕ}
use pine_vid_backend.Prelude.Int.{pos}
use pine_vid_backend.Effects.{ok}
use pine_vid_backend.Events.Chat.{ChatHub, new_chat_hub, joined}
use pine_vid_backend.Livestream.Chat.{SendChatMessage, HeartRepo}

abbrev one : ChatHub
one = joined "s1" new_chat_hub

-- The number of hearts of the only stream.
abbrev hearts : HeartRepo ℕ
hearts = record { increment_heart = λ stream n. (ok (pos (suc n)), suc n) }

abbrev hello : SendChatMessage
hello = record { username = ""; avatar = ""; text = "hello" }
