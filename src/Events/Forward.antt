-- ===== src/Events/Forward.antt =====
-- The goroutine of `SubscribeChat` (internal/usecase/livestream/livestream.go) and of
-- `SubscribeNotifications` (internal/usecase/notification/notification.go): it reads the hub's channel,
-- converts each message, and hands it to the handler of the connection over a channel without a buffer.
-- The handler unsubscribes, which closes the hub's channel, when it returns.
pub mod Order
use pine_vid_backend.Prelude.{Bool, true, false, ◌≡◌, List, [], ◌∷◌, ◌++◌}

-- Where the goroutine is: before `range raw` yields, before `mapped <- …` is received, or returned.
pub data Phase (N : Type 0) : Type 0 where
  waiting : Phase N
  holding : N → Phase N
  finished : Phase N

-- `buffer` and `closed` are those of the hub's channel; `reader` says that the handler still receives.
-- `accepted` and `received` are the histories of the two channels.
pub record Forwarder (M N : Type 0) : Type 0 where
  pub buffer : List M
  pub closed : Bool
  pub phase : Phase N
  pub reader : Bool
  pub accepted : List M
  pub received : List N

abbrev pub started : {M N : Type 0} → Forwarder M N
started = record {
  buffer = [];
  closed = false;
  phase = waiting;
  reader = true;
  accepted = [];
  received = [];
}

module _ {M N : Type 0} (f : M → N) where
  pub data Step : Forwarder M N → Forwarder M N → Type 0 where
    -- The hub sends a message, and there is room.
    accepts :
        {s s' : Forwarder M N} (msg : M)
        → s.closed ≡ false
        → s' ≡ record s { buffer = s.buffer ++ msg ∷ []; accepted = s.accepted ++ msg ∷ [] }
        → Step s s'
    takes :
        {s s' : Forwarder M N} (msg : M) (rest : List M)
        → s.phase ≡ waiting
        → s.buffer ≡ msg ∷ rest
        → s' ≡ record s { buffer = rest; phase = holding (f msg) }
        → Step s s'
    hands :
        {s s' : Forwarder M N} (n : N)
        → s.phase ≡ holding n
        → s.reader ≡ true
        → s' ≡ record s { phase = waiting; received = s.received ++ n ∷ [] }
        → Step s s'
    -- `range raw` ends when the channel is closed and empty.
    finishes :
        {s s' : Forwarder M N}
        → s.phase ≡ waiting
        → s.closed ≡ true
        → s.buffer ≡ []
        → s' ≡ record s { phase = finished }
        → Step s s'
    -- The handler returns: its `defer` ends the subscription.
    leaves :
        {s s' : Forwarder M N}
        → s.reader ≡ true
        → s' ≡ record s { reader = false; closed = true }
        → Step s s'

  pub data Steps (s : Forwarder M N) : Forwarder M N → Type 0 where
    here : Steps s s
    next : {t u : Forwarder M N} → Steps s t → Step t u → Steps s u
