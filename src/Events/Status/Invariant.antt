-- ===== src/Events/Status/Invariant.antt =====
-- What holds of the hub of the video events between calls, when each subscription is ended once.
use pine_vid_backend.Prelude.{
  String, true, false, ◌≡◌, refl, sym, ◌∙◌, subst, arith, str_eq, ==_iff, ℕ, List, [], ◌∷◌,
  if◌then◌else◌,
}
use pine_vid_backend.Events.Chan.{
  done, Chan, close, mem, remove, each, set_chan, offer, offer-Fits, closed-offer, capacity-offer,
  mem-remove, remove-Distinct, receive,
}
use pine_vid_backend.Events.Members
use pine_vid_backend.Events.Members.{mem-next, each_member}
use pine_vid_backend.Events.Chat.{add}
use pine_vid_backend.Events.Status.{
  VideoEvent, Hub, new_hub, with_client, without_client, subscribe, unsubscribe, send_all,
  broadcast,
}

abbrev pub Listens : Hub → ℕ → Type 0
Listens h c = mem c h.clients ≡ true

-- The clients, as the members of one key.
abbrev pub members : List ℕ → String → List ℕ
members clients key = if str_eq key "" then clients else []

pub record IsValid (h : Hub) : Type 0 where
  pub unlocked : h.locked ≡ false
  -- The clients' channels are open and distinct, and no buffer holds more than 10 events.
  pub channels : Members.IsValid 10 (members h.clients) h.chans h.next

pub new_hub-IsValid : IsValid new_hub
unfolding mem
new_hub-IsValid = record {
  unlocked = refl;
  channels = record {
    allocated = λ key c listens. ground arith;
    opened = λ key c listens. refl;
    one_key = λ key other c listens listens'. ground arith;
    distinct = λ key. ground arith;
    sized = λ c. refl;
    fitting = λ c. omega arith;
  };
}

with_client-IsValid : {h : Hub} → IsValid h → IsValid (with_client h)
unfolding mem
with_client-IsValid {h} v =
    let fresh = mem-next v.channels "" in
    record {
      unlocked = v.unlocked;
      channels =
          Members.joined-IsValid v.channels "" (add h.next h.clients) _ (λ key. ground arith)
            (λ c. ground (arith, fresh)) (rw fresh (fresh, v.channels.distinct ""));
    }

abbrev pub closing : ℕ → Hub → Hub
closing c h = record (without_client c h) { chans = close c h.chans }

closing-IsValid : {h : Hub} → IsValid h → (c : ℕ) → Listens h c → IsValid (closing c h)
closing-IsValid {h} v c listens = record {
  unlocked = v.unlocked;
  channels =
      Members.closing-IsValid v.channels "" c listens (remove c h.clients) _ (λ key. ground arith)
        (λ d. mem-remove c d h.clients) (remove-Distinct c h.clients (v.channels.distinct ""));
}

abbrev pub sent : VideoEvent → Hub → Hub
sent event h = record h { chans = each (offer event) h.clients h.chans }

sent-IsValid : {h : Hub} → IsValid h → (event : VideoEvent) → IsValid (sent event h)
sent-IsValid {h} v event = record {
  unlocked = v.unlocked;
  channels =
      Members.each-IsValid v.channels "" (offer event)
        (λ c. (closed-offer event c, capacity-offer event c, offer-Fits event c));
}

-- Over open channels all sends are made.
send_all_lem :
    (event : VideoEvent) (cs : List ℕ) (chans : ℕ → Chan VideoEvent)
    → ((c : ℕ) → mem c cs ≡ true → (chans c).closed ≡ false)
    → send_all event cs chans ≡ (true, each (offer event) cs chans)
unfolding send_all each mem set_chan
send_all_lem event [] chans opened = refl
send_all_lem event (c ∷ cs) chans opened =
    let here : (chans c).closed ≡ false = opened c (ground (arith, ==_iff c c)) in
    let later = send_all_lem event cs (set_chan c (offer event (chans c)) chans) λ d listens.
      ground (arith, opened d, here, closed-offer event (chans c), ==_iff d c, ==_iff c d) in
    ground (arith, here, later)

pub broadcast_returns :
    {h : Hub} → IsValid h → (event : VideoEvent) → broadcast event h ≡ done tt (sent event h)
unfolding broadcast
broadcast_returns {h} v event =
    ground (arith, v.unlocked, send_all_lem event h.clients h.chans (v.channels.opened ""))

pub unsubscribe_returns :
    {h : Hub} → IsValid h → (c : ℕ) → Listens h c → unsubscribe c h ≡ done tt (closing c h)
unfolding unsubscribe
unsubscribe_returns v c listens = rw (v.unlocked, v.channels.opened "" c listens)

-- What happens to a hub. Each subscription is ended once: its channel is still a client's.
pub data Step : Hub → Hub → Type 0 where
  subscribes : {h h' : Hub} (c : ℕ) → subscribe h ≡ done c h' → Step h h'
  unsubscribes : {h h' : Hub} (c : ℕ) → Listens h c → unsubscribe c h ≡ done tt h' → Step h h'
  broadcasts : {h h' : Hub} (event : VideoEvent) → broadcast event h ≡ done tt h' → Step h h'
  reads : {h h' : Hub} (c : ℕ) → h' ≡ record h { chans = receive c h.chans } → Step h h'

pub data Reach : Hub → Type 0 where
  start : Reach new_hub
  next : {h h' : Hub} → Reach h → Step h h' → Reach h'

done_inj : {S A : Type 0} {a b : A} {s t : S} → done a s ≡ done b t → s ≡ t
done_inj e = cc

Step-IsValid : {h h' : Hub} → Step h h' → IsValid h → IsValid h'
unfolding subscribe
Step-IsValid (subscribes {h} {h'} c e) v =
    let returns : subscribe h ≡ done h.next (with_client h) = rw v.unlocked refl in
    subst IsValid (done_inj (sym returns ∙ e)) (with_client-IsValid v)
Step-IsValid (unsubscribes {h} {h'} c listens e) v =
    subst IsValid (done_inj (sym (unsubscribe_returns v c listens) ∙ e))
      (closing-IsValid v c listens)
Step-IsValid (broadcasts {h} {h'} event e) v =
    subst IsValid (done_inj (sym (broadcast_returns v event) ∙ e)) (sent-IsValid v event)
Step-IsValid (reads {h} {h'} c e) v =
    subst IsValid (sym e)
      (record { unlocked = v.unlocked; channels = Members.receive-IsValid v.channels c })

pub Reach-IsValid : {h : Hub} → Reach h → IsValid h
Reach-IsValid start = new_hub-IsValid
Reach-IsValid (next r st) = Step-IsValid st (Reach-IsValid r)
