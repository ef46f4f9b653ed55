-- ===== src/Events/Direct/Delivery.antt =====
-- The notification hub over time.
use pine_vid_backend.Prelude.{
  String, false, ◌≡◌, sym, subst, ap, ◌∙◌, arith, eq_iff, ==_iff, ℕ, Bool-cases, inl, inr,
}
use pine_vid_backend.Entity.Notification.{Notification}
use pine_vid_backend.Effects.{ok, Result}
use pine_vid_backend.Events.Chan.{mem, receive}
use pine_vid_backend.Events.Direct.{
  NotificationHub, new_notification_hub, subs, subscribe, unsubscribe, send_direct, remove_first,
}
use pine_vid_backend.Events.Direct.Invariant.{
  Listens, IsValid, closing, new_notification_hub-IsValid, joined-IsValid, closing-IsValid,
  sent-IsValid, reading-IsValid, unsubscribe_returns, unsubscribe_absent, send_direct_returns,
  mem-remove_first, subs-kept,
}

-- What happens to a hub; a subscription may be ended again.
pub data Step : NotificationHub → NotificationHub → Type 0 where
  subscribes :
      {h h' : NotificationHub} (user : String) (c : ℕ) → subscribe user h ≡ (ok c, h') → Step h h'
  unsubscribes :
      {h h' : NotificationHub} (user : String) (c : ℕ)
      → unsubscribe user c h ≡ (ok tt, h')
      → Step h h'
  sends :
      {h h' : NotificationHub} (user : String) (n : Notification)
      → send_direct user n h ≡ (ok tt, h')
      → Step h h'
  reads : {h h' : NotificationHub} (c : ℕ) → h' ≡ record h { chans = receive c h.chans } → Step h h'

pub data Reach : NotificationHub → Type 0 where
  start : Reach new_notification_hub
  next : {h h' : NotificationHub} → Reach h → Step h h' → Reach h'

state_eq : {S A : Type 0} {p q : Result A × S} → p ≡ q → p.1 ≡ q.1
state_eq e = ap (λ r. r.1) e

-- The state after an unsubscription, whether or not the channel is there.
after_unsubscribe :
    {h h' : NotificationHub}
    → IsValid h
    → (user : String) (c : ℕ) → unsubscribe user c h ≡ (ok tt, h')
    → IsValid h'
after_unsubscribe {h} v user c e = elim (Bool-cases (mem c (subs h user))) [
  | inl listens ↦
      subst IsValid (state_eq (sym (unsubscribe_returns v user c listens) ∙ e))
        (closing-IsValid v user c listens)
  | inr absent ↦ subst IsValid (state_eq (sym (unsubscribe_absent v user c absent) ∙ e)) v
]

Step-IsValid : {h h' : NotificationHub} → Step h h' → IsValid h → IsValid h'
unfolding subscribe
Step-IsValid (subscribes user c e) v = subst IsValid (state_eq e) (joined-IsValid v user)
Step-IsValid (unsubscribes user c e) v = after_unsubscribe v user c e
Step-IsValid (sends user n e) v =
    subst IsValid (state_eq (sym (send_direct_returns v user n) ∙ e)) (sent-IsValid v user n)
Step-IsValid (reads c e) v = subst IsValid (sym e) (reading-IsValid v c)

-- However subscriptions, unsubscriptions, sends and reads follow one another, also with subscriptions
-- that are ended several times, the users' channels are open, each belongs to one user once, no user
-- without channels is kept, and no buffer holds more than its 16 notifications.
pub Reach-IsValid : {h : NotificationHub} → Reach h → IsValid h
Reach-IsValid start = new_notification_hub-IsValid
Reach-IsValid (next r st) = Step-IsValid st (Reach-IsValid r)

not_listening :
    {h : NotificationHub}
    → IsValid h
    → (user : String) (c : ℕ) → mem c (subs (closing user c h) user) ≡ false
not_listening {h} v user c = ground (
  arith,
  subs-kept h user (remove_first c (subs h user)) user,
  mem-remove_first c c (subs h user) (v.channels.distinct user),
  ==_iff c c,
  eq_iff user user,
)

-- The function that ends a subscription may be called again: the first call returns, and each later
-- one returns and changes nothing.
pub unsubscribe_twice :
    {h : NotificationHub}
    → Reach h
    → (user : String) (c : ℕ) → Listens h user c
    → (h' : NotificationHub) × (unsubscribe user c h ≡ (ok tt, h'))
      × (unsubscribe user c h' ≡ (ok tt, h'))
unsubscribe_twice {h} r user c listens =
    let v = Reach-IsValid r in
    (
      closing user c h,
      unsubscribe_returns v user c listens,
      unsubscribe_absent (closing-IsValid v user c listens) user c (not_listening v user c),
    )
