-- ===== src/Messaging/Session/Arrivals.antt =====
-- What a session is handed, one thing after the other: receipts of its core subscription, and ticks
-- of its pusher. Each runs to its end before the next begins; Messaging.Pusher.Concurrent has the
-- batches that overtake one another.

use nats_desktop.Base.{
  List, String, [], ap, append-nil, append_assoc, ap₂, arith, false, refl, suc, true, ℕ, ◌++◌, ◌+◌,
  ◌∙◌, ◌∷◌, ◌≡◌,
}
use nats_desktop.Messaging.Ring
use nats_desktop.Messaging.Pusher
use nats_desktop.Messaging.RateMeter
use nats_desktop.Messaging.Pusher.{Pusher, add, tick}
use nats_desktop.Messaging.Filter.{headers_match_filters}
use nats_desktop.Messaging.Wire.{Filters, MsgOut, Receipt, build_msg_out, running}
use nats_desktop.Messaging.Session.State.{
  Act, Event, Session, compute_snapshot, msgs, snapshot, state_event, stop_consumer, unsubscribe,
  ◌⨾◌,
}
use nats_desktop.Messaging.Session.Throttle.{notify}
use nats_desktop.Messaging.Session.Control.{pusher_tick}
use nats_desktop.Messaging.Session.Frame.{core, notify-core}
use nats_desktop.Messaging.Session.Receive.{deliver, handle, msgs_events, push, record_receipt}

-- The subscription hands over a receipt, or the ticker of the pusher fires.
pub data Arrival : Type 0 where
  arrives : ℕ → Receipt → Arrival
  fires : Arrival

abbrev pub Arrivals : Type 0
Arrivals = List Arrival

-- The receipts among them.
unfoldable pub count : Arrivals → ℕ
count [] = 0
count (arrives now m ∷ ms) = suc (count ms)
count (fires ∷ ms) = count ms

unfoldable pub receive : Arrivals → Act
receive [] s = (s, [])
receive (arrives now m ∷ ms) s = (handle now m ⨾ receive ms) s
receive (fires ∷ ms) s = (pusher_tick ⨾ receive ms) s

-- The messages that the events carry to the frontend.
unfoldable pub messages : List Event → List MsgOut
messages [] = []
messages (msgs batch ∷ es) = batch ++ messages es
messages (state_event st ∷ es) = messages es
messages (unsubscribe c ∷ es) = messages es
messages (stop_consumer c ∷ es) = messages es

-- What a session is to deliver: the receipts that pass its filters, numbered on from `seq`.
unfoldable pub deliverable : String → String → Filters → ℕ → Arrivals → List MsgOut
deliverable id subject filters seq [] = []
deliverable id subject filters seq (fires ∷ ms) = deliverable id subject filters seq ms
deliverable id subject filters seq (arrives now m ∷ ms) =
    elim (headers_match_filters m.headers filters) [
      | true ↦
          build_msg_out id (seq + 1) subject m.payload m.headers now
          ∷ deliverable id subject filters (seq + 1) ms
      | false ↦ deliverable id subject filters seq ms
    ]

pub messages-append : (xs ys : List Event) → messages (xs ++ ys) ≡ messages xs ++ messages ys
unfolding messages
messages-append [] ys = refl
messages-append (msgs batch ∷ xs) ys = simp (messages-append xs ys, append_assoc)
messages-append (state_event st ∷ xs) ys = messages-append xs ys
messages-append (unsubscribe c ∷ xs) ys = messages-append xs ys
messages-append (stop_consumer c ∷ xs) ys = messages-append xs ys

notify-messages : (now : ℕ) (s : Session) → messages (notify now s).1 ≡ []
unfolding notify messages snapshot compute_snapshot
notify-messages now s = ground arith

push_order :
    (out : MsgOut) (p : Pusher MsgOut)
    → p.stopped ≡ false
    → (messages (msgs_events (Pusher.add out p).1) ++ (Pusher.add out p).0.buf ≡ p.buf ++ out ∷ [])
      × ((Pusher.add out p).0.stopped ≡ false)
unfolding Pusher.add messages
push_order out p r =
    ground (arith, append-nil (p.buf ++ out ∷ []), append-nil ((p.buf ++ out ∷ []) ++ []))

-- One receipt of a running session, with the filters passed.
pub record Delivers (out : MsgOut) (s t : Session) (es : List Event) : Type 0 where
  pub runs : t.state ≡ running
  pub open_ : t.pusher.stopped ≡ false
  pub order : messages es ++ t.pusher.buf ≡ s.pusher.buf ++ out ∷ []
  pub emits : t.emitted ≡ s.emitted + 1
  pub counts : t.total ≡ s.total + 1
  pub keeps :
      (t.id ≡ s.id)
      × (t.subject ≡ s.subject)
      × (t.header_filters ≡ s.header_filters)
      × (t.seq ≡ s.seq)
      × (t.filtered ≡ s.filtered)

-- The session as `deliver` leaves it behind the mutex, if it is running.
abbrev recorded : ℕ → MsgOut → Session → Session
recorded now out s = record s {
  rate = RateMeter.inc now s.rate;
  total = s.total + 1;
  ring = Ring.add out s.ring;
}

deliver_running :
    (now : ℕ) (out : MsgOut) (s : Session)
    → s.state ≡ running
    → deliver now out s ≡ (push out ⨾ notify now) (recorded now out s)
unfolding deliver
deliver_running now out s r =
    let e : record_receipt out (record s { rate = RateMeter.inc now s.rate }) ≡ recorded now out s =
      unfold record_receipt in ground arith in
    rw (e, deliver) (ground arith)

pub deliver-Delivers :
    (now : ℕ) (out : MsgOut) (s : Session)
    → s.state ≡ running
    → s.pusher.stopped ≡ false
    → Delivers out s (deliver now out s).0 (deliver now out s).1
unfolding push
deliver-Delivers now out s r o =
    let u = (push out (recorded now out s)).0 in
    let es = (push out (recorded now out s)).1 in
    let c : core (notify now u).0 ≡ core u = notify-core now u in
    let (order, open_) = push_order out s.pusher o in
    rw (deliver_running now out s r) (record {
      runs = ap (λ (t : Session). t.state) c ∙ r;
      open_ = ap (λ (t : Session). t.pusher.stopped) c ∙ open_;
      order =
          ap₂ ◌++◌
            (messages-append es (notify now u).1
              ∙ ap (λ ms. messages es ++ ms) (notify-messages now u)
              ∙ append-nil (messages es))
            (ap (λ (t : Session). t.pusher.buf) c)
          ∙ order;
      emits = ap (λ (t : Session). t.emitted) c;
      counts = ap (λ (t : Session). t.total) c;
      keeps = (
        ap (λ (t : Session). t.id) c,
        ap (λ (t : Session). t.subject) c,
        ap (λ (t : Session). t.header_filters) c,
        ap (λ (t : Session). t.seq) c,
        ap (λ (t : Session). t.filtered) c,
      );
    })

-- A tick moves what waits to the frontend, and nothing else.
pub record Drains (s t : Session) (es : List Event) : Type 0 where
  pub order : messages es ++ t.pusher.buf ≡ s.pusher.buf
  pub open_ : t.pusher.stopped ≡ false
  pub state : t.state ≡ s.state
  pub numbers :
      (t.id ≡ s.id)
      × (t.subject ≡ s.subject)
      × (t.header_filters ≡ s.header_filters)
      × (t.seq ≡ s.seq)
  pub counts :
      (t.seq ≡ s.seq) × (t.emitted ≡ s.emitted) × (t.total ≡ s.total) × (t.filtered ≡ s.filtered)

drained_pusher :
    (p : Pusher MsgOut)
    → p.stopped ≡ false
    → (messages (msgs_events (Pusher.tick p).1) ++ (Pusher.tick p).0.buf ≡ p.buf)
      × ((Pusher.tick p).0.stopped ≡ false)
unfolding Pusher.tick messages
drained_pusher p r = ground (arith, append-nil p.buf, append-nil (p.buf ++ []))

pub pusher_tick-Drains :
    (s : Session) → s.pusher.stopped ≡ false → Drains s (pusher_tick s).0 (pusher_tick s).1
unfolding pusher_tick
pusher_tick-Drains s o =
    let (order, open_) = drained_pusher s.pusher o in
    record {
      order = order;
      open_ = open_;
      state = refl;
      numbers = (refl, refl, refl, refl);
      counts = (refl, refl, refl, refl);
    }
