-- ===== src/Messaging/Session/Delivery.antt =====
-- What a running session makes of the receipts and ticks of Arrivals.

use nats_desktop.Base.{
  Bool-cases, List, [], ap, append-nil, append_assoc, arith, false, inl, inr, length, refl, suc,
  sym, true, ℕ, ◌++◌, ◌+◌, ◌∙◌, ◌∷◌, ◌≡◌,
}
use nats_desktop.Messaging.Filter.{headers_match_filters}
use nats_desktop.Messaging.Wire.{MsgOut, Receipt, build_msg_out, running}
use nats_desktop.Messaging.Session.State.{Event, Session}
use nats_desktop.Messaging.Session.Control.{pusher_tick}
use nats_desktop.Messaging.Session.Receive.{deliver, handle}
use nats_desktop.Messaging.Session.Arrivals.{
  Arrivals, Delivers, Drains, arrives, count, deliver-Delivers, deliverable, fires, messages,
  messages-append, pusher_tick-Drains, receive,
}

-- The session's own deliverables.
abbrev pub outs : Arrivals → Session → List MsgOut
outs ms s = deliverable s.id s.subject s.header_filters s.seq ms

handle_passes :
    (now : ℕ) (m : Receipt) (s : Session)
    → headers_match_filters m.headers s.header_filters ≡ true
    → handle now m s
      ≡ deliver now
          (build_msg_out s.id (s.seq + 1) s.subject m.payload m.headers now)
          (record s { seq = s.seq + 1 })
unfolding handle
handle_passes now m s e = rw (e, handle) refl

handle_filters :
    (now : ℕ) (m : Receipt) (s : Session)
    → headers_match_filters m.headers s.header_filters ≡ false
    → handle now m s ≡ (record s { filtered = s.filtered + 1 }, [])
unfolding handle
handle_filters now m s e = rw (e, handle) refl

outs_passes :
    (now : ℕ) (m : Receipt) (ms : Arrivals) (s : Session)
    → headers_match_filters m.headers s.header_filters ≡ true
    → outs (arrives now m ∷ ms) s
      ≡ build_msg_out s.id (s.seq + 1) s.subject m.payload m.headers now
        ∷ outs ms (record s { seq = s.seq + 1 })
unfolding deliverable
outs_passes now m ms s e = rw (e, deliverable) refl

outs_filters :
    (now : ℕ) (m : Receipt) (ms : Arrivals) (s : Session)
    → headers_match_filters m.headers s.header_filters ≡ false
    → outs (arrives now m ∷ ms) s ≡ outs ms s
unfolding deliverable
outs_filters now m ms s e = rw (e, deliverable) refl

outs-keeps :
    (out : MsgOut) (ms : Arrivals) {s t : Session} {es : List Event}
    → Delivers out s t es
    → outs ms t ≡ outs ms s
outs-keeps out ms d = let (i, j, k, l, n) = d.keeps in cc

-- What `receive` makes of a list of receipts.
abbrev pub Delivered : Arrivals → Session → Session → List Event → Type 0
Delivered ms s t es =
    (messages es ++ t.pusher.buf ≡ s.pusher.buf ++ outs ms s)
    × (t.seq ≡ s.seq + length (outs ms s))
    × (t.emitted ≡ s.emitted + length (outs ms s))
    × (t.total ≡ s.total + length (outs ms s))
    × (t.total + t.filtered ≡ s.total + s.filtered + count ms)
    × (t.state ≡ running)

-- A receipt that passes, and then the rest.
then-Delivered :
    (out : MsgOut) (ms : Arrivals) (s t u : Session) (es fs : List Event)
    → Delivers out (record s { seq = s.seq + 1 }) t es
    → Delivered ms t u fs
    → let l = out ∷ outs ms (record s { seq = s.seq + 1 }) in
      (messages (es ++ fs) ++ u.pusher.buf ≡ s.pusher.buf ++ l)
      × (u.seq ≡ s.seq + length l)
      × (u.emitted ≡ s.emitted + length l)
      × (u.total ≡ s.total + length l)
      × (u.total + u.filtered ≡ s.total + s.filtered + suc (count ms))
      × (u.state ≡ running)
then-Delivered out ms s t u es fs d (order, seq, emitted, total, all, runs) =
    let k = outs-keeps out ms d in
    let k' = ap length k in
    let d1 = d.order in
    let d2 = d.emits in
    let d3 = d.counts in
    let (k1, k2, k3, k4, k5) = d.keeps in
    let b = t.pusher.buf in
    let l = outs ms (record s { seq = s.seq + 1 }) in
    (
      rw (messages-append es fs) (append_assoc (messages es) (messages fs) u.pusher.buf)
          ∙ ap (λ r. messages es ++ r) (order ∙ ap (λ r. b ++ r) k)
          ∙ sym (append_assoc (messages es) b l)
          ∙ ap (λ r. r ++ l) d1
          ∙ append_assoc s.pusher.buf (out ∷ []) l,
      omega arith,
      omega arith,
      omega arith,
      omega arith,
      runs,
    )

-- A tick, and then the rest.
tick_then-Delivered :
    (ms : Arrivals) (s t u : Session) (es fs : List Event)
    → Drains s t es
    → Delivered ms t u fs
    → Delivered ms s u (es ++ fs)
tick_then-Delivered ms s t u es fs d (order, q, n, k, all, runs) =
    let same : outs ms t ≡ outs ms s = let (i, j, k, l) = d.numbers in cc in
    let c = ap length same in
    let (e1, e2, e3, e4) = d.counts in
    (
      rw (messages-append es fs) (append_assoc (messages es) (messages fs) u.pusher.buf)
          ∙ ap (λ x. messages es ++ x) (order ∙ ap (λ x. t.pusher.buf ++ x) same)
          ∙ sym (append_assoc (messages es) t.pusher.buf (outs ms s))
          ∙ ap (λ x. x ++ outs ms s) d.order,
      omega arith,
      omega arith,
      omega arith,
      omega arith,
      runs,
    )

-- From a session that runs and whose pusher is not stopped, when receipts are handled and ticks of
-- the pusher fire one after the other, each emitting its batch before the next begins, and nothing
-- else happens to the session: the messages that they emit, followed by those that then wait in the
-- pusher, are those that waited before, followed by every receipt that passes the filters, each
-- once, in the order in which they are handled, numbered on from `seq`. As many are counted as
-- delivered, and the rest as filtered; the session still runs. Nothing is stated of a tick whose
-- batch is overtaken by a later one.
pub receive_delivers :
    (ms : Arrivals) (s : Session)
    → s.state ≡ running
    → s.pusher.stopped ≡ false
    → Delivered ms s (receive ms s).0 (receive ms s).1
unfolding receive messages deliverable count
receive_delivers [] s r o =
    (sym (append-nil s.pusher.buf), omega arith, omega arith, omega arith, omega arith, r)
receive_delivers (fires ∷ ms) s r o =
    let t = (pusher_tick s).0 in
    let d = pusher_tick-Drains s o in
    tick_then-Delivered ms s t (receive ms t).0 (pusher_tick s).1 (receive ms t).1 d
      (receive_delivers ms t (d.state ∙ r) d.open_)
receive_delivers (arrives now m ∷ ms) s r o =
    elim (Bool-cases (headers_match_filters m.headers s.header_filters)) [
      | inl e ↦
          let out = build_msg_out s.id (s.seq + 1) s.subject m.payload m.headers now in
          let s1 = record s { seq = s.seq + 1 } in
          let t = (deliver now out s1).0 in
          let d = deliver-Delivers now out s1 r o in
          let ih = receive_delivers ms t d.runs d.open_ in
          rw (handle_passes now m s e, outs_passes now m ms s e)
            (then-Delivered out ms s t (receive ms t).0 (deliver now out s1).1 (receive ms t).1 d
              ih)
      | inr e ↦
          let (order, q, n, k, all, runs) =
            receive_delivers ms (record s { filtered = s.filtered + 1 }) r o in
          rw (handle_filters now m s e, outs_filters now m ms s e)
            (order, q, n, k, omega arith, runs)
    ]
