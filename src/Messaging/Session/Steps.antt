-- ===== src/Messaging/Session/Steps.antt =====
-- A session's critical sections, one by one. The handlers are sequences of them, and goroutines can
-- interleave them in any order, so what every section keeps holds under every schedule.

use nats_desktop.Base.{Bool-cases, Option, String, inl, inr, refl, ℕ, ◌+◌, ◌≡◌, ◌≢◌}
use nats_desktop.Messaging.RateMeter
use nats_desktop.Messaging.Wire.{MsgOut, Receipt, closed}
use nats_desktop.Messaging.Filter.{headers_match_filters}
use nats_desktop.Messaging.Session.State.{Session, is_closed, is_running, snapshot}
use nats_desktop.Messaging.Session.Throttle.{decay_fire, fire_now, notify, timer_fires}
use nats_desktop.Messaging.Session.Receive.{deliver, handle, handle_js, push, record_receipt}
use nats_desktop.Messaging.Session.Control.{
  clear, close, detached, fail, flush_and_stop, pause, pusher_tick, resume,
}

abbrev pub attached : Option ℕ → Option ℕ → Option ℕ → Option ℕ → Session → Session
attached sub nc cctx cctx_nc s = record s { sub = sub; sub_nc = nc; cctx = cctx; cctx_nc = cctx_nc }

pub data Step (s t : Session) : Type 0 where
  counts_rate : (now : ℕ) → t ≡ record s { rate = RateMeter.inc now s.rate } → Step s t
  filters_out : t ≡ record s { filtered = s.filtered + 1 } → Step s t
  takes_seq : t ≡ record s { seq = s.seq + 1 } → Step s t
  records : (out : MsgOut) → t ≡ record_receipt out s → Step s t
  pushes : (out : MsgOut) → t ≡ (push out s).0 → Step s t
  ticks : t ≡ (pusher_tick s).0 → Step s t
  notifies : (now : ℕ) → t ≡ (notify now s).0 → Step s t
  fires_now : (now : ℕ) → t ≡ (fire_now now s).0 → Step s t
  timer : (now : ℕ) → t ≡ (timer_fires now s).0 → Step s t
  decay : (now : ℕ) → t ≡ (decay_fire now s).0 → Step s t
  looks : (now : ℕ) → t ≡ (snapshot now s).0 → Step s t
  pauses : (now : ℕ) → t ≡ (pause now s).0 → Step s t
  resumes : t ≡ (resume s).0 → Step s t
  clears : (now : ℕ) → t ≡ (clear now s).0 → Step s t
  detaches : t ≡ detached s → Step s t
  fails : (text : String) → t ≡ record (detached s) { sub_err = text } → Step s t
  -- Only `close` gets here, behind its own first section.
  stops : s.state ≡ closed → t ≡ (flush_and_stop s).0 → Step s t
  attaches :
      (sub nc cctx cctx_nc : Option ℕ)
      → s.state ≢ closed
      → t ≡ attached sub nc cctx cctx_nc s
      → Step s t

pub data Steps (s : Session) : Session → Type 0 where
  here : Steps s s
  next : {t u : Session} → Steps s t → Step t u → Steps s u

pub Steps-trans : {s t u : Session} → Steps s t → Steps t u → Steps s u
Steps-trans r here = r
Steps-trans r (next q st) = next (Steps-trans r q) st

pub one : {s t : Session} → Step s t → Steps s t
one st = next here st

-- The handlers are made of these sections.
pub deliver-Steps : (now : ℕ) (out : MsgOut) (s : Session) → Steps s (deliver now out s).0
unfolding deliver
deliver-Steps now out s =
    let t = record s { rate = RateMeter.inc now s.rate } in
    let u = record_receipt out t in
    let upto = next (one (counts_rate now refl)) (records out refl) in
    elim (Bool-cases (is_running u.state)) [
      | inl e ↦ rw (e, deliver) (next (next upto (pushes out refl)) (notifies now refl))
      | inr e ↦ rw (e, deliver) upto
    ]

pub handle-Steps : (now : ℕ) (m : Receipt) (s : Session) → Steps s (handle now m s).0
unfolding handle
handle-Steps now m s = elim (Bool-cases (headers_match_filters m.headers s.header_filters)) [
  | inl e ↦ rw (e, handle) (Steps-trans (one (takes_seq refl)) (deliver-Steps now _ _))
  | inr e ↦ rw (e, handle) (one (filters_out refl))
]

pub handle_js-Steps : (now : ℕ) (m : Receipt) (s : Session) → Steps s (handle_js now m s).0
unfolding handle_js
handle_js-Steps now m s = elim (Bool-cases (headers_match_filters m.headers s.header_filters)) [
  | inl e ↦ rw (e, handle_js) (Steps-trans (one (takes_seq refl)) (deliver-Steps now _ _))
  | inr e ↦ rw (e, handle_js) (one (filters_out refl))
]

pub close-Steps : (now : ℕ) (s : Session) → Steps s (close now s).0
unfolding close
close-Steps now s = elim (Bool-cases (is_closed s.state)) [
  | inl e ↦ rw (e, close) (one (detaches refl))
  | inr e ↦ rw (e, close) (next (next (one (detaches refl)) (stops refl refl)) (fires_now now refl))
]

pub fail-Steps : (now : ℕ) (text : String) (s : Session) → Steps s (fail now text s).0
unfolding fail
fail-Steps now text s = next (one (fails text refl)) (fires_now now refl)
