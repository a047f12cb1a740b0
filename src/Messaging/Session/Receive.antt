-- ===== src/Messaging/Session/Receive.antt =====
-- The receive path: `handle` and `deliver` of sessions.go, `handleJS` of jsposition.go.

use nats_desktop.Base.{List, Option, [], if◌then◌else◌, none, not, some, ℕ, ◌+◌, ◌∷◌}
use nats_desktop.Messaging.Ring
use nats_desktop.Messaging.Pusher
use nats_desktop.Messaging.RateMeter
use nats_desktop.Messaging.Filter.{headers_match_filters}
use nats_desktop.Messaging.Wire.{MsgOut, Receipt, build_msg_out}
use nats_desktop.Messaging.Session.State.{Act, Event, Session, is_closed, is_running, msgs, ◌⨾◌}
use nats_desktop.Messaging.Session.Throttle.{notify}

abbrev pub msgs_events : Option (List MsgOut) → List Event
msgs_events none = []
msgs_events (some batch) = msgs batch ∷ []

-- What `deliver` does under the session mutex.
unfoldable pub record_receipt : MsgOut → Session → Session
record_receipt out s =
    if is_closed s.state then s else record s { total = s.total + 1; ring = Ring.add out s.ring }

-- What `deliver` does after it: only for a session that was running under the mutex.
unfoldable pub push : MsgOut → Act
push out s =
    let (p, batch) = Pusher.add out s.pusher in
    (record s { emitted = s.emitted + 1; pusher = p }, msgs_events batch)

unfoldable pub deliver : ℕ → MsgOut → Act
deliver now out s =
    let t = record s { rate = RateMeter.inc now s.rate } in
    let u = record_receipt out t in
    if is_running u.state then (push out ⨾ notify now) u else (u, [])

unfoldable pub handle : ℕ → Receipt → Act
handle now m s =
    if not (headers_match_filters m.headers s.header_filters)
    then (record s { filtered = s.filtered + 1 }, [])
    else let out = build_msg_out s.id (s.seq + 1) s.subject m.payload m.headers now in
      deliver now out (record s { seq = s.seq + 1 })

-- `int64(meta.Sequence.Stream)`; a receipt without metadata keeps 0.
abbrev pub with_stream_seq : Option ℕ → MsgOut → MsgOut
with_stream_seq none out = out
with_stream_seq (some n) out = record out { stream_seq = n }

unfoldable pub handle_js : ℕ → Receipt → Act
handle_js now m s =
    if not (headers_match_filters m.headers s.header_filters)
    then (record s { filtered = s.filtered + 1 }, [])
    else let out = build_msg_out s.id (s.seq + 1) s.subject m.payload m.headers now in
      deliver now (with_stream_seq m.stream_seq out) (record s { seq = s.seq + 1 })
