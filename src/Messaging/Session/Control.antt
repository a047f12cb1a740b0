-- ===== src/Messaging/Session/Control.antt =====
-- The control operations: `pause`, `resume`, `clear`, `close`, `fail`, and the timer of the pusher.
use nats_desktop.Base.{List, Option, String, [], if◌then◌else◌, none, some, ℕ, ◌++◌, ◌∷◌}
use nats_desktop.Base.Int.{pos}
use nats_desktop.Messaging.Ring
use nats_desktop.Messaging.Pusher
use nats_desktop.Messaging.Wire.{Lifecycle, SessionState, closed, no_msg, paused, running}
use nats_desktop.Messaging.Session.State.{
  Act, Event, Session, compute_snapshot, is_closed, stop_consumer, unsubscribe, ◌⨾◌,
}
use nats_desktop.Messaging.Session.Throttle.{fire_now, notify}
use nats_desktop.Messaging.Session.Receive.{msgs_events}

pub data SessionError : Type 0 where
  session_closed : SessionError

-- The snapshot that a paused session shows: the live one, with the rate at 0.
unfoldable pub freeze : ℕ → Session → Session
freeze now s =
    let (t, st) = compute_snapshot now s in
    record t { frozen = some (record st { rate_msg_s = 0 }) }

pause_from : ℕ → Lifecycle → Session → Session × Option SessionError
unfolding freeze
pause_from now closed s = (s, some session_closed)
pause_from now paused s = (s, none)
pause_from now running s = (freeze now (record s { state = paused }), none)

unfoldable pub pause : ℕ → Session → Session × Option SessionError
unfolding pause_from
pause now s = pause_from now s.state s

resume_from : Lifecycle → Session → Session × Option SessionError
resume_from closed s = (s, some session_closed)
resume_from running s = (s, none)
resume_from paused s = (record s { state = running; frozen = none }, none)

unfoldable pub resume : Session → Session × Option SessionError
unfolding resume_from
resume s = resume_from s.state s

unfoldable pub refreeze : ℕ → Option SessionState → Session → Session
unfolding freeze
refreeze now none s = s
refreeze now (some old) s = freeze now s

unfoldable pub clear : ℕ → Session → Session × Option SessionError
unfolding refreeze
clear now s =
    if is_closed s.state
    then (s, some session_closed)
    else let t = record s {
      ring = Ring.new_ring no_msg (pos s.cap);
      total = 0;
      emitted = 0;
      filtered = 0;
    } in
      (refreeze now s.frozen t, none)

-- A call of the manager notifies only if the operation succeeds.
abbrev pub notify_if_ok :
    ℕ → Session × Option SessionError → Session × List Event × Option SessionError
notify_if_ok now (s, some e) = (s, [], some e)
notify_if_ok now (s, none) = let (t, es) = notify now s in (t, es, none)

abbrev pub stop_cctx : Option ℕ → List Event
stop_cctx none = []
stop_cctx (some c) = stop_consumer c ∷ []

abbrev pub stop_sub : Option ℕ → List Event
stop_sub none = []
stop_sub (some c) = unsubscribe c ∷ []

abbrev pub detached : Session → Session
detached s = record s { sub = none; sub_nc = none; cctx = none; cctx_nc = none; state = closed }

-- `p.Flush()`, then `p.Stop()`.
unfoldable pub flush_and_stop : Act
flush_and_stop s =
    let (p, batch) = Pusher.flush s.pusher in
    (record s { pusher = Pusher.stop p }, msgs_events batch)

unfoldable pub close : ℕ → Act
unfolding flush_and_stop
close now s =
    let t = detached s in
    if is_closed s.state
    then (t, [])
    else let (u, es) = (flush_and_stop ⨾ fire_now now) t in
      (u, stop_cctx s.cctx ++ stop_sub s.sub ++ es)

unfoldable pub fail : ℕ → String → Act
fail now text s = fire_now now (record (detached s) { sub_err = text })

-- The ticker of the session's pusher.
unfoldable pub pusher_tick : Act
pusher_tick s =
    let (p, batch) = Pusher.tick s.pusher in (record s { pusher = p }, msgs_events batch)
