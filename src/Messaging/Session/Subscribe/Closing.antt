-- ===== src/Messaging/Session/Subscribe/Closing.antt =====
-- The subscriptions before and after `close` of sessions.go.

use nats_desktop.Base.{
  Bool, Bool-cases, List, Option, [], arith, false, inl, inr, none, refl, some, true, ℕ, ◌++◌, ◌+◌,
  ◌≡◌,
}
use nats_desktop.Messaging.Wire.{MsgOut}
use nats_desktop.Messaging.Session.Receive.{msgs_events}
use nats_desktop.Messaging.Pusher
use nats_desktop.Messaging.Session.State.{Session, is_closed, ◌⨾◌}
use nats_desktop.Messaging.Session.Throttle.{fire_now}
use nats_desktop.Messaging.Session.Control.{close, detached, flush_and_stop, stop_cctx, stop_sub}
use nats_desktop.Messaging.Session.Subscribe.Balance.{
  Balanced, count_in, drops, drops-append, fire_now-drops, fire_now-holds, holds, stop_cctx-drops,
  stop_sub-drops,
}

-- Closing is one of the acts that may happen during the network call.
msgs_events-drops : (p : ℕ → Bool) (o : Option (List MsgOut)) → drops p (msgs_events o) ≡ 0
unfolding drops
msgs_events-drops p none = refl
msgs_events-drops p (some b) = refl

flush_and_stop-drops : (p : ℕ → Bool) (s : Session) → drops p (flush_and_stop s).1 ≡ 0
unfolding flush_and_stop
flush_and_stop-drops p s = msgs_events-drops p (Pusher.flush s.pusher).1

flush_and_stop-holds : (p : ℕ → Bool) (s : Session) → holds p (flush_and_stop s).0 ≡ holds p s
unfolding flush_and_stop holds
flush_and_stop-holds p s = refl

no-drops : (p : ℕ → Bool) → drops p [] ≡ 0
unfolding drops
no-drops p = refl

close-closed : (now : ℕ) (s : Session) → is_closed s.state ≡ true → close now s ≡ (detached s, [])
unfolding close
close-closed now s e = rw e refl

close-open :
    (now : ℕ) (s : Session)
    → is_closed s.state ≡ false
    → close now s ≡ (
      ((flush_and_stop ⨾ fire_now now) (detached s)).0,
      stop_cctx s.cctx ++ stop_sub s.sub ++ ((flush_and_stop ⨾ fire_now now) (detached s)).1,
    )
unfolding close
close-open now s e = rw e refl

detached-holds : (p : ℕ → Bool) (s : Session) → holds p (detached s) ≡ 0
unfolding holds count_in
detached-holds p s = refl

holds-counts : (p : ℕ → Bool) (s : Session) → holds p s ≡ count_in p s.sub + count_in p s.cctx
unfolding holds
holds-counts p s = refl

pub close-Balanced : (now : ℕ) → Balanced (close now)
close-Balanced now p s inv = elim (Bool-cases (is_closed s.state)) [
  | inl e ↦
      let z = inv e in
      let d = detached-holds p s in let n = no-drops p in rw (close-closed now s e) (omega arith)
  | inr e ↦
      let t = (flush_and_stop (detached s)).0 in
      let f = flush_and_stop-drops p (detached s) in
      let x = fire_now-drops p now t in
      let y = fire_now-holds p now t in
      let a =
        drops-append p (stop_cctx s.cctx ++ stop_sub s.sub)
          ((flush_and_stop ⨾ fire_now now) (detached s)).1 in
      let b = drops-append p (stop_cctx s.cctx) (stop_sub s.sub) in
      let c = drops-append p (flush_and_stop (detached s)).1 (fire_now now t).1 in
      let u = stop_cctx-drops p s.cctx in
      let v = stop_sub-drops p s.sub in
      let w = flush_and_stop-holds p (detached s) in
      let d = detached-holds p s in
      let k = holds-counts p s in rw (close-open now s e) (omega arith)
]
