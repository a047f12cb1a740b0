-- ===== src/Messaging/Session/Faults.antt =====
-- What a session does at the edges of its life: the throttle of its state events, a close while it
-- is paused, a close after a failure, and the pusher's ticker during a pause.

use nats_desktop.Base.{
  List, String, [], ap, arith, false, length, length-append, none, refl, some, ℕ, ◌+◌, ◌∙◌, ◌∷◌,
  ◌≡◌, ◌≢◌, ◌≤◌,
}
use nats_desktop.Messaging.Pusher
use nats_desktop.Messaging.Pusher.{Pusher, tick}
use nats_desktop.Messaging.Wire.{SessionState, closed, paused, running}
use nats_desktop.Messaging.Session.State.{
  Act, Session, compute_snapshot, is_closed, msgs, snapshot, ◌⨾◌,
}
use nats_desktop.Messaging.Session.Throttle.{notify, state_throttle_interval}
use nats_desktop.Messaging.Session.Control.{
  close, detached, fail, flush_and_stop, freeze, pause, pusher_tick,
}
use nats_desktop.Messaging.Session.Frame.{fire_now-core}
use nats_desktop.Messaging.Session.Display.{frozen_at, pause_running, snapshot_frozen}

-- Calls of `notify`, at the times of a list.
pub notify_all : List ℕ → Act
notify_all [] s = (s, [])
notify_all (now ∷ l) s = (notify now ⨾ notify_all l) s

-- Every time is at least the throttle interval after `last`.
unfoldable pub AllPast : ℕ → List ℕ → Type 0
AllPast last [] = Unit
AllPast last (now ∷ l) = (last + state_throttle_interval ≤ now) × AllPast last l

notify_fires :
    (now : ℕ) (s : Session)
    → s.throttle.timer ≡ none
    → s.throttle.last + state_throttle_interval ≤ now
    → (length (notify now s).1 ≡ 1)
      × ((notify now s).0.throttle.timer ≡ none)
      × ((notify now s).0.throttle.last ≡ s.throttle.last)
unfolding notify snapshot compute_snapshot
notify_fires now s t h = ground arith

-- With no trailing timer set, every call of `notify` that comes at least an interval after the last
-- recorded emission emits a state event at once, however close the calls are to one another: the
-- leading edge does not record its emission.
pub notify_all-unthrottled :
    (l : List ℕ) (s : Session)
    → s.throttle.timer ≡ none
    → AllPast s.throttle.last l
    → length (notify_all l s).1 ≡ length l
unfolding notify_all AllPast
notify_all-unthrottled [] s t h = refl
notify_all-unthrottled (now ∷ l) s t (h, hs) =
    let (n, timer, last) = notify_fires now s t h in
    let u = (notify now s).0 in
    let ih = notify_all-unthrottled l u timer (rw last hs) in
    omega (arith, length-append (notify now s).1 (notify_all l u).1)

close_frozen :
    (now later : ℕ) (st : SessionState) (s : Session)
    → is_closed s.state ≡ false
    → s.frozen ≡ some st
    → let t = (close now s).0 in (t.state ≡ closed) × ((snapshot later t).1 ≡ st)
unfolding close flush_and_stop
close_frozen now later st s e f =
    let k = fire_now-core now (flush_and_stop (detached s)).0 in
    let g = ap (λ (t : Session). t.frozen) k ∙ f in
    let r = ap (λ (t : Session). t.state) k in
    rw (e, close) (r, ap (λ (p : Session × SessionState). p.1) (snapshot_frozen later st _ g))

-- A running session that is paused and then closed is closed, but a snapshot of it at any later
-- time still says that it is paused: the frozen snapshot is not cleared.
pub snapshot-close-pause :
    (at now later : ℕ) (s : Session)
    → s.state ≡ running
    → let t = (close now (pause at s).0).0 in
      (t.state ≡ closed) × ((snapshot later t).1.state ≡ paused)
unfolding freeze compute_snapshot
snapshot-close-pause at now later s r =
    let p = freeze at (record s { state = paused }) in
    let (a, b) = close_frozen now later (frozen_at at s) p refl refl in
    rw (pause_running at s r) (a, ap (λ (st : SessionState). st.state) b)

close_closed : (now : ℕ) (s : Session) → s.state ≡ closed → close now s ≡ (detached s, [])
unfolding close
close_closed now s e = rw (e, close) refl

-- A session that failed keeps its pusher running, and a close after the failure does not stop it
-- either.
pub close-fail :
    (at now : ℕ) (text : String) (s : Session)
    → let t = (close now (fail at text s).0).0 in
      (t.state ≡ closed) × (t.pusher ≡ s.pusher) × ((close now (fail at text s).0).1 ≡ [])
unfolding fail
close-fail at now text s =
    let k = fire_now-core at (record (detached s) { sub_err = text }) in
    rw (close_closed now (fail at text s).0 (ap (λ (t : Session). t.state) k))
      (refl, ap (λ (t : Session). t.pusher) k, refl)

-- What waits in the pusher of a running session when it is paused is still emitted by the next
-- tick, as one batch, unless the pusher is stopped.
pub pusher_tick-pause :
    (at : ℕ) (s : Session)
    → s.state ≡ running
    → s.pusher.stopped ≡ false
    → s.pusher.buf ≢ []
    → (pusher_tick (pause at s).0).1 ≡ msgs s.pusher.buf ∷ []
unfolding freeze compute_snapshot pusher_tick Pusher.tick
pusher_tick-pause at s r o b = rw (pause_running at s r) (ground arith)
