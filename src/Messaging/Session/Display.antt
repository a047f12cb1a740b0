-- ===== src/Messaging/Session/Display.antt =====
-- A paused session: what is received changes nothing that is seen.

use nats_desktop.Base.{List, [], ap₂, arith, length, none, refl, some, ℕ, ◌++◌, ◌+◌, ◌∙◌, ◌∷◌, ◌≡◌}
use nats_desktop.Messaging.Wire.{Receipt, SessionState, paused, running}
use nats_desktop.Messaging.Session.State.{Act, Session, compute_snapshot, snapshot, ◌⨾◌}
use nats_desktop.Messaging.Session.Receive.{deliver, handle, record_receipt}
use nats_desktop.Messaging.Session.Control.{freeze, pause, resume}

abbrev pub Receipts : Type 0
Receipts = List (ℕ × Receipt)

pub receive : Receipts → Act
receive [] s = (s, [])
receive ((now, m) ∷ ms) s = (handle now m ⨾ receive ms) s

-- What a paused session keeps while it receives.
abbrev pub Held : Session → Session → Type 0
Held s t =
    (t.state ≡ s.state) × (t.frozen ≡ s.frozen) × (t.pusher ≡ s.pusher) × (t.emitted ≡ s.emitted)

handle_paused :
    (now : ℕ) (m : Receipt) (s : Session)
    → s.state ≡ paused
    → let t = (handle now m s).0 in
      ((handle now m s).1 ≡ []) × Held s t × (t.total + t.filtered ≡ s.total + s.filtered + 1)
unfolding handle deliver record_receipt
handle_paused now m s p = ground arith

-- While a session is paused, receipts emit nothing: neither messages nor state events. The snapshot
-- shown, the pusher and the number of emitted messages stay as they are, and every receipt is
-- still counted, in the total or as filtered.
pub receive_paused :
    (ms : Receipts) (s : Session)
    → s.state ≡ paused
    → let t = (receive ms s).0 in
      ((receive ms s).1 ≡ []) × Held s t × (t.total + t.filtered ≡ s.total + s.filtered + length ms)
unfolding receive
receive_paused [] s p = (refl, (refl, refl, refl, refl), omega arith)
receive_paused ((now, m) ∷ ms) s p =
    let t = (handle now m s).0 in
    let (es, held, c) = handle_paused now m s p in
    let (a, b, d, e) = held in
    let (fs, kept, n) = receive_paused ms t (a ∙ p) in
    let (g, h, i, j) = kept in (ap₂ ◌++◌ es fs, (g ∙ a, h ∙ b, i ∙ d, j ∙ e), omega arith)

pub pause_running :
    (now : ℕ) (s : Session)
    → s.state ≡ running
    → pause now s ≡ (freeze now (record s { state = paused }), none)
unfolding pause
pause_running now s r = rw (r, pause) refl

resume_paused :
    (s : Session)
    → s.state ≡ paused
    → resume s ≡ (record s { state = running; frozen = none }, none)
unfolding resume
resume_paused s r = rw (r, resume) refl

pub snapshot_frozen :
    (now : ℕ) (st : SessionState) (s : Session) → s.frozen ≡ some st → snapshot now s ≡ (s, st)
unfolding snapshot
snapshot_frozen now st s f = rw (f, snapshot) refl

-- The snapshot that a pause freezes.
abbrev pub frozen_at : ℕ → Session → SessionState
frozen_at now s = record (compute_snapshot now (record s { state = paused })).1 { rate_msg_s = 0 }

-- Pausing a running session, receiving, and resuming: nothing is emitted on the way and nothing of
-- what came is handed to the pusher, so a resume replays nothing; the session runs again, with a
-- live display.
pub pause-receive-resume :
    (now : ℕ) (ms : Receipts) (s : Session)
    → s.state ≡ running
    → let t = (receive ms (pause now s).0).0 in
      let u = (resume t).0 in
      ((receive ms (pause now s).0).1 ≡ [])
      × ((resume t).1 ≡ none)
      × (u.state ≡ running)
      × (u.frozen ≡ none)
      × (u.pusher ≡ s.pusher)
      × (u.emitted ≡ s.emitted)
unfolding freeze compute_snapshot
pause-receive-resume now ms s r =
    let p = freeze now (record s { state = paused }) in
    let t = (receive ms p).0 in
    let (es, held, n) = receive_paused ms p refl in
    rw (pause_running now s r, resume_paused t held.0) (es, refl, refl, refl, held.2, held.3)

-- A session that was running and is paused shows the state paused, the rate 0, and the total and
-- the number of filtered messages of the moment of the pause, whenever it is looked at and
-- whatever has been received since.
pub snapshot-receive-pause :
    (at now : ℕ) (ms : Receipts) (s : Session)
    → s.state ≡ running
    → let t = (receive ms (pause at s).0).0 in
      let st = (snapshot now t).1 in
      (st.state ≡ paused) × (st.rate_msg_s ≡ 0) × (st.total ≡ s.total) × (st.filtered ≡ s.filtered)
unfolding freeze compute_snapshot
snapshot-receive-pause at now ms s r =
    let p = freeze at (record s { state = paused }) in
    let t = (receive ms p).0 in
    let (es, held, n) = receive_paused ms p refl in
    rw (pause_running at s r, snapshot_frozen now (frozen_at at s) t held.1)
      (refl, refl, refl, refl)
