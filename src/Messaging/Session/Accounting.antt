-- ===== src/Messaging/Session/Accounting.antt =====
-- The books of a session, under every interleaving of its critical sections: the display counters
-- that the snapshot computes are those of the ring.

use nats_desktop.Base.Int.{pos}
use nats_desktop.Base.{
  Bool-cases, List, Option, String, [], ap, arith, inl, inr, length, length-append, none, refl,
  some, sym, true, ℕ, ◌++◌, ◌+◌, ◌∙◌, ◌∷◌, ◌≡◌, ◌≢◌,
}
use nats_desktop.Messaging.Ring
use nats_desktop.Messaging.Pusher
use nats_desktop.Messaging.Ring.History.{Accounts, add-Accounts, length-newest, new_ring-Accounts}
use nats_desktop.Messaging.Wire.{
  Filters, JsPosition, MsgOut, SessionState, closed, no_msg, paused, running,
}
use nats_desktop.Messaging.Pusher.{PushMode, Pusher, add, new_pusher, tick}
use nats_desktop.Messaging.Session.Steps.{
  Step, Steps, attaches, clears, counts_rate, decay, detaches, fails, filters_out, fires_now, here,
  looks, next, notifies, pauses, pushes, records, resumes, stops, takes_seq, ticks, timer,
}
use nats_desktop.Messaging.Session.State.{
  Session, compute_snapshot, is_closed, new_session, snapshot,
}
use nats_desktop.Messaging.Session.Receive.{push, record_receipt}
use nats_desktop.Messaging.Session.Control.{
  clear, flush_and_stop, freeze, pause, pusher_tick, refreeze, resume,
}
use nats_desktop.Messaging.Session.Frame.{
  core, decay_fire-core, fire_now-core, notify-core, snapshot-core, timer_fires-core,
}

-- The ring has been given `total` messages since it was made.
record Books (s : Session) : Type 0 where
  past : List MsgOut
  ring : Accounts s.cap past s.ring
  counted : length past ≡ s.total

-- The display is frozen exactly while the session is paused, until it is closed; and only a closed
-- session has a stopped pusher.
pub record Coherent (s : Session) : Type 0 where
  pub live : s.state ≡ running → s.frozen ≡ none
  pub frozen : s.state ≡ paused → s.frozen ≢ none
  pub stopped : s.pusher.stopped ≡ true → s.state ≡ closed

record Inv (s : Session) : Type 0 where
  books : Books s
  coherent : Coherent s

-- The fields that the books are about.
abbrev Booked : Session → Session → Type 0
Booked s t = (t.cap ≡ s.cap) × (t.ring ≡ s.ring) × (t.total ≡ s.total)

Books-cong : (s t : Session) → Booked s t → Books s → Books t
Books-cong s t (c, r, n) h = record {
  past = h.past;
  ring = rw (c, r) h.ring;
  counted = h.counted ∙ sym n;
}

-- The fields that coherence is about.
abbrev Shown : Session → Session → Type 0
Shown s t = (t.state ≡ s.state) × (t.frozen ≡ s.frozen) × (t.pusher.stopped ≡ s.pusher.stopped)

Coherent-cong : (s t : Session) → Shown s t → Coherent s → Coherent t
Coherent-cong s t (a, f, p) h = record {
  live = rw (a, f) h.live;
  frozen = rw (a, f) h.frozen;
  stopped = rw (a, p) h.stopped;
}

-- An invariant of the core is kept by whatever keeps the core.
core-Inv : (s t : Session) → core t ≡ core s → Inv s → Inv t
core-Inv s t e h = record {
  books =
      Books-cong s t
        (
          ap (λ (u : Session). u.cap) e,
          ap (λ (u : Session). u.ring) e,
          ap (λ (u : Session). u.total) e,
        )
        h.books;
  coherent =
      Coherent-cong s t
        (
          ap (λ (u : Session). u.state) e,
          ap (λ (u : Session). u.frozen) e,
          ap (λ (u : Session). u.pusher.stopped) e,
        )
        h.coherent;
}

record_receipt-Books : (out : MsgOut) (s : Session) → Books s → Books (record_receipt out s)
unfolding record_receipt
record_receipt-Books out s h = elim (Bool-cases (is_closed s.state)) [
  | inl e ↦ rw (e, record_receipt) h
  | inr e ↦
      rw (e, record_receipt)
        (record {
          past = h.past ++ out ∷ [];
          ring = add-Accounts s.cap out h.past s.ring h.ring;
          counted = omega (arith, length-append h.past (out ∷ []), h.counted);
        })
]

record_receipt-Shown : (out : MsgOut) (s : Session) → Shown s (record_receipt out s)
unfolding record_receipt
record_receipt-Shown out s = ground arith

push-Booked : (out : MsgOut) (s : Session) → Booked s (push out s).0
unfolding push
push-Booked out s = (refl, refl, refl)

push-Shown : (out : MsgOut) (s : Session) → Shown s (push out s).0
unfolding push Pusher.add
push-Shown out s = ground arith

tick-Shown : (s : Session) → Shown s (pusher_tick s).0
unfolding pusher_tick Pusher.tick
tick-Shown s = ground arith

tick-Booked : (s : Session) → Booked s (pusher_tick s).0
unfolding pusher_tick
tick-Booked s = (refl, refl, refl)

pause-Booked : (now : ℕ) (s : Session) → Booked s (pause now s).0
unfolding pause compute_snapshot
pause-Booked now s = ground arith

pause-Coherent : (now : ℕ) (s : Session) → Coherent s → Coherent (pause now s).0
unfolding pause compute_snapshot
pause-Coherent now s h = ground arith

resume-Booked : (s : Session) → Booked s (resume s).0
unfolding resume
resume-Booked s = ground arith

resume-Coherent : (s : Session) → Coherent s → Coherent (resume s).0
unfolding resume
resume-Coherent s h = ground arith

clear-Coherent : (now : ℕ) (s : Session) → Coherent s → Coherent (clear now s).0
unfolding clear compute_snapshot
clear-Coherent now s h = ground arith

refreeze-Booked : (now : ℕ) (f : Option SessionState) (s : Session) → Booked s (refreeze now f s)
unfolding refreeze freeze compute_snapshot
refreeze-Booked now none s = (refl, refl, refl)
refreeze-Booked now (some old) s = (refl, refl, refl)

fresh-Books : (s : Session) → s.ring ≡ Ring.new_ring no_msg (pos s.cap) → s.total ≡ 0 → Books s
fresh-Books s r n = record {
  past = [];
  ring = rw r (new_ring-Accounts no_msg (pos s.cap));
  counted = sym n;
}

clear-Books : (now : ℕ) (s : Session) → Books s → Books (clear now s).0
unfolding clear
clear-Books now s h = elim (Bool-cases (is_closed s.state)) [
  | inl e ↦ rw (e, clear) h
  | inr e ↦
      let t = record s {
        ring = Ring.new_ring no_msg (pos s.cap);
        total = 0;
        emitted = 0;
        filtered = 0;
      } in
      rw (e, clear)
        (Books-cong t (refreeze now s.frozen t) (refreeze-Booked now s.frozen t)
          (fresh-Books t refl refl))
]

Step-Inv : (s t : Session) → Step s t → Inv s → Inv t
unfolding flush_and_stop
Step-Inv s t (counts_rate now e) h = rw e (core-Inv s _ refl h)
Step-Inv s t (filters_out e) h = rw e (record {
  books = Books-cong s _ (refl, refl, refl) h.books;
  coherent = Coherent-cong s _ (refl, refl, refl) h.coherent;
})
Step-Inv s t (takes_seq e) h = rw e (record {
  books = Books-cong s _ (refl, refl, refl) h.books;
  coherent = Coherent-cong s _ (refl, refl, refl) h.coherent;
})
Step-Inv s t (records out e) h = rw e (record {
  books = record_receipt-Books out s h.books;
  coherent = Coherent-cong s _ (record_receipt-Shown out s) h.coherent;
})
Step-Inv s t (pushes out e) h = rw e (record {
  books = Books-cong s _ (push-Booked out s) h.books;
  coherent = Coherent-cong s _ (push-Shown out s) h.coherent;
})
Step-Inv s t (ticks e) h = rw e (record {
  books = Books-cong s _ (tick-Booked s) h.books;
  coherent = Coherent-cong s _ (tick-Shown s) h.coherent;
})
Step-Inv s t (notifies now e) h = rw e (core-Inv s _ (notify-core now s) h)
Step-Inv s t (fires_now now e) h = rw e (core-Inv s _ (fire_now-core now s) h)
Step-Inv s t (timer now e) h = rw e (core-Inv s _ (timer_fires-core now s) h)
Step-Inv s t (decay now e) h = rw e (core-Inv s _ (decay_fire-core now s) h)
Step-Inv s t (looks now e) h = rw e (core-Inv s _ (snapshot-core now s) h)
Step-Inv s t (pauses now e) h = rw e (record {
  books = Books-cong s _ (pause-Booked now s) h.books;
  coherent = pause-Coherent now s h.coherent;
})
Step-Inv s t (resumes e) h = rw e (record {
  books = Books-cong s _ (resume-Booked s) h.books;
  coherent = resume-Coherent s h.coherent;
})
Step-Inv s t (clears now e) h =
    rw e (record { books = clear-Books now s h.books; coherent = clear-Coherent now s h.coherent })
Step-Inv s t (detaches e) h = rw e (record {
  books = Books-cong s _ (refl, refl, refl) h.books;
  coherent = record { live = λ q. cc; frozen = λ q. cc; stopped = λ q. refl };
})
Step-Inv s t (fails text e) h = rw e (record {
  books = Books-cong s _ (refl, refl, refl) h.books;
  coherent = record { live = λ q. cc; frozen = λ q. cc; stopped = λ q. refl };
})
Step-Inv s t (stops c e) h = rw e (record {
  books = Books-cong s _ (refl, refl, refl) h.books;
  coherent = record { live = h.coherent.live; frozen = h.coherent.frozen; stopped = λ q. c };
})
Step-Inv s t (attaches sub nc cctx cctx_nc o e) h = rw e (record {
  books = Books-cong s _ (refl, refl, refl) h.books;
  coherent = Coherent-cong s _ (refl, refl, refl) h.coherent;
})

Steps-Inv : (s : Session) {t : Session} → Steps s t → Inv s → Inv t
Steps-Inv s here h = h
Steps-Inv s (next {t = m} r st) h = Step-Inv m _ st (Steps-Inv s r h)

module _ (id subject : String) (js : Option JsPosition) (mode : PushMode) (buf : ℕ)
    (filters : Filters) (made : ℕ) where
  abbrev start : Session
  start = new_session id subject js mode buf filters made

  new_session-Inv : Inv start
  unfolding new_session Pusher.new_pusher
  new_session-Inv = record {
    books = fresh-Books start refl refl;
    coherent = record { live = λ e. refl; frozen = λ e. cc; stopped = λ e. cc };
  }

  -- Whatever a session's goroutines do, and in whatever order: its display is frozen while it is
  -- paused and live while it runs, and only a closed session has a stopped pusher.
  pub Steps-Coherent : {s : Session} → Steps start s → Coherent s
  Steps-Coherent r = (Steps-Inv start r new_session-Inv).coherent

  -- Whatever a session's goroutines do, and in whatever order: unless the display is frozen, the
  -- counters of a snapshot are those of the ring, and every delivered receipt since the last clear
  -- is either dropped or in the buffer.
  pub snapshot_exact :
      {s : Session} (now : ℕ)
      → Steps start s
      → s.frozen ≡ none
      → let st = (snapshot now s).1 in
        (st.dropped ≡ s.ring.dropped)
        × (st.buffer_used ≡ s.ring.size)
        × (st.dropped + st.buffer_used ≡ st.total)
  unfolding snapshot compute_snapshot
  snapshot_exact {s} now r f =
      let b = (Steps-Inv start r new_session-Inv).books in
      let n = b.ring.contents.sized in
      let l = length-newest s.cap b.past in ground (arith, b.ring.dropped, b.counted, n, l)
