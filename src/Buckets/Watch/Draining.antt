-- ===== src/Buckets/Watch/Draining.antt =====
-- The emitting goroutine of a watcher, and what is queued.

use nats_desktop.Base.{
  List, Option, [], append-nil, append_assoc, arith, false, length, map, none, refl, some, suc, sym,
  ℕ, ◌*◌, ◌++◌, ◌+◌, ◌-◌, ◌∙◌, ◌∷◌, ◌≡◌, ◌≤◌,
}
use nats_desktop.Buckets.Watch.Queue.{clear, clear-stamp, held_events, map-append}
use nats_desktop.Buckets.Watch.{
  Entry, Move, WatchEvent, emit_held, emit_step, emits, receive_from, run, stamp, step,
}

-- So many turns of the emitting goroutine.
unfoldable pub turns_of_emit : ℕ → List Move
turns_of_emit ℕ.zero = []
turns_of_emit (suc n) = emits ∷ turns_of_emit n

-- What it has still to do: an event in hand is one turn, a queued one two.
unfoldable pub backlog : Entry → ℕ
backlog e = length (held_events e.held) + 2 * length e.ch

-- What is emitted, in hand and queued.
unfoldable pub due : Entry → List WatchEvent
due e = map clear e.emitted ++ (map clear (held_events e.held) ++ map clear e.ch)

-- One turn keeps what is due, and leaves less to do.
record Turn (e f : Entry) : Type 0 where
  pub keeps : due f ≡ due e
  pub less : backlog f ≤ backlog e - 1
  pub stays : f.exited ≡ e.exited

received :
    (ch : List WatchEvent) (e : Entry) → e.held ≡ none → e.ch ≡ ch → Turn e (receive_from ch e)
unfolding receive_from due backlog
received [] e h c = record { keeps = refl; less = rw (h, c) (omega arith); stays = refl }
received (x ∷ xs) e h c = record {
  keeps = rw (h, c) refl;
  less = rw (h, c) (omega arith);
  stays = refl;
}

emit_held-Turn :
    (o : Option WatchEvent) (ch : List WatchEvent) (e : Entry)
    → e.held ≡ o
    → e.ch ≡ ch
    → e.exited ≡ false
    → Turn e (emit_held o e)
unfolding emit_held receive_from due backlog
emit_held-Turn (some x) ch e h c q =
    let m = map-append e.emitted (stamp e.dropped x ∷ []) in
    let s = clear-stamp e.dropped x in
    record {
      keeps = rw (h, m) (simp (append_assoc, s) refl);
      less = rw h (omega arith);
      stays = refl;
    }
emit_held-Turn none ch e h c q = simp q (received e.ch e h refl)

emit-Turn : (cap : ℕ) (e : Entry) → e.exited ≡ false → Turn e (step cap emits e)
unfolding step emit_step
emit-Turn cap e q = emit_held-Turn e.held e.ch e refl refl q

turns-due :
    (cap n : ℕ) (e : Entry)
    → e.exited ≡ false
    → backlog e ≤ n
    → (due (run cap (turns_of_emit n) e) ≡ due e) × (backlog (run cap (turns_of_emit n) e) ≡ 0)
unfolding run turns_of_emit
turns-due cap ℕ.zero e q h = (refl, omega arith)
turns-due cap (suc n) e q h =
    let t = emit-Turn cap e q in
    let l = t.less in
    let (a, b) = turns-due cap n (step cap emits e) (t.stays ∙ q) (omega arith) in (a ∙ t.keeps, b)

nothing_held :
    (o : Option WatchEvent) (ch : List WatchEvent)
    → length (held_events o) + 2 * length ch ≡ 0
    → (o ≡ none) × (ch ≡ [])
nothing_held none [] h = (refl, refl)
nothing_held none (x ∷ xs) h = absurd (omega arith)
nothing_held (some x) ch h = absurd (omega arith)

none-due : (f : Entry) → f.held ≡ none → f.ch ≡ [] → due f ≡ map clear f.emitted
unfolding due
none-due f x y = rw (x, y) (append-nil (map clear f.emitted))

-- As long as the emitting goroutine has not exited, every event that it has in hand or that is
-- queued gets emitted: after one turn for the event in hand and two for each queued one, without
-- other moves in between, nothing is left, and the frontend has seen what it had seen, then those
-- events, each once and in their order.
pub drained :
    (cap n : ℕ) (e : Entry)
    → e.exited ≡ false
    → backlog e ≤ n
    → let f = run cap (turns_of_emit n) e in
      (f.held ≡ none)
      × (f.ch ≡ [])
      × (map clear f.emitted
          ≡ map clear e.emitted ++ (map clear (held_events e.held) ++ map clear e.ch))
unfolding due backlog
drained cap n e q h =
    let f = run cap (turns_of_emit n) e in
    let (a, b) = turns-due cap n e q h in
    let (x, y) = nothing_held f.held f.ch b in (x, y, sym (none-due f x y) ∙ a)
