-- ===== src/Buckets/Watch/Progress.antt =====
-- The calls of `offer`, and the turns that they need.

use nats_desktop.Base.{
  Bool-cases, List, Option, [], arith, if◌then◌else◌, inl, inr, length, ltb, none, refl, some, suc,
  ℕ, ◌-◌, ◌<◌, ◌∷◌, ◌≡◌, ◌≤◌,
}
use nats_desktop.Buckets.Watch.Queue.{Inv, launch-run-Inv, step-Inv}
use nats_desktop.Buckets.Watch.{
  Entry, Move, Reader, WatchEvent, drop_oldest, drops_oldest, emit_held, emit_step, emits,
  exit_from, exit_step, exits, goes_on, idle, launch, offer_next, offer_step, offers, receive_from,
  run, sends, step, stop, stops,
}

-- No other call of `offer` begins.
abbrev pub NoOffer : List Move → Type 0
NoOffer [] = Unit
NoOffer (offers v ∷ ms) = ⊥
NoOffer (m ∷ ms) = NoOffer ms

-- How often the reader goroutine goes on.
unfoldable pub turns : List Move → ℕ
turns [] = 0
turns (goes_on ∷ ms) = suc (turns ms)
turns (m ∷ ms) = turns ms

-- How many more turns it needs.
need : ℕ → Reader → ℕ → ℕ
need cap idle n = 0
need cap (sends v) n = if ltb n cap then 1 else 3
need cap (drops_oldest v) n = 2

needs : ℕ → Entry → ℕ
unfolding need
needs cap e = need cap e.reader (length e.ch)

need-le : (cap : ℕ) (r : Reader) (m n : ℕ) → m ≤ n → need cap r m ≤ need cap r n
unfolding need
need-le cap idle m n h = omega arith
need-le cap (sends v) m n h = ground arith
need-le cap (drops_oldest v) m n h = omega arith

drop-need :
    (cap : ℕ) (v : WatchEvent) (ch : List WatchEvent) (e : Entry)
    → 0 < cap
    → length ch ≤ cap
    → e.ch ≡ ch
    → needs cap (drop_oldest v ch e) ≤ 1
unfolding needs need drop_oldest
drop-need cap v [] e c h q = rw q (ground arith)
drop-need cap v (x ∷ xs) e c h q = ground arith

next-needs :
    (cap : ℕ) (r : Reader) (e : Entry)
    → 0 < cap
    → length e.ch ≤ cap
    → e.reader ≡ r
    → needs cap (offer_next cap r e) ≤ need cap r (length e.ch) - 1
unfolding needs need offer_next
next-needs cap idle e c h q = rw q (omega arith)
next-needs cap (sends v) e c h q = elim (Bool-cases (ltb (length e.ch) cap)) [
  | inl b ↦ simp b (omega arith)
  | inr b ↦ simp b (omega arith)
]
next-needs cap (drops_oldest v) e c h q = drop-need cap v e.ch e c h refl

receive-needs :
    (cap : ℕ) (ch : List WatchEvent) (e : Entry)
    → e.ch ≡ ch
    → needs cap (receive_from ch e) ≤ needs cap e
unfolding needs receive_from
receive-needs cap [] e q = omega arith
receive-needs cap (x ∷ xs) e q =
    simp q (need-le cap e.reader (length xs) (length (x ∷ xs)) (omega arith))

emit-needs : (cap : ℕ) (o : Option WatchEvent) (e : Entry) → needs cap (emit_held o e) ≤ needs cap e
unfolding emit_held needs
emit-needs cap (some x) e = omega arith
emit-needs cap none e =
    let h = receive-needs cap e.ch e refl in
    elim (Bool-cases e.exited) [ inl b ↦ simp b (omega arith) | inr b ↦ simp b h ]

exit-needs : (cap : ℕ) (o : Option WatchEvent) (e : Entry) → needs cap (exit_from o e) ≡ needs cap e
unfolding exit_from needs
exit-needs cap (some x) e = refl
exit-needs cap none e = elim (Bool-cases e.done) [ inl b ↦ simp b refl | inr b ↦ simp b refl ]

goes_on-needs :
    (cap : ℕ) (e : Entry)
    → 0 < cap
    → length e.ch ≤ cap
    → needs cap (step cap goes_on e) ≤ needs cap e - 1
unfolding step offer_step needs
goes_on-needs cap e c h = next-needs cap e.reader e c h refl

emits-needs : (cap : ℕ) (e : Entry) → needs cap (step cap emits e) ≤ needs cap e
unfolding step emit_step
emits-needs cap e = emit-needs cap e.held e

exits-needs : (cap : ℕ) (e : Entry) → needs cap (step cap exits e) ≡ needs cap e
unfolding step exit_step
exits-needs cap e = exit-needs cap e.held e

stops-needs : (cap : ℕ) (e : Entry) → needs cap (step cap stops e) ≡ needs cap e
unfolding step stop needs
stops-needs cap e = refl

run-needs :
    (cap : ℕ) (ms : List Move) (e : Entry)
    → 0 < cap
    → Inv cap e
    → NoOffer ms
    → needs cap (run cap ms e) ≤ needs cap e - turns ms
unfolding run turns
run-needs cap [] e c i n = omega arith
run-needs cap (offers v ∷ ms) e c i n = absurd n
run-needs cap (goes_on ∷ ms) e c i n =
    let a = goes_on-needs cap e c i.room in
    let r = run-needs cap ms (step cap goes_on e) c (step-Inv cap goes_on e i) n in omega arith
run-needs cap (emits ∷ ms) e c i n =
    let a = emits-needs cap e in
    let r = run-needs cap ms (step cap emits e) c (step-Inv cap emits e i) n in omega arith
run-needs cap (exits ∷ ms) e c i n =
    let a = exits-needs cap e in
    let r = run-needs cap ms (step cap exits e) c (step-Inv cap exits e i) n in omega arith
run-needs cap (stops ∷ ms) e c i n =
    let a = stops-needs cap e in
    let r = run-needs cap ms (step cap stops e) c (step-Inv cap stops e i) n in omega arith

need-most : (cap : ℕ) (r : Reader) (n : ℕ) → need cap r n ≤ 3
unfolding need
need-most cap idle n = omega arith
need-most cap (sends v) n = ground arith
need-most cap (drops_oldest v) n = omega arith

none_needed : (cap : ℕ) (r : Reader) (n : ℕ) → need cap r n ≡ 0 → r ≡ idle
unfolding need
none_needed cap idle n h = refl
none_needed cap (sends v) n h = absurd (ground arith)
none_needed cap (drops_oldest v) n h = absurd (omega arith)

-- A call of `offer` always returns: on a channel with room for one event, after any run of a new
-- watcher, three more selects of the reader goroutine end the call, however the moves of the
-- emitting goroutine and a `stop` fall between them.
pub offer-returns :
    (cap : ℕ) (before after : List Move)
    → 0 < cap
    → NoOffer after
    → 3 ≤ turns after
    → (run cap after (run cap before launch)).reader ≡ idle
unfolding needs
offer-returns cap before after c n t =
    let e = run cap before launch in
    let f = run cap after e in
    let h = run-needs cap after e c (launch-run-Inv cap before) n in
    let m = need-most cap e.reader (length e.ch) in
    none_needed cap f.reader (length f.ch) (omega arith)
