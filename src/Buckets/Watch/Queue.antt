-- ===== src/Buckets/Watch/Queue.antt =====
-- The accounts of the bounded queue of a watcher.

use mathlib.Core.List.{Sublist}
use mathlib.Core.List.Sublist
use nats_desktop.Base.{
  Bool-cases, List, Option, [], append-nil, append_assoc, arith, inl, inr, length, length-append,
  ltb, map, mod-add-mod, none, refl, some, subst, true, ℕ, ◌%◌, ◌++◌, ◌+◌, ◌-◌, ◌^◌, ◌∷◌, ◌≡◌, ◌≤◌,
}
use nats_desktop.Buckets.Watch.{
  Entry, Move, Reader, WatchEvent, drop_oldest, drops_oldest, emit_held, emit_step, emits,
  exit_from, exit_step, exits, goes_on, idle, kv_event, launch, obj_event, offer, offer_from,
  offer_next, offer_step, offers, receive_from, run, sends, stamp, step, stop, stops,
}

-- An event without its counter.
abbrev pub clear : WatchEvent → WatchEvent
clear e = stamp 0 e

abbrev pub waiting : Reader → List WatchEvent
waiting idle = []
waiting (sends v) = v ∷ []
waiting (drops_oldest v) = v ∷ []

abbrev pub held_events : Option WatchEvent → List WatchEvent
held_events none = []
held_events (some x) = x ∷ []

-- The events that were emitted or will be, in their order.
pub kept : Entry → List WatchEvent
kept e =
    map clear e.emitted
    ++ (map clear (held_events e.held) ++ (map clear e.ch ++ map clear (waiting e.reader)))

pub record Inv (cap : ℕ) (e : Entry) : Type 0 where
  pub order : Sublist (kept e) (map clear e.offered)
  pub fewer : length (kept e) ≤ length e.offered
  pub count : e.dropped ≡ (length e.offered - length (kept e)) % (2 ^ 64)
  pub room : length e.ch ≤ cap

launch-Inv : (cap : ℕ) → Inv cap launch
unfolding launch kept
launch-Inv cap = record {
  order = Sublist.refl [];
  fewer = omega arith;
  count = refl;
  room = omega arith;
}

-- A move that keeps the events, the counter and what was offered.
same-Inv :
    (cap : ℕ) (e f : Entry)
    → Inv cap e
    → kept f ≡ kept e
    → f.offered ≡ e.offered
    → f.dropped ≡ e.dropped
    → length f.ch ≤ cap
    → Inv cap f
unfolding kept
same-Inv cap e f i k o d r = record {
  order = rw (k, o) i.order;
  fewer = rw (k, o) i.fewer;
  count = rw (d, k, o) i.count;
  room = r;
}

-- A call of `offer`.
pub map-append : (xs ys : List WatchEvent) → map clear (xs ++ ys) ≡ map clear xs ++ map clear ys
map-append [] ys = refl
map-append (x ∷ xs) ys = rw (map-append xs ys)

middle : (ls bs : List WatchEvent) (x : WatchEvent) → Sublist (ls ++ bs) (ls ++ (x ∷ bs))
middle ls bs x = Sublist.append (Sublist.refl ls) (Sublist.cons x (Sublist.refl bs))

offer-kept :
    (v : WatchEvent) (e : Entry)
    → e.reader ≡ idle
    → kept (offer_from v idle e) ≡ kept e ++ (clear v ∷ [])
unfolding kept offer_from
offer-kept v e h = rw h (simp (append_assoc, append-nil) refl)

-- A move that adds an event at the end of what is kept and of what was offered.
grow-Inv :
    (cap : ℕ) (v : WatchEvent) (e f : Entry)
    → Inv cap e
    → kept f ≡ kept e ++ (clear v ∷ [])
    → f.offered ≡ e.offered ++ (v ∷ [])
    → f.dropped ≡ e.dropped
    → f.ch ≡ e.ch
    → Inv cap f
grow-Inv cap v e f i k o d c =
    let l = length-append (kept e) (clear v ∷ []) in
    let m = length-append e.offered (v ∷ []) in
    let a = map-append e.offered (v ∷ []) in
    let q : length f.offered - length (kept f) ≡ length e.offered - length (kept e) =
      simp (k, o, l, m) (omega arith) in
    record {
      order = simp (k, o, a) (Sublist.append i.order (Sublist.refl (clear v ∷ [])));
      fewer = let b = i.fewer in simp (k, o, l, m) (omega arith);
      count = simp (d, q) i.count;
      room = simp c i.room;
    }

-- A move that drops an event.
lose-Inv :
    (cap : ℕ) (x : WatchEvent) (ls bs : List WatchEvent) (e f : Entry)
    → Inv cap e
    → kept e ≡ ls ++ (x ∷ bs)
    → kept f ≡ ls ++ bs
    → f.offered ≡ e.offered
    → f.dropped ≡ (e.dropped + 1) % (2 ^ 64)
    → length f.ch ≤ cap
    → Inv cap f
lose-Inv cap x ls bs e f i k k' o d r =
    let l = length-append ls bs in
    let m = length-append ls (x ∷ bs) in
    let b : length (ls ++ (x ∷ bs)) ≤ length e.offered =
      subst (λ (z : List WatchEvent). length z ≤ length e.offered) k i.fewer in
    let g : e.dropped ≡ (length e.offered - length (ls ++ (x ∷ bs))) % (2 ^ 64) =
      simp (← k) i.count in
    let q : length e.offered - length (ls ++ bs)
        ≡ (length e.offered - length (ls ++ (x ∷ bs))) + 1 =
      omega arith in
    record {
      order =
          simp (k', o)
            (Sublist.trans (middle ls bs x)
              (subst (λ (z : List WatchEvent). Sublist z (map clear e.offered)) k i.order));
      fewer = simp (k', o) (omega arith);
      count =
          simp (k', o, d, g, q)
            (mod-add-mod (length e.offered - length (ls ++ (x ∷ bs))) (2 ^ 64) 1);
      room = r;
    }

offer-Inv :
    (cap : ℕ) (v : WatchEvent) (r : Reader) (e : Entry)
    → e.reader ≡ r
    → Inv cap e
    → Inv cap (offer_from v r e)
unfolding offer_from
offer-Inv cap v idle e h i =
    grow-Inv cap v e (offer_from v idle e) i (offer-kept v e h) refl refl refl
offer-Inv cap v (sends w) e h i = i
offer-Inv cap v (drops_oldest w) e h i = i

send-kept :
    (v : WatchEvent) (e f : Entry)
    → e.reader ≡ sends v
    → f ≡ record e { reader = idle; ch = e.ch ++ (v ∷ []) }
    → kept f ≡ kept e
unfolding kept
send-kept v e f h q =
    let m = map-append e.ch (v ∷ []) in rw (q, h) (simp (m, append_assoc, append-nil) refl)

receive-kept :
    (x : WatchEvent) (xs : List WatchEvent) (e : Entry)
    → e.held ≡ none
    → e.ch ≡ x ∷ xs
    → kept (record e { ch = xs; held = some x }) ≡ kept e
unfolding kept
receive-kept x xs e h c = rw (h, c) refl

pub clear-stamp : (n : ℕ) (x : WatchEvent) → clear (stamp n x) ≡ clear x
clear-stamp n (kv_event e) = refl
clear-stamp n (obj_event e) = refl

emit-kept : (x : WatchEvent) (e : Entry) → e.held ≡ some x → kept (emit_held (some x) e) ≡ kept e
unfolding kept emit_held
emit-kept x e h =
    let m = map-append e.emitted (stamp e.dropped x ∷ []) in
    rw (h, m) (simp (append_assoc, clear-stamp e.dropped x) refl)

full-kept :
    (v : WatchEvent) (e : Entry)
    → e.reader ≡ sends v
    → kept (record e { reader = drops_oldest v }) ≡ kept e
unfolding kept
full-kept v e h = rw h refl

empty-kept :
    (v : WatchEvent) (e : Entry)
    → e.reader ≡ drops_oldest v
    → kept (record e { reader = sends v }) ≡ kept e
unfolding kept
empty-kept v e h = rw h refl

drop-Inv :
    (cap : ℕ) (v : WatchEvent) (ch : List WatchEvent) (e : Entry)
    → e.reader ≡ drops_oldest v
    → e.ch ≡ ch
    → Inv cap e
    → Inv cap (drop_oldest v ch e)
unfolding drop_oldest kept
drop-Inv cap v [] e h c i =
    same-Inv cap e (record e { reader = sends v }) i (empty-kept v e h) refl refl i.room
drop-Inv cap v (x ∷ xs) e h c i =
    let ls = map clear e.emitted ++ map clear (held_events e.held) in
    let bs = map clear xs ++ (clear v ∷ []) in
    let n : length (x ∷ xs) ≤ cap = subst (λ (z : List WatchEvent). length z ≤ cap) c i.room in
    lose-Inv cap (clear x) ls bs e (drop_oldest v (x ∷ xs) e) i (rw (h, c) (simp append_assoc refl))
      (simp append_assoc refl) refl refl (omega arith)

-- The next select of the reader goroutine.
next-Inv :
    (cap : ℕ) (r : Reader) (e : Entry) → e.reader ≡ r → Inv cap e → Inv cap (offer_next cap r e)
unfolding offer_next
next-Inv cap idle e h i = i
next-Inv cap (sends v) e h i = elim (Bool-cases (ltb (length e.ch) cap)) [
  | inl b ↦
      let l = length-append e.ch (v ∷ []) in
      let f = record e { reader = idle; ch = e.ch ++ (v ∷ []) } in
      rw b (same-Inv cap e f i (send-kept v e f h refl) refl refl (ground (arith, b, l)))
  | inr b ↦
      let f = record e { reader = drops_oldest v } in
      rw b (same-Inv cap e f i (full-kept v e h) refl refl i.room)
]
next-Inv cap (drops_oldest v) e h i = drop-Inv cap v e.ch e h refl i

receive-Inv :
    (cap : ℕ) (ch : List WatchEvent) (e : Entry)
    → e.held ≡ none
    → e.ch ≡ ch
    → Inv cap e
    → Inv cap (receive_from ch e)
unfolding receive_from
receive-Inv cap [] e h c i = i
receive-Inv cap (x ∷ xs) e h c i =
    let n : length (x ∷ xs) ≤ cap = subst (λ (z : List WatchEvent). length z ≤ cap) c i.room in
    same-Inv cap e (record e { ch = xs; held = some x }) i (receive-kept x xs e h c) refl refl
      (omega arith)

flags-kept :
    (e f : Entry)
    → f.emitted ≡ e.emitted
    → f.held ≡ e.held
    → f.ch ≡ e.ch
    → f.reader ≡ e.reader
    → kept f ≡ kept e
unfolding kept
flags-kept e f a b c d = simp (a, b, c, d) refl

emit-Inv :
    (cap : ℕ) (o : Option WatchEvent) (e : Entry) → e.held ≡ o → Inv cap e → Inv cap (emit_held o e)
unfolding emit_held
emit-Inv cap (some x) e h i =
    same-Inv cap e (emit_held (some x) e) i (emit-kept x e h) refl refl i.room
emit-Inv cap none e h i = elim (Bool-cases e.exited) [
  | inl b ↦ simp b i
  | inr b ↦ simp b (receive-Inv cap e.ch e h refl i)
]

exit-Inv : (cap : ℕ) (o : Option WatchEvent) (e : Entry) → Inv cap e → Inv cap (exit_from o e)
unfolding exit_from
exit-Inv cap (some x) e i = i
exit-Inv cap none e i = elim (Bool-cases e.done) [
  | inl b ↦ simp b (
      same-Inv cap e (record e { done = true; exited = true }) i
        (flags-kept e (record e { done = true; exited = true }) refl refl refl refl) refl refl
        i.room)
  | inr b ↦ simp b i
]

pub step-Inv : (cap : ℕ) (m : Move) (e : Entry) → Inv cap e → Inv cap (step cap m e)
unfolding step offer offer_step emit_step exit_step stop
step-Inv cap (offers v) e i = offer-Inv cap v e.reader e refl i
step-Inv cap goes_on e i = next-Inv cap e.reader e refl i
step-Inv cap emits e i = emit-Inv cap e.held e refl i
step-Inv cap exits e i = exit-Inv cap e.held e i
step-Inv cap stops e i =
    same-Inv cap e (stop e) i (flags-kept e (stop e) refl refl refl refl) refl refl i.room

pub run-Inv : (cap : ℕ) (ms : List Move) (e : Entry) → Inv cap e → Inv cap (run cap ms e)
unfolding run
run-Inv cap [] e i = i
run-Inv cap (m ∷ ms) e i = run-Inv cap ms (step cap m e) (step-Inv cap m e i)

-- In any interleaving of the reader goroutine, the emitting goroutine and `stop` of a new watcher:
-- what was emitted, then what is received, queued and offered but not yet queued, is a part of what
-- was offered, in the same order; the counter of dropped events is exactly how many are missing,
-- modulo `2 ^ 64`; and the queue stays within its capacity.
pub launch-run-Inv : (cap : ℕ) (ms : List Move) → Inv cap (run cap ms launch)
launch-run-Inv cap ms = run-Inv cap ms launch (launch-Inv cap)
