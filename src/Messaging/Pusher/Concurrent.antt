-- ===== src/Messaging/Pusher/Concurrent.antt =====
-- A pusher between its callers and the timer goroutine. Each of them takes a batch under the lock and
-- emits it later, with the lock released, so the order of the emissions is up to the scheduler.
use nats_desktop.Base.{
  Bool, List, Option, [], ap, append-nil, append_assoc, arith, false, if◌then◌else◌, length,
  length-append, none, refl, some, subst, sym, true, ℕ, ◌++◌, ◌+◌, ◌<◌, ◌∙◌, ◌∷◌, ◌≡◌, ◌≢◌,
}
use mathlib.Core.List.{flatten}
use nats_desktop.Messaging.Pusher.Sequential.{max_msgs_lem}
use nats_desktop.Messaging.Pusher.{PushMode, Pusher, add, flush, new_pusher, stop, tick}

-- How many of the messages pass a test.
pub tally {ℓ} : {A : Type ℓ} → (A → Bool) → List A → ℕ
tally p [] = 0
tally p (x ∷ xs) = (if p x then 1 else 0) + tally p xs

pub record World {ℓ} (A : Type ℓ) : Type ℓ where
  pub pusher : Pusher A
  -- The batch that the timer goroutine has taken and not emitted.
  pub timer : List A
  -- The batches that callers of `Add` and `Flush` have taken and not emitted.
  pub callers : List (List A)
  pub emitted : List (List A)
  -- What `Add` took in while the pusher ran, and what `Stop` threw away.
  pub accepted : List A
  pub discarded : List A

module _ {ℓ} {A : Type ℓ} where
  abbrev hold : Option (List A) → List (List A) → List (List A)
  hold none bs = bs
  hold (some b) bs = b ∷ bs

  abbrev held : Option (List A) → List A
  held none = []
  held (some b) = b

  pub after_add : A → World A → World A
  after_add m w =
      let (q, b) = add m w.pusher in
      record w {
        pusher = q;
        callers = hold b w.callers;
        accepted = if w.pusher.stopped then w.accepted else w.accepted ++ m ∷ [];
      }

  pub after_flush : World A → World A
  after_flush w = let (q, b) = flush w.pusher in record w { pusher = q; callers = hold b w.callers }

  pub after_tick : World A → World A
  after_tick w = let (q, b) = tick w.pusher in record w { pusher = q; timer = held b }

  pub after_stop : World A → World A
  after_stop w = record w { pusher = stop w.pusher; discarded = w.discarded ++ w.pusher.buf }

  -- One critical section, or one emission. The timer goroutine handles one batch at a time.
  pub data Step (w v : World A) : Type ℓ where
    adds : (m : A) → v ≡ after_add m w → Step w v
    flushes : v ≡ after_flush w → Step w v
    ticks : w.timer ≡ [] → v ≡ after_tick w → Step w v
    stops : v ≡ after_stop w → Step w v
    caller_emits :
        (b : List A) (before after : List (List A))
        → w.callers ≡ before ++ b ∷ after
        → v ≡ record w { callers = before ++ after; emitted = w.emitted ++ b ∷ [] }
        → Step w v
    timer_emits : v ≡ record w { timer = []; emitted = w.emitted ++ w.timer ∷ [] } → Step w v

  pub data Steps (w : World A) : World A → Type ℓ where
    here : Steps w w
    next : {u v : World A} → Steps w u → Step u v → Steps w v

  abbrev pub start : PushMode → World A
  start mode = record {
    pusher = new_pusher mode;
    timer = [];
    callers = [];
    emitted = [];
    accepted = [];
    discarded = [];
  }

  -- Where a message that was taken in can be.
  abbrev pub accounted : (A → Bool) → World A → ℕ
  accounted p w =
      tally p (flatten w.emitted)
      + tally p (flatten w.callers)
      + tally p w.timer
      + tally p w.pusher.buf
      + tally p w.discarded

  tally-append : (p : A → Bool) (xs ys : List A) → tally p (xs ++ ys) ≡ tally p xs + tally p ys
  unfolding tally
  tally-append p [] ys = omega arith
  tally-append p (x ∷ xs) ys = omega (arith, tally-append p xs ys)

  tally-flatten :
      (p : A → Bool) (xs ys : List (List A))
      → tally p (flatten (xs ++ ys)) ≡ tally p (flatten xs) + tally p (flatten ys)
  unfolding tally flatten
  tally-flatten p [] ys = omega arith
  tally-flatten p (x ∷ xs) ys = omega (
    arith,
    tally-append p x (flatten (xs ++ ys)),
    tally-append p x (flatten xs),
    tally-flatten p xs ys,
  )

  tally-hold :
      (p : A → Bool) (b : Option (List A)) (bs : List (List A))
      → tally p (flatten (hold b bs)) ≡ tally p (held b) + tally p (flatten bs)
  unfolding tally flatten
  tally-hold p none bs = omega arith
  tally-hold p (some b) bs = tally-append p b (flatten bs)

  add-tally :
      (p : A → Bool) (m : A) (q : Pusher A)
      → tally p (held (add m q).1) + tally p (add m q).0.buf
        ≡ tally p q.buf + tally p (if q.stopped then [] else m ∷ [])
  unfolding add tally
  add-tally p m q = ground (arith, tally-append p q.buf (m ∷ []))

  flush-tally :
      (p : A → Bool) (q : Pusher A)
      → tally p (held (flush q).1) + tally p (flush q).0.buf ≡ tally p q.buf
  unfolding flush tally
  flush-tally p q = ground arith

  tick-tally :
      (p : A → Bool) (q : Pusher A)
      → tally p (held (tick q).1) + tally p (tick q).0.buf ≡ tally p q.buf
  unfolding tick tally
  tick-tally p q = ground arith

  tally-if :
      (p : A → Bool) (b : Bool) (xs ys : List A)
      → tally p (if b then xs else xs ++ ys) ≡ tally p xs + tally p (if b then [] else ys)
  unfolding tally
  tally-if p true xs ys = omega arith
  tally-if p false xs ys = tally-append p xs ys

  Step-accounted :
      (p : A → Bool) {w v : World A}
      → Step w v
      → accounted p w ≡ tally p w.accepted
      → accounted p v ≡ tally p v.accepted
  unfolding after_add after_flush after_tick after_stop stop tally flatten
  Step-accounted p {w} (adds m e) h = rw e (
      omega (
        arith,
        tally-hold p (add m w.pusher).1 w.callers,
        add-tally p m w.pusher,
        tally-if p w.pusher.stopped w.accepted (m ∷ []),
      ))
  Step-accounted p {w} (flushes e) h =
      rw e (omega (arith, tally-hold p (flush w.pusher).1 w.callers, flush-tally p w.pusher))
  Step-accounted p {w} (ticks i e) h = rw e (omega (arith, tick-tally p w.pusher, ap (tally p) i))
  Step-accounted p {w} (stops e) h = rw e (omega (arith, tally-append p w.discarded w.pusher.buf))
  Step-accounted p {w} (caller_emits b before after c e) h = rw e (
      omega (
        arith,
        ap (λ cs. tally p (flatten cs)) c,
        tally-flatten p before (b ∷ after),
        tally-flatten p before after,
        tally-flatten p w.emitted (b ∷ []),
        tally-append p b (flatten after),
        tally-append p b [],
      ))
  Step-accounted p {w} (timer_emits e) h =
      rw e (omega (arith, tally-flatten p w.emitted (w.timer ∷ []), tally-append p w.timer []))

  Steps-accounted :
      (p : A → Bool) {w v : World A}
      → Steps w v
      → accounted p w ≡ tally p w.accepted
      → accounted p v ≡ tally p v.accepted
  Steps-accounted p here h = h
  Steps-accounted p (next r s) h = Step-accounted p s (Steps-accounted p r h)

  -- Under every interleaving of callers, timer and `Stop`, each message that `Add` took in is, as
  -- often as it was added, in exactly one place: emitted, in the hands of a goroutine that is about
  -- to emit it, buffered, or thrown away by `Stop`.
  pub no_loss :
      (p : A → Bool) (mode : PushMode) {w : World A}
      → Steps (start mode) w
      → accounted p w ≡ tally p w.accepted
  unfolding tally flatten new_pusher
  no_loss p mode r = Steps-accounted p r refl

  Steps-trans : {w u v : World A} → Steps w u → Steps u v → Steps w v
  Steps-trans r here = r
  Steps-trans r (next q s) = next (Steps-trans r q) s

  abbrev buffered : List A → List A → World A → World A
  buffered xs ms w = record w {
    pusher = record w.pusher { buf = xs ++ ms };
    accepted = w.accepted ++ ms;
  }

  abbrev filled : List A → List A → World A → World A
  filled xs ms w = record w {
    pusher = record w.pusher { buf = [] };
    callers = (xs ++ ms) ∷ w.callers;
    accepted = w.accepted ++ ms;
  }

  add_below :
      (w : World A) (xs : List A) (m : A)
      → w.pusher.stopped ≡ false
      → w.pusher.buf ≡ xs
      → length xs + 1 < 500
      → buffered xs (m ∷ []) w ≡ after_add m w
  unfolding after_add add
  add_below w xs m r e l = ground (arith, max_msgs_lem w.pusher.mode, length-append xs (m ∷ []))

  add_last :
      (w : World A) (xs : List A) (m : A)
      → w.pusher.stopped ≡ false
      → w.pusher.buf ≡ xs
      → length xs + 1 ≡ 500
      → filled xs (m ∷ []) w ≡ after_add m w
  unfolding after_add add
  add_last w xs m r e l = ground (arith, max_msgs_lem w.pusher.mode, length-append xs (m ∷ []))

  -- Messages below the threshold are buffered.
  wait :
      (w : World A) (xs ms : List A)
      → w.pusher.stopped ≡ false
      → w.pusher.buf ≡ xs
      → length xs + length ms < 500
      → Steps w (buffered xs ms w)
  wait w xs [] r e l =
      subst (Steps w)
        (λ i. record w {
          pusher = record w.pusher { buf = (e ∙ sym (append-nil xs)) i };
          accepted = sym (append-nil w.accepted) i;
        })
        here
  wait w xs (m ∷ ms) r e l =
      let u = buffered xs (m ∷ []) w in
      Steps-trans (next here (adds m (add_below w xs m r e (omega arith)))) (
        rw (append_assoc xs (m ∷ []) ms, append_assoc w.accepted (m ∷ []) ms) at
          (wait u (xs ++ m ∷ []) ms r refl (omega (arith, length-append xs (m ∷ [])))))

  -- A caller that brings the buffer to the threshold takes it all.
  fill :
      (w : World A) (xs ms : List A)
      → w.pusher.stopped ≡ false
      → w.pusher.buf ≡ xs
      → ms ≢ []
      → length xs + length ms ≡ 500
      → Steps w (filled xs ms w)
  fill w xs [] r e ne l = absurd (ne refl)
  fill w xs (m ∷ []) r e ne l = next here (adds m (add_last w xs m r e l))
  fill w xs (m ∷ n ∷ ms) r e ne l =
      let u = buffered xs (m ∷ []) w in
      Steps-trans (next here (adds m (add_below w xs m r e (omega arith)))) (
        rw (append_assoc xs (m ∷ []) (n ∷ ms), append_assoc w.accepted (m ∷ []) (n ∷ ms)) at
          (fill u (xs ++ m ∷ []) (n ∷ ms) r refl (λ q. cc)
            (omega (arith, length-append xs (m ∷ [])))))

  abbrev timer_took : List A → World A → World A
  timer_took b w = record w { pusher = record w.pusher { buf = [] }; timer = b }

  tick_takes :
      (w : World A) (x : A) (xs : List A)
      → w.pusher.stopped ≡ false
      → w.pusher.buf ≡ x ∷ xs
      → timer_took (x ∷ xs) w ≡ after_tick w
  unfolding after_tick tick
  tick_takes w x xs r e = ground arith

  -- For every non-empty list of fewer than 500 messages and every list of 500, there is a schedule
  -- in which the ticker takes the first list, a caller then adds the second and emits it, and the
  -- ticker emits last: the later messages reach the frontend first.
  pub reorder :
      (mode : PushMode) (xs ms : List A)
      → xs ≢ []
      → length xs < 500
      → length ms ≡ 500
      → (w : World A) × Steps (start mode) w × (w.accepted ≡ xs ++ ms) × (w.emitted ≡ ms ∷ xs ∷ [])
  unfolding new_pusher
  reorder mode [] ms ne lx lm = absurd (ne refl)
  reorder mode (x ∷ xs) ms ne lx lm =
      let w₁ = buffered [] (x ∷ xs) (start mode) in
      let w₂ = timer_took (x ∷ xs) w₁ in
      let w₃ = filled [] ms w₂ in
      let w₄ = record w₃ { callers = []; emitted = ms ∷ [] } in
      (
        record w₄ { timer = []; emitted = ms ∷ (x ∷ xs) ∷ [] },
        next
            (next
              (Steps-trans
                (next (wait (start mode) [] (x ∷ xs) refl refl (omega arith))
                  (ticks refl (tick_takes w₁ x xs refl refl)))
                (fill w₂ [] ms refl refl (λ e. absurd (omega (arith, ap length e))) (omega arith)))
              (caller_emits ms [] [] refl refl))
            (timer_emits refl),
        refl,
        refl,
      )
