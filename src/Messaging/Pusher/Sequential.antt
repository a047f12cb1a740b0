-- ===== src/Messaging/Pusher/Sequential.antt =====
-- A pusher whose callers emit each batch before the next call: what reaches the frontend.
use nats_desktop.Base.{
  List, Option, [], ap, append-nil, append_assoc, arith, false, length, length-append, none, refl,
  some, sym, ◌++◌, ◌<◌, ◌∷◌, ◌≡◌, ◌≤◌,
}
use mathlib.Core.List.{flatten}
use mathlib.Core.Path.{◌≡⟨◌⟩◌, ◌∎}
use nats_desktop.Messaging.Pusher.{PushMode, Pusher, add, flush, max_msgs, stop, tick}

pub data Call {ℓ} (A : Type ℓ) : Type ℓ where
  adds : A → Call A
  flushes ticks stops : Call A

-- Both modes have the same threshold.
pub max_msgs_lem : (mode : PushMode) → max_msgs mode ≡ 500
unfolding max_msgs
max_msgs_lem mode = ground arith

module _ {ℓ} {A : Type ℓ} where
  abbrev batches : Option (List A) → List (List A)
  batches none = []
  batches (some b) = b ∷ []

  pub step : Call A → Pusher A → Pusher A × Option (List A)
  step (adds m) p = add m p
  step flushes p = flush p
  step ticks p = tick p
  step stops p = (stop p, none)

  -- The batches emitted by a list of calls.
  pub run : List (Call A) → Pusher A → Pusher A × List (List A)
  run [] p = (p, [])
  run (c ∷ cs) p = let (q, b) = step c p in let (r, bs) = run cs q in (r, batches b ++ bs)

  pub added : List (Call A) → List A
  added [] = []
  added (adds m ∷ cs) = m ∷ added cs
  added (c ∷ cs) = added cs

  abbrev pub NoStop : List (Call A) → Type 0
  NoStop [] = Unit
  NoStop (stops ∷ cs) = ⊥
  NoStop (c ∷ cs) = NoStop cs

  abbrev IsBatch : List A → Type 0
  IsBatch b = (0 < length b) × (length b ≤ 500)

  abbrev pub AllBatches : List (List A) → Type 0
  AllBatches [] = Unit
  AllBatches (b ∷ bs) = IsBatch b × AllBatches bs

  pub record IsOpen (p : Pusher A) : Type 0 where
    pub running : p.stopped ≡ false
    pub below : length p.buf < 500

  abbrev taken : Option (List A) → List A
  taken none = []
  taken (some b) = b

  -- What one call does to an open pusher: the batch that it emits and what it leaves are what there
  -- was and what it adds, in order.
  pub record Keeps (c : Call A) (p q : Pusher A) (b : Option (List A)) : Type ℓ where
    pub stays : IsOpen q
    pub order : flatten (batches b) ++ q.buf ≡ p.buf ++ added (c ∷ [])
    pub sizes : AllBatches (batches b)

  add-Keeps : (m : A) (p : Pusher A) → IsOpen p → Keeps (adds m) p (add m p).0 (add m p).1
  unfolding add added flatten
  add-Keeps m p h = ground (
    arith,
    max_msgs_lem p.mode,
    length-append p.buf (m ∷ []),
    append-nil (p.buf ++ m ∷ []),
    append-nil ((p.buf ++ m ∷ []) ++ []),
  )

  flush-Keeps : (p : Pusher A) → IsOpen p → Keeps flushes p (flush p).0 (flush p).1
  unfolding flush added flatten
  flush-Keeps p h = ground (arith, append-nil p.buf, append-nil (p.buf ++ []))

  tick-Keeps : (p : Pusher A) → IsOpen p → Keeps ticks p (tick p).0 (tick p).1
  unfolding tick added flatten
  tick-Keeps p h = ground (arith, append-nil p.buf, append-nil (p.buf ++ []))

  step-Keeps :
      (c : Call A) (p : Pusher A) → NoStop (c ∷ []) → IsOpen p → Keeps c p (step c p).0 (step c p).1
  unfolding step
  step-Keeps (adds m) p n h = add-Keeps m p h
  step-Keeps flushes p n h = flush-Keeps p h
  step-Keeps ticks p n h = tick-Keeps p h
  step-Keeps stops p n h = absurd n

  NoStop-cons : (c : Call A) (cs : List (Call A)) → NoStop (c ∷ cs) → NoStop (c ∷ []) × NoStop cs
  NoStop-cons (adds m) cs h = (tt, h)
  NoStop-cons flushes cs h = (tt, h)
  NoStop-cons ticks cs h = (tt, h)
  NoStop-cons stops cs h = absurd h

  added-cons : (c : Call A) (cs : List (Call A)) → added (c ∷ cs) ≡ added (c ∷ []) ++ added cs
  unfolding added
  added-cons (adds m) cs = refl
  added-cons flushes cs = refl
  added-cons ticks cs = refl
  added-cons stops cs = refl

  flatten-append : (xs ys : List (List A)) → flatten (xs ++ ys) ≡ flatten xs ++ flatten ys
  unfolding flatten
  flatten-append [] ys = refl
  flatten-append (x ∷ xs) ys = simp (flatten-append xs ys, append_assoc)

  AllBatches-append :
      (xs ys : List (List A)) → AllBatches xs → AllBatches ys → AllBatches (xs ++ ys)
  AllBatches-append [] ys h k = k
  AllBatches-append (x ∷ xs) ys h k = (h.0, AllBatches-append xs ys h.1 k)

  -- From a pusher that runs with fewer than 500 messages buffered, and up to `Stop`, every message
  -- that was added is emitted or still buffered, once and in the order of the calls, after those
  -- buffered before; every emitted batch has between 1 and 500 messages, and fewer than 500 wait.
  pub run_lossless :
      (cs : List (Call A)) (p : Pusher A)
      → NoStop cs
      → IsOpen p
      → (flatten (run cs p).1 ++ (run cs p).0.buf ≡ p.buf ++ added cs)
        × AllBatches (run cs p).1
        × IsOpen (run cs p).0
  unfolding run
  run_lossless [] p n h = (unfold flatten added in sym (append-nil p.buf), tt, h)
  run_lossless (c ∷ cs) p n h =
      let (n₁, n₂) = NoStop-cons c cs n in
      let q = (step c p).0 in
      let b = batches (step c p).1 in
      let k = step-Keeps c p n₁ h in
      let ih = run_lossless cs q n₂ k.stays in
      (
        (flatten (b ++ (run cs q).1) ++ (run cs q).0.buf
            ≡⟨ (rw (flatten-append b (run cs q).1, append_assoc)) ⟩
              flatten b ++ (flatten (run cs q).1 ++ (run cs q).0.buf)
            ≡⟨ ap (◌++◌ (flatten b)) ih.0 ⟩ flatten b ++ (q.buf ++ added cs)
            ≡⟨ sym (append_assoc (flatten b) q.buf (added cs)) ⟩ (flatten b ++ q.buf) ++ added cs
            ≡⟨ ap (λ t. t ++ added cs) k.order ⟩ (p.buf ++ added (c ∷ [])) ++ added cs
            ≡⟨ append_assoc p.buf (added (c ∷ [])) (added cs) ⟩
              p.buf ++ (added (c ∷ []) ++ added cs)
            ≡⟨ ap (◌++◌ p.buf) (sym (added-cons c cs)) ⟩ p.buf ++ added (c ∷ cs) ∎),
        AllBatches-append b (run cs q).1 k.sizes ih.1,
        ih.2,
      )

  step-stop : (c : Call A) (p : Pusher A) → step c (stop p) ≡ (stop p, none)
  unfolding step add flush tick stop
  step-stop (adds m) p = refl
  step-stop flushes p = refl
  step-stop ticks p = refl
  step-stop stops p = refl

  -- A stopped pusher emits nothing, whatever is called, and holds nothing back.
  pub run-stop : (cs : List (Call A)) (p : Pusher A) → run cs (stop p) ≡ (stop p, [])
  unfolding run
  run-stop [] p = refl
  run-stop (c ∷ cs) p = rw (step-stop c p, run-stop cs p)
