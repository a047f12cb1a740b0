-- ===== src/Buckets/Transfer/Throttled.antt =====
-- How many progress events a transfer emits.

use nats_desktop.Base.{
  Bool, Bool-cases, List, [], ap, arith, inl, inr, leb, length, length-append, mod-eq_of_lt, refl,
  true, ℕ, ◌%◌, ◌+◌, ◌-◌, ◌/◌, ◌<◌, ◌==◌, ◌^◌, ◌||◌, ◌∙◌, ◌∷◌, ◌≡◌, ◌≤◌, ◌⊎◌,
}
use nats_desktop.Base.Modulo.{wrap_mod}
use nats_desktop.Buckets.Transfer.{
  Counter, Throttle, TransferEvent, allow, count, counted, counts, new_counter, transfer_emit_bytes,
  transfer_emit_every,
}

unfoldable pub bytes : List (ℕ × ℕ) → ℕ
bytes [] = 0
bytes ((now, k) ∷ l) = k + bytes l

-- The times do not go back, from a bound on.
unfoldable pub Clocked : ℕ → List (ℕ × ℕ) → Type 0
Clocked low [] = Unit
Clocked low ((now, k) ∷ l) = (low ≤ now) × Clocked now l

unfoldable pub last_time : ℕ → List (ℕ × ℕ) → ℕ
last_time low [] = low
last_time low ((now, k) ∷ l) = last_time now l

-- The weight of a throttle: each event adds one to it at least.
weight : ℕ → ℕ → ℕ
weight n t = n / 65536 + t / 200000000

weight_mono : (m n s t : ℕ) → m ≤ n → s ≤ t → weight m s ≤ weight n t
unfolding weight
weight_mono m n s t h k = omega arith

weight-bytes : (m n s t : ℕ) → m + 65536 ≤ n → s ≤ t → weight m s + 1 ≤ weight n t
unfolding weight
weight-bytes m n s t h k = omega arith

weight-time : (m n s t : ℕ) → m ≤ n → s + 200000000 ≤ t → weight m s + 1 ≤ weight n t
unfolding weight
weight-time m n s t h k = omega arith

distance : (m n : ℕ) → m ≤ n → n < 2 ^ 64 → (n + (2 ^ 64 - m)) % (2 ^ 64) ≡ n - m
distance m n h b =
    let q : n + (2 ^ 64 - m) ≡ (n - m) + 2 ^ 64 = omega arith in
    ap (λ (x : ℕ). x % (2 ^ 64)) q ∙ wrap_mod (n - m) (2 ^ 64) ∙ mod-eq_of_lt (omega arith)

-- `allow` says yes only after enough bytes or enough time.
allow-cases :
    (now n : ℕ) (t : Throttle)
    → (allow now n t).0 ≡ true
    → (leb transfer_emit_bytes ((n + (2 ^ 64 - t.last_n)) % (2 ^ 64)) ≡ true)
      ⊎ (leb transfer_emit_every (now - t.last_t) ≡ true)
unfolding allow
allow-cases now n t e =
    elim (Bool-cases (leb transfer_emit_bytes ((n + (2 ^ 64 - t.last_n)) % (2 ^ 64)))) [
      | inl a ↦ inl a
      | inr a ↦ elim (Bool-cases (leb transfer_emit_every (now - t.last_t))) [
        | inl b ↦ inr b
        | inr b ↦ absurd (ground (arith, a, b, e))
      ]
    ]

leb-le : (m n : ℕ) → leb m n ≡ true → m ≤ n
leb-le m n h = ground arith

allow-weight :
    (now n : ℕ) (t : Throttle)
    → t.last_n ≤ n
    → n < 2 ^ 64
    → t.last_t ≤ now
    → (allow now n t).0 ≡ true
    → weight t.last_n t.last_t + 1 ≤ weight n now
allow-weight now n t h b k e = elim (allow-cases now n t e) [
  | inl a ↦
      let d = distance t.last_n n h b in
      let x = leb-le transfer_emit_bytes ((n + (2 ^ 64 - t.last_n)) % (2 ^ 64)) a in
      weight-bytes t.last_n n t.last_t now (omega arith) k
  | inr a ↦
      let x = leb-le transfer_emit_every (now - t.last_t) a in
      weight-time t.last_n n t.last_t now h (omega arith)
]

-- What holds of a counter during a transfer.
record Fits (low : ℕ) (c : Counter) : Type 0 where
  pub bytes_ordered : c.th.last_n ≤ c.n
  pub times_ordered : c.th.last_t ≤ low

abbrev weight_of : Counter → ℕ
weight_of c = weight c.th.last_n c.th.last_t

-- One step: the new counter fits, counts so many bytes, and has the weight of its events more.
record Step (now d : ℕ) (c : Counter) (o : Counter × List TransferEvent) : Type 0 where
  pub fits : Fits now o.0
  pub counts_bytes : o.0.n ≡ d
  pub gains : length o.1 + weight_of c ≤ weight_of o.0

allow-yes :
    (now n : ℕ) (t : Throttle)
    → (allow now n t).0 ≡ true
    → (allow now n t).1 ≡ record { last_n = n; last_t = now }
unfolding allow
allow-yes now n t e =
    elim (Bool-cases (
      leb transfer_emit_bytes ((n + (2 ^ 64 - t.last_n)) % (2 ^ 64))
      || leb transfer_emit_every (now - t.last_t))) [
        | inl a ↦ simp a refl
        | inr a ↦ absurd (ground (arith, a, e))
      ]

counted-Step :
    (tpl : TransferEvent) (now d : ℕ) (o : Bool × Throttle) (c : Counter)
    → c.th.last_n ≤ d
    → c.th.last_t ≤ now
    → (o.0 ≡ true → o.1 ≡ record { last_n = d; last_t = now })
    → (o.0 ≡ true → weight_of c + 1 ≤ weight d now)
    → Step now d c (counted tpl d o c)
unfolding counted
counted-Step tpl now d (a, th) c h k q w = elim (Bool-cases c.fin) [
  | inl f ↦ simp f (record {
    fits = record { bytes_ordered = h; times_ordered = k };
    counts_bytes = refl;
    gains = omega arith;
  })
  | inr f ↦ elim (Bool-cases a) [
    | inl e ↦
        let y = q e in
        let z = w e in
        simp (f, e, y)
          (record {
            fits = record { bytes_ordered = omega arith; times_ordered = omega arith };
            counts_bytes = refl;
            gains = omega arith;
          })
    | inr e ↦
        simp (f, e)
          (record {
            fits = record { bytes_ordered = h; times_ordered = k };
            counts_bytes = refl;
            gains = omega arith;
          })
  ]
]

count-Step :
    (tpl : TransferEvent) (low now k : ℕ) (c : Counter)
    → Fits low c
    → low ≤ now
    → c.n + k < 2 ^ 64
    → Step now (c.n + k) c (count tpl now k c)
unfolding count
count-Step tpl low now k c f l b = elim (Bool-cases (k == 0)) [
  | inl z ↦
      let y : k ≡ 0 = ground arith in
      simp z (record {
        fits = record {
          bytes_ordered = f.bytes_ordered;
          times_ordered = let t = f.times_ordered in omega arith;
        };
        counts_bytes = omega arith;
        gains = omega arith;
      })
  | inr z ↦
      let m = mod-eq_of_lt b in
      let g = f.bytes_ordered in
      let t = f.times_ordered in
      simp (z, m)
        (counted-Step tpl now (c.n + k) (allow now (c.n + k) c.th) c (omega arith) (omega arith)
          (allow-yes now (c.n + k) c.th)
          (allow-weight now (c.n + k) c.th (omega arith) b (omega arith)))
]

counts-weight :
    (tpl : TransferEvent) (l : List (ℕ × ℕ)) (low : ℕ) (c : Counter)
    → Fits low c
    → Clocked low l
    → c.n + bytes l < 2 ^ 64
    → length (counts tpl l c).1 + weight_of c ≤ weight (c.n + bytes l) (last_time low l)
unfolding counts bytes Clocked last_time
counts-weight tpl [] low c f k b =
    let u = f.bytes_ordered in
    let v = f.times_ordered in
    let w = weight_mono c.th.last_n c.n c.th.last_t low u v in
    let z = weight_mono c.n (c.n + 0) low low (omega arith) (omega arith) in omega arith
counts-weight tpl ((now, k) ∷ l) low c f (h, ks) b =
    let o = count tpl now k c in
    let i = count-Step tpl low now k c f h (omega arith) in
    let q = i.counts_bytes in
    let r = counts-weight tpl l now o.0 i.fits ks (omega arith) in
    let g = i.gains in
    let a = length-append o.1 (counts tpl l o.0).1 in
    let e : o.0.n + bytes l ≡ c.n + (k + bytes l) = omega arith in
    let s = ap (λ (x : ℕ). weight x (last_time now l)) e in omega arith

-- The progress events of a transfer of fewer than `2 ^ 64` bytes whose clock does not go back are
-- at most one for each 64 KiB transferred, and one for each 200 ms of the clock's time.
pub counts-throttled :
    (tpl : TransferEvent) (l : List (ℕ × ℕ)) (start : ℕ)
    → Clocked start l
    → bytes l < 2 ^ 64
    → length (counts tpl l (new_counter start)).1 + start / 200000000
      ≤ bytes l / 65536 + last_time start l / 200000000
unfolding weight
counts-throttled tpl l start k b =
    let f : Fits start (new_counter start) = record {
      bytes_ordered = omega arith;
      times_ordered = omega arith;
    } in
    let w = counts-weight tpl l start (new_counter start) f k (omega arith) in omega arith
