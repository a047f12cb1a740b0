-- ===== src/Messaging/RateMeter/Rates.antt =====
-- What `Rate` reports after any calls: the events of the sliding window, up to one bucket width.
use nats_desktop.Base.Int.{pos_part, ℤ}
use native.Mathlib.Nat.{zero-div, div-mul-le_self, div-lt_iff_lt-mul, lt-div-mul-add}
use nats_desktop.Base.{
  List, [], arith, get_or-replicate, if◌then◌else◌, leb, ltb, map, refl, subst, sym, ℕ, ◌%◌, ◌*◌,
  ◌+◌, ◌-◌, ◌/◌, ◌<◌, ◌∷◌, ◌≡◌, ◌≤◌,
}
use nats_desktop.Messaging.RateMeter.{
  RateMeter, advance, inc, new_rate_meter, rate, second, zero_counts,
}
use nats_desktop.Messaging.RateMeter.Window.{
  Follows, advance-Follows, count_if, inc-Follows, recent, slot, sum-Tracks,
}

-- A call of the meter, with the clock's time. `Rate` moves the buckets too.
pub data Call : Type 0 where
  incs reads : ℕ → Call

pub run : List Call → RateMeter → RateMeter
run [] r = r
run (incs t ∷ cs) r = run cs (inc t r)
run (reads t ∷ cs) r = run cs (rate t r).0

-- The times of the counted events, newest first.
pub times : List ℕ → List Call → List ℕ
times past [] = past
times past (incs t ∷ cs) = times (t ∷ past) cs
times past (reads t ∷ cs) = times past cs

abbrev pub time : Call → ℕ
time (incs t) = t
time (reads t) = t

-- The clock does not go back between calls.
abbrev pub Ascending : ℕ → List Call → ℕ → Type 0
Ascending last [] now = last ≤ now
Ascending last (c ∷ cs) now = (last ≤ time c) × Ascending (time c) cs now

module _ (origin width : ℕ) (0<width : 0 < width) where
  abbrev slots : List ℕ → List ℕ
  slots ts = map (slot origin width 0<width) ts

  abbrev At : List ℕ → ℕ → RateMeter → Type 0
  At past last r =
      Follows origin width (slots past) (slot origin width 0<width last) r × (origin ≤ last)

  slot_start :
      (last now : ℕ) → origin ≤ last → last ≤ now → origin + (last - origin) / width * width ≤ now
  slot_start last now o l = omega (arith, div-mul-le_self (last - origin) width)

  run-At :
      (cs : List Call) (past : List ℕ) (last now : ℕ) (r : RateMeter)
      → Ascending last cs now
      → At past last r
      → (k : ℕ) × Follows origin width (slots (times past cs)) k (run cs r)
        × (origin + k * width ≤ now)
  unfolding run times rate
  run-At [] past last now r a h = ((last - origin) / width, h.0, slot_start last now h.1 a)
  run-At (incs t ∷ cs) past last now r a h = run-At cs (t ∷ past) t now (inc t r) a.1 (
    inc-Follows origin width 0<width t ((last - origin) / width) (slots past) r
        (slot_start last t h.1 a.0) h.0,
    omega (arith, h.1),
  )
  run-At (reads t ∷ cs) past last now r a h = run-At cs past t now (advance t r) a.1 (
    advance-Follows origin width 0<width t ((last - origin) / width) (slots past) r
        (slot_start last t h.1 a.0) h.0,
    omega (arith, h.1),
  )

  abbrev fresh : ℕ → RateMeter
  fresh w = record { window = w; width = width; counts = zero_counts; cur = 0; start = origin }

  fresh-Tracks : (w : ℕ) → Follows origin width [] 0 (fresh w)
  unfolding count_if
  fresh-Tracks w = record {
    tracks = record {
      ten = refl;
      cur_lt = omega arith;
      seen = tt;
      slots = λ j l. get_or-replicate 10 ((0 + 10 - j) % 10) 0;
    };
    wide = refl;
    started = omega arith;
  }

  -- Slots against times: an event younger than nine widths is recent, and a recent one is younger
  -- than ten.
  within_one :
      (now t : ℕ)
      → origin ≤ t
      → (now < t + 9 * width → slot origin width 0<width now < slot origin width 0<width t + 10)
        × (slot origin width 0<width now < slot origin width 0<width t + 10 → now < t + 10 * width)
  within_one now t o = (
    λ l. (div-lt_iff_lt-mul 0<width).1 (omega (arith, lt-div-mul-add {a = t - origin} 0<width)),
    λ l. omega (
      arith,
      (div-lt_iff_lt-mul {x = now - origin} 0<width).0 l,
      div-mul-le_self (t - origin) width,
    ),
  )

  abbrev pub AllFrom : List ℕ → Type 0
  AllFrom [] = Unit
  AllFrom (t ∷ ts) = (origin ≤ t) × AllFrom ts

  recent_within :
      (now : ℕ) (ts : List ℕ)
      → AllFrom ts
      → (count_if (λ t. ltb now (t + 9 * width)) ts
          ≤ recent (slot origin width 0<width now) (slots ts))
        × (recent (slot origin width 0<width now) (slots ts)
            ≤ count_if (λ t. ltb now (t + 10 * width)) ts)
  unfolding count_if
  recent_within now [] o = (omega arith, omega arith)
  recent_within now (t ∷ ts) o = ground (arith, within_one now t o.0, recent_within now ts o.1)

  -- The meter reports the events of the ten slots that end with the current one.
  rate-recent :
      (w now : ℕ) (cs : List Call)
      → Ascending origin cs now
      → let r = run cs (fresh w) in
        (rate now r).1 ≡ recent (slot origin width 0<width now) (slots (times [] cs))
  unfolding rate
  rate-recent w now cs a =
      let zero_slot : 0 ≡ (origin - origin) / width =
        (let z : origin - origin ≡ 0 = omega arith in rw z (sym (zero-div width))) in
      let first = subst (λ k. Follows origin width [] k (fresh w)) zero_slot (fresh-Tracks w) in
      let (k, f, s) = run-At cs [] origin now (fresh w) a (first, omega arith) in
      sum-Tracks (slots (times [] cs)) (slot origin width 0<width now)
        (advance now (run cs (fresh w)))
        (advance-Follows origin width 0<width now k (slots (times [] cs)) (run cs (fresh w)) s
          f).tracks

  times-AllFrom :
      (cs : List Call) (past : List ℕ) (last now : ℕ)
      → origin ≤ last
      → Ascending last cs now
      → AllFrom past
      → AllFrom (times past cs)
  unfolding times
  times-AllFrom [] past last now o a h = h
  times-AllFrom (incs t ∷ cs) past last now o a h =
      times-AllFrom cs (t ∷ past) t now (omega arith) a.1 (omega arith, h)
  times-AllFrom (reads t ∷ cs) past last now o a h = times-AllFrom cs past t now (omega arith) a.1 h

-- After any calls, on a clock that does not go back, a meter that was made at `origin` reports at
-- least as many events as are younger than nine bucket widths, and at most as many as are younger
-- than ten.
pub rate_window :
    (window : ℤ) (origin now : ℕ) (cs : List Call)
    → Ascending origin cs now
    → let r = new_rate_meter window origin in
      let reported = (rate now (run cs r)).1 in
      (count_if (λ t. ltb now (t + 9 * r.width)) (times [] cs) ≤ reported)
      × (reported ≤ count_if (λ t. ltb now (t + 10 * r.width)) (times [] cs))
unfolding rate new_rate_meter
rate_window window origin now cs a =
    let w = if leb (pos_part window) 0 then second else pos_part window in
    let width = if ltb (w / 10) 1 then 1 else w / 10 in
    let 0<width : 0 < width = ground arith in
    let ts = times [] cs in
    let (low, high) =
      recent_within origin width 0<width now ts
        (times-AllFrom origin width 0<width cs [] origin now (omega arith) a tt) in
    let e = rate-recent origin width 0<width w now cs a in
    (
      subst (λ n. count_if (λ t. ltb now (t + 9 * width)) ts ≤ n) (sym e) low,
      subst (λ n. n ≤ count_if (λ t. ltb now (t + 10 * width)) ts) (sym e) high,
    )
