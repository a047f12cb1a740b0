-- ===== src/Messaging/RateMeter/Window.antt =====
-- The meter's ten counters against the history of its events. Time is cut into slots of the bucket
-- width, and a history is the list of its events' slots.

use native.Mathlib.Nat.{div-eq_of_lt-le, add-mul-div_right, add_comm}
use nats_desktop.Base.{
  Bool, Bool-cases, List, [], ap, ap₂, arith, get_or, get_or-replicate, get_or-set_ne,
  get_or-set_self, if◌then◌else◌, inl, inr, leb, length, length-set, ltb, refl, set, subst, suc,
  sym, zero, ℕ, ◌%◌, ◌*◌, ◌+◌, ◌-◌, ◌/◌, ◌<◌, ◌==◌, ◌∙◌, ◌∷◌, ◌≡◌, ◌≤◌,
}
use nats_desktop.Messaging.RateMeter.{RateMeter, advance, inc, rate_buckets, roll, sum, zero_counts}
use nats_desktop.Messaging.RateMeter.Sums.{sum-sum_below, sum_below, sum_below-eq, sum_below-rotate}

-- How many numbers pass a test.
unfoldable pub count_if : (ℕ → Bool) → List ℕ → ℕ
count_if p [] = 0
count_if p (x ∷ xs) = (if p x then 1 else 0) + count_if p xs

-- The events of the slot that lies `j` slots before slot `k`.
abbrev pub aged : ℕ → ℕ → List ℕ → ℕ
aged k j hist = count_if (λ s. s + j == k) hist

-- The events of the ten slots that end with slot `k`.
abbrev pub recent : ℕ → List ℕ → ℕ
recent k hist = count_if (λ s. ltb k (s + 10)) hist

abbrev pub AllUpTo : ℕ → List ℕ → Type 0
AllUpTo k [] = Unit
AllUpTo k (s ∷ ss) = (s ≤ k) × AllUpTo k ss

AllUpTo-mono : (k n : ℕ) (ss : List ℕ) → k ≤ n → AllUpTo k ss → AllUpTo n ss
AllUpTo-mono k n [] l h = tt
AllUpTo-mono k n (s ∷ ss) l h = (omega arith, AllUpTo-mono k n ss l h.1)

-- Slot by slot, the counters hold the history up to slot `k`.
pub record Tracks (hist : List ℕ) (k : ℕ) (r : RateMeter) : Type 0 where
  pub ten : length r.counts ≡ 10
  pub cur_lt : r.cur < 10
  pub seen : AllUpTo k hist
  pub slots : (j : ℕ) → j < 10 → get_or r.counts ((r.cur + 10 - j) % 10) 0 ≡ aged k j hist

aged_one :
    (k s n : ℕ)
    → s ≤ k
    → sum_below n (λ j. if s + j == k then 1 else 0) ≡ (if ltb k (s + n) then 1 else 0)
aged_one k s zero h = ground arith
aged_one k s (suc n) h = ground (arith, aged_one k s n h)

sum_below-add : (n : ℕ) (f g : ℕ → ℕ) → sum_below n (λ i. f i + g i) ≡ sum_below n f + sum_below n g
sum_below-add zero f g = refl
sum_below-add (suc n) f g = omega (arith, sum_below-add n f g)

sum_below-zero : (n : ℕ) → sum_below n (λ i. 0) ≡ 0
sum_below-zero zero = refl
sum_below-zero (suc n) = omega (arith, sum_below-zero n)

sum_below-aged :
    (k : ℕ) (hist : List ℕ) → AllUpTo k hist → sum_below 10 (λ j. aged k j hist) ≡ recent k hist
unfolding count_if
sum_below-aged k [] h = refl
sum_below-aged k (s ∷ hist) h =
    sum_below-add 10 (λ j. if s + j == k then 1 else 0) (λ j. aged k j hist)
    ∙ ap₂ ◌+◌ (aged_one k s 10 h.0) (sum_below-aged k hist h.1)

-- The sum of the counters is the number of recent events.
pub sum-Tracks :
    (hist : List ℕ) (k : ℕ) (r : RateMeter) → Tracks hist k r → sum r.counts ≡ recent k hist
sum-Tracks hist k r h =
    sum-sum_below r.counts
    ∙ ap (λ n. sum_below n (λ i. get_or r.counts i 0)) h.ten
    ∙ sum_below-rotate (λ i. get_or r.counts i 0) r.cur h.cur_lt
    ∙ sum_below-eq 10 _ _ h.slots
    ∙ sum_below-aged k hist h.seen

aged_future : (k n j : ℕ) (hist : List ℕ) → k + j < n → AllUpTo k hist → aged n j hist ≡ 0
unfolding count_if
aged_future k n j [] l h = refl
aged_future k n j (s ∷ hist) l h = ground (arith, aged_future k n j hist l h.1)

aged-suc : (k j : ℕ) (hist : List ℕ) → aged (suc k) (suc j) hist ≡ aged k j hist
unfolding count_if
aged-suc k j [] = refl
aged-suc k j (s ∷ hist) = ground (arith, aged-suc k j hist)

aged_self : (k : ℕ) (hist : List ℕ) → aged k 0 (k ∷ hist) ≡ aged k 0 hist + 1
unfolding count_if
aged_self k hist = ground arith

aged_other : (k j : ℕ) (hist : List ℕ) → aged k (suc j) (k ∷ hist) ≡ aged k (suc j) hist
unfolding count_if
aged_other k j hist = ground arith

abbrev rolled : RateMeter → RateMeter
rolled r = record r {
  cur = (r.cur + 1) % rate_buckets;
  counts = set r.counts ((r.cur + 1) % rate_buckets) 0;
}

rolled_slots :
    (hist : List ℕ) (k : ℕ) (r : RateMeter) (j : ℕ)
    → Tracks hist k r
    → j < 10
    → get_or (rolled r).counts (((rolled r).cur + 10 - j) % 10) 0 ≡ aged (suc k) j hist
rolled_slots hist k r zero h l =
    let at = (r.cur + 1) % 10 in
    let same : (at + 10 - 0) % 10 ≡ at = omega arith in
    rw same (
      get_or-set_self r.counts at 0 0 (omega (arith, h.ten))
      ∙ sym (aged_future k (suc k) 0 hist (omega arith) h.seen))
rolled_slots hist k r (suc j) h l =
    let at = (r.cur + 1) % 10 in
    let same : (at + 10 - suc j) % 10 ≡ (r.cur + 10 - j) % 10 = omega (arith, h.cur_lt) in
    rw same (
      get_or-set_ne r.counts at ((r.cur + 10 - j) % 10) 0 0 (omega (arith, h.cur_lt))
      ∙ h.slots j (omega arith)
      ∙ sym (aged-suc k j hist))

rolled-Tracks :
    (hist : List ℕ) (k : ℕ) (r : RateMeter) → Tracks hist k r → Tracks hist (suc k) (rolled r)
rolled-Tracks hist k r h = record {
  ten = length-set r.counts ((r.cur + 1) % 10) 0 ∙ h.ten;
  cur_lt = omega arith;
  seen = AllUpTo-mono k (suc k) hist (omega arith) h.seen;
  slots = λ j l. rolled_slots hist k r j h l;
}

roll-Tracks :
    (n k m : ℕ) (hist : List ℕ) (r : RateMeter)
    → k + n ≡ m
    → Tracks hist k r
    → Tracks hist m (roll n r)
unfolding roll
roll-Tracks zero k m hist r e h = subst (λ t. Tracks hist t r) (omega arith) h
roll-Tracks (suc n) k m hist r e h =
    roll-Tracks n (suc k) m hist (rolled r) (omega arith) (rolled-Tracks hist k r h)

-- The loop leaves the clock fields alone.
roll_clock :
    (n : ℕ) (r : RateMeter)
    → ((roll n r).start ≡ r.start) × ((roll n r).width ≡ r.width) × ((roll n r).window ≡ r.window)
unfolding roll
roll_clock zero r = (refl, refl, refl)
roll_clock (suc n) r = roll_clock n (rolled r)

reset-Tracks :
    (hist : List ℕ) (k m : ℕ) (r : RateMeter)
    → k + 10 ≤ m
    → Tracks hist k r
    → Tracks hist m (record r { counts = zero_counts })
reset-Tracks hist k m r l h = record {
  ten = refl;
  cur_lt = h.cur_lt;
  seen = AllUpTo-mono k m hist (omega arith) h.seen;
  slots = λ j b.
      get_or-replicate 10 ((r.cur + 10 - j) % 10) 0
      ∙ sym (aged_future k m j hist (omega arith) h.seen);
}

restarted-Tracks :
    (hist : List ℕ) (k : ℕ) (r : RateMeter) (s : ℕ)
    → Tracks hist k r
    → Tracks hist k (record r { start = s })
restarted-Tracks hist k r s h = record {
  ten = h.ten;
  cur_lt = h.cur_lt;
  seen = h.seen;
  slots = h.slots;
}

-- The meter follows the clock: its current bucket is slot `k` of the time since `origin`.
pub record Follows (origin width : ℕ) (hist : List ℕ) (k : ℕ) (r : RateMeter) : Type 0 where
  pub tracks : Tracks hist k r
  pub wide : r.width ≡ width
  pub started : r.start ≡ origin + k * width

module _ (origin width : ℕ) (0<width : 0 < width) where
  abbrev pub slot : ℕ → ℕ
  slot t = (t - origin) / width

  slot_stays :
      (k now : ℕ) → origin + k * width ≤ now → now - (origin + k * width) < width → slot now ≡ k
  slot_stays k now l h = div-eq_of_lt-le width {m = now - origin} (omega arith) (omega arith)

  slot_moves :
      (k now : ℕ) → origin + k * width ≤ now → slot now ≡ k + (now - (origin + k * width)) / width
  slot_moves k now l =
      let e : now - origin ≡ now - (origin + k * width) + k * width = omega arith in
      rw e (
        add-mul-div_right (now - (origin + k * width)) k 0<width
        ∙ add_comm ((now - (origin + k * width)) / width) k)

  slot_shift :
      (now k : ℕ) (hist : List ℕ) (r : RateMeter)
      → origin + k * width ≤ now
      → Follows origin width hist k r
      → slot now ≡ k + (now - r.start) / r.width
  slot_shift now k hist r l h = rw (h.wide, h.started) (slot_moves k now l)

  abbrev shifted : ℕ → RateMeter → RateMeter
  shifted shift r =
      let q = if leb rate_buckets shift then record r { counts = zero_counts } else roll shift r in
      record q { start = q.start + shift * q.width }

  shift-Follows :
      (k shift : ℕ) (hist : List ℕ) (r : RateMeter)
      → Follows origin width hist k r
      → Follows origin width hist (k + shift) (shifted shift r)
  shift-Follows k shift hist r h = elim (Bool-cases (leb rate_buckets shift)) [
    | inl t ↦ rw t (record {
      tracks =
          restarted-Tracks hist (k + shift) (record r { counts = zero_counts })
            (r.start + shift * r.width) (reset-Tracks hist k (k + shift) r (ground arith) h.tracks);
      wide = h.wide;
      started = rw (h.wide, h.started) (omega arith);
    })
    | inr t ↦ rw t (record {
      tracks =
          restarted-Tracks hist (k + shift) (roll shift r)
            ((roll shift r).start + shift * (roll shift r).width)
            (roll-Tracks shift k (k + shift) hist r refl h.tracks);
      wide = (roll_clock shift r).1 ∙ h.wide;
      started =
          rw ((roll_clock shift r).0, (roll_clock shift r).1, h.wide, h.started) (omega arith);
    })
  ]

  pub advance-Follows :
      (now k : ℕ) (hist : List ℕ) (r : RateMeter)
      → origin + k * width ≤ now
      → Follows origin width hist k r
      → Follows origin width hist (slot now) (advance now r)
  unfolding advance
  advance-Follows now k hist r l h =
      let shift = (now - r.start) / r.width in
      let e : slot now ≡ k + shift = slot_shift now k hist r l h in
      elim (Bool-cases (ltb (now - r.start) r.width)) [
        | inl t ↦
            rw (t, advance)
              (subst (λ m. Follows origin width hist m r)
                (sym (slot_stays k now l (ground (arith, h.started, h.wide)))) h)
        | inr t ↦ rw (t, advance, e) (shift-Follows k shift hist r h)
      ]

  bump-Tracks :
      (k : ℕ) (hist : List ℕ) (r : RateMeter)
      → Tracks hist k r
      → Tracks (k ∷ hist) k (record r { counts = set r.counts r.cur (get_or r.counts r.cur 0 + 1) })
  bump-Tracks k hist r h = record {
    ten = length-set r.counts r.cur (get_or r.counts r.cur 0 + 1) ∙ h.ten;
    cur_lt = h.cur_lt;
    seen = (omega arith, h.seen);
    slots = bumped;
  }
    where
      bumped :
          (j : ℕ)
          → j < 10
          → get_or (set r.counts r.cur (get_or r.counts r.cur 0 + 1)) ((r.cur + 10 - j) % 10) 0
            ≡ aged k j (k ∷ hist)
      bumped zero l =
          let v = get_or r.counts r.cur 0 + 1 in
          let same : (r.cur + 10 - 0) % 10 ≡ r.cur = omega (arith, h.cur_lt) in
          rw same (
            get_or-set_self r.counts r.cur v 0 (omega (arith, h.ten, h.cur_lt))
            ∙ sym (
                aged_self k hist
                ∙ ap (λ n. n + 1) (sym (h.slots 0 l) ∙ ap (λ i. get_or r.counts i 0) same)))
      bumped (suc j) l =
          get_or-set_ne r.counts r.cur ((r.cur + 10 - suc j) % 10) (get_or r.counts r.cur 0 + 1) 0
            (omega (arith, h.cur_lt))
          ∙ h.slots (suc j) l
          ∙ sym (aged_other k j hist)

  pub inc-Follows :
      (now k : ℕ) (hist : List ℕ) (r : RateMeter)
      → origin + k * width ≤ now
      → Follows origin width hist k r
      → Follows origin width (slot now ∷ hist) (slot now) (inc now r)
  unfolding inc
  inc-Follows now k hist r l h =
      let a = advance-Follows now k hist r l h in
      record {
        tracks = bump-Tracks (slot now) hist (advance now r) a.tracks;
        wide = a.wide;
        started = a.started;
      }
