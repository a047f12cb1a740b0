-- ===== src/Messaging/RateMeter.antt =====
-- The sliding-window rate meter of desktop/internal/messaging/pipeline.go (`rateMeter`).
-- Times and durations are nanoseconds. The clock is an argument of each call; `now.Sub(r.start)` of a
-- clock that is behind `start` is negative in Go and 0 here, and both are below `width`.
-- A rate is a float64 quotient: the model returns its numerator and the window instead.
pub mod Sums
pub mod Window
pub mod Rates
use nats_desktop.Base.{
  List, [], get_or, if◌then◌else◌, leb, ltb, replicate, set, suc, zero, ℕ, ◌%◌, ◌*◌, ◌+◌, ◌-◌, ◌/◌,
  ◌∷◌,
}
use nats_desktop.Base.Int.{pos_part, ℤ}

abbrev pub rate_buckets : ℕ
rate_buckets = 10

abbrev pub second : ℕ
second = 1_000_000_000

pub record RateMeter : Type 0 where
  pub window : ℕ
  pub width : ℕ
  pub counts : List ℕ
  pub cur : ℕ
  pub start : ℕ

abbrev pub zero_counts : List ℕ
zero_counts = replicate rate_buckets 0

unfoldable pub new_rate_meter : ℤ → ℕ → RateMeter
new_rate_meter window now =
    let w = if leb (pos_part window) 0 then second else pos_part window in
    let width = w / rate_buckets in
    record {
      window = w;
      width = if ltb width 1 then 1 else width;
      counts = zero_counts;
      cur = 0;
      start = now;
    }

-- The loop of `advance`, `shift` rounds.
roll : ℕ → RateMeter → RateMeter
roll zero r = r
roll (suc shift) r =
    let cur = (r.cur + 1) % rate_buckets in
    roll shift (record r { cur = cur; counts = set r.counts cur 0 })

pub advance : ℕ → RateMeter → RateMeter
advance now r =
    let elapsed = now - r.start in
    if ltb elapsed r.width
    then r
    else let shift = elapsed / r.width in
      let q = if leb rate_buckets shift then record r { counts = zero_counts } else roll shift r in
      record q { start = q.start + shift * q.width }

pub inc : ℕ → RateMeter → RateMeter
inc now r =
    let a = advance now r in record a { counts = set a.counts a.cur (get_or a.counts a.cur 0 + 1) }

unfoldable pub sum : List ℕ → ℕ
sum [] = 0
sum (c ∷ cs) = c + sum cs

-- `float64(sum) / r.window.Seconds()`: the sum, with the window in nanoseconds.
pub rate : ℕ → RateMeter → RateMeter × ℕ × ℕ
rate now r = let a = advance now r in (a, sum a.counts, a.window)
