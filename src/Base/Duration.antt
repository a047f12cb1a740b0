-- ===== src/Base/Duration.antt =====
-- `time.Duration`: an int64 of nanoseconds, whose products wrap around.
use nats_desktop.Base.{ap, arith, if◌then◌else◌, ltb, ℕ, ◌%◌, ◌*◌, ◌+◌, ◌-◌, ◌/◌, ◌^◌, ◌≡◌, ◌≤◌}
use nats_desktop.Base.Int.{negsuc, pos, ℤ, ◌-ℤ◌, ◌≤ℤ◌}

-- The bits of an integer, and the int64 with those bits.
abbrev pub to_bits : ℤ → ℕ
to_bits (pos n) = n % 2 ^ 64
to_bits (negsuc n) = 2 ^ 64 - 1 - n % 2 ^ 64

abbrev pub of_bits : ℕ → ℤ
of_bits n = if ltb n (2 ^ 63) then pos n else negsuc (2 ^ 64 - 1 - n)

-- `time.Duration(n) * unit`.
unfoldable pub times : ℤ → ℕ → ℤ
times n unit = of_bits ((to_bits n * unit) % 2 ^ 64)

-- `int64(d / unit)`, which rounds towards 0.
unfoldable pub whole : ℤ → ℕ → ℤ
whole (pos d) unit = pos (d / unit)
whole (negsuc d) unit = pos 0 -ℤ pos ((d + 1) / unit)

abbrev pub second : ℕ
second = 1_000_000_000

-- A number of seconds that an int64 of nanoseconds can hold.
abbrev pub Fits : ℤ → Type 0
Fits n = (pos 0 ≤ℤ n) × (n ≤ℤ pos 9_223_372_036)

pub times-second : (n : ℕ) → n ≤ 9_223_372_036 → times (pos n) second ≡ pos (n * second)
unfolding times
times-second n h = ground arith

-- Seconds come back as they were.
pub whole-times : (n : ℤ) → Fits n → whole (times n second) second ≡ n
unfolding whole
whole-times (pos n) h = rw (times-second n (omega arith)) (ap pos (omega arith))
whole-times (negsuc n) h = absurd (omega (arith, h))
