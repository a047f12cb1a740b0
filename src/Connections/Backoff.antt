-- ===== src/Connections/Backoff.antt =====
-- `reconnectBackoff` of internal/connections/manager.go: the delay before a reconnect attempt, in
-- nanoseconds of a 64-bit duration.
use native.Mathlib.Nat.{pow-le-pow_right}
use nats_desktop.Base.{
  arith, if◌then◌else◌, ltb, min, mod-eq_of_lt, refl, suc, zero, ℕ, ◌%◌, ◌*◌, ◌^◌, ◌∙◌, ◌≡◌, ◌≤◌,
}
use nats_desktop.Base.Int.{negsuc, pos, ℤ}

abbrev second : ℕ
second = 1_000_000_000

max_backoff : ℕ
max_backoff = 10 * second

-- `time.Duration(1) << min(attempts, 30) * time.Second`: the two operators of one precedence
-- group from the left.
delay : ℕ → ℕ
unfolding max_backoff
delay attempts =
    let d = 2 ^ min attempts 30 * second % 2 ^ 64 in if ltb max_backoff d then max_backoff else d

pub reconnect_backoff : ℤ → ℕ
unfolding delay
reconnect_backoff (pos attempts) = delay attempts
reconnect_backoff (negsuc n) = delay 0

-- Past the fourth attempt the limit applies, and the product fits 64 bits.
delay_limited : (n : ℕ) → 16 ≤ 2 ^ min n 30 → 2 ^ min n 30 ≤ 1_073_741_824 → delay n ≡ 10 * second
unfolding delay
delay_limited n a b =
    let e : (2 ^ min n 30 * second) % 2 ^ 64 ≡ 2 ^ min n 30 * second =
      mod-eq_of_lt (omega (arith, b)) in
    rw (delay, e) (ground arith)

-- For every number of attempts that is not negative, the delay is two to that power in seconds,
-- and at most ten seconds: the 64-bit shift and product do not change that.
pub reconnect_backoff_lem : (n : ℕ) → reconnect_backoff (pos n) ≡ min (2 ^ n * second) (10 * second)
unfolding reconnect_backoff
reconnect_backoff_lem zero = refl
reconnect_backoff_lem (suc zero) = refl
reconnect_backoff_lem (suc (suc zero)) = refl
reconnect_backoff_lem (suc (suc (suc zero))) = refl
reconnect_backoff_lem (suc (suc (suc (suc n)))) =
    let a =
      pow-le-pow_right {n = 2} (omega arith) {i = 4} {j = min (suc (suc (suc (suc n)))) 30}
        (omega arith) in
    let b =
      pow-le-pow_right {n = 2} (omega arith) {i = min (suc (suc (suc (suc n)))) 30} {j = 30}
        (omega arith) in
    let c =
      pow-le-pow_right {n = 2} (omega arith) {i = 4} {j = suc (suc (suc (suc n)))} (omega arith) in
    delay_limited (suc (suc (suc (suc n)))) a b ∙ omega (arith, c)
