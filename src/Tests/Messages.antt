-- ===== src/Tests/Messages.antt =====
-- The pipeline of internal/messaging on concrete inputs.

use nats_desktop.Base.{
  Bool, List, String, [], arith, drop, false, length, ltb, min, refl, replicate, ℕ, ◌%◌, ◌*◌, ◌+◌,
  ◌-◌, ◌==◌, ◌∷◌, ◌≡◌, ◌≤◌,
}
use nats_desktop.Base.Int.{pos}
use nats_desktop.Messaging.Ring.{new_ring, snapshot}
use nats_desktop.Messaging.Ring.History.{add_all, add_all-new_ring, newest}
use nats_desktop.Messaging.Pusher.{Pusher}
use nats_desktop.Messaging.Pusher.Sequential
use nats_desktop.Messaging.Pusher.Sequential.{Call, adds, flushes, run, ticks}
use nats_desktop.Messaging.Pusher.Concurrent
use nats_desktop.Messaging.Pusher.Concurrent.{
  World, accounted, after_add, here, next, no_loss, start, tally,
}
use nats_desktop.Messaging.RateMeter.{new_rate_meter, rate}
use nats_desktop.Messaging.RateMeter.Rates
use nats_desktop.Messaging.RateMeter.Rates.{incs, rate_window, reads, times}
use nats_desktop.Messaging.RateMeter.Window.{count_if}
use nats_desktop.Messaging.Wire.{Filters, Headers}

abbrev five : List ℕ
five = 1 ∷ 2 ∷ 3 ∷ 4 ∷ 5 ∷ []

add_all-new_ring_example :
    let r = add_all five (new_ring 0 (pos 3)) in
    (snapshot 0 2 r ≡ drop (length (newest 3 five) - 2) (newest 3 five))
    × (r.size ≡ min (length five) 3)
    × (r.dropped ≡ length five - 3)
add_all-new_ring_example = add_all-new_ring 0 (pos 3) five 2

abbrev calls : List (Sequential.Call ℕ)
calls =
    Sequential.adds 7
    ∷ Sequential.ticks
    ∷ Sequential.adds 8
    ∷ Sequential.adds 9
    ∷ Sequential.flushes
    ∷ []

abbrev idle : Pusher ℕ
idle = record { mode = "batch"; stopped = false; buf = 5 ∷ [] }

abbrev is_even : ℕ → Bool
is_even n = n % 2 == 0

abbrev added_once : Concurrent.World ℕ
added_once = Concurrent.after_add 4 (Concurrent.start "batch")

no_loss_example :
    Concurrent.accounted is_even added_once ≡ Concurrent.tally is_even added_once.accepted
no_loss_example = no_loss is_even "batch" (Concurrent.next Concurrent.here (Concurrent.adds 4 refl))

abbrev later : List ℕ
later = replicate 500 0

abbrev clock : List Rates.Call
clock = Rates.incs 100 ∷ Rates.reads 400_000_000 ∷ Rates.incs 900_000_000 ∷ []

rate_window_example :
    let r = new_rate_meter (pos 1_000_000_000) 50 in
    let reported = (rate 1_050_000_000 (Rates.run clock r)).1 in
    (count_if (λ t. ltb 1_050_000_000 (t + 9 * r.width)) (Rates.times [] clock) ≤ reported)
    × (reported ≤ count_if (λ t. ltb 1_050_000_000 (t + 10 * r.width)) (Rates.times [] clock))
rate_window_example = rate_window (pos 1_000_000_000) 50 1_050_000_000 clock (omega arith)

abbrev header : Headers
header = ("kind", "a" ∷ "b" ∷ []) ∷ []

abbrev wanted : Filters
wanted = ("kind", "b") ∷ []

abbrev orders : String
orders = "orders.new"
