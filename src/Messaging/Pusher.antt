-- ===== src/Messaging/Pusher.antt =====
-- The batching pusher of desktop/internal/messaging/pipeline.go (`pusher`).
-- `p.mu` makes each critical section one step. A call returns the new record and the batch that it
-- took out under the lock, which the caller hands to `emit` after it has released the lock.
-- `stopCh`, `done` and the wait of `Stop` for the timer goroutine are not part of the record.
pub mod Sequential
pub mod Concurrent
use text.Mathlib.Text.{◌==◌ as str_eq}
use nats_desktop.Base.{
  Bool, List, Option, String, [], false, if◌then◌else◌, length, ltb, none, some, true, ℕ, ◌++◌,
  ◌||◌, ◌∷◌,
}

-- `PushMode` is a string type; any string can come in from the frontend.
abbrev pub PushMode : Type 0
PushMode = String

abbrev pub push_realtime : PushMode
push_realtime = "realtime"

abbrev pub push_batch : PushMode
push_batch = "batch"

abbrev pub batch_max_msgs : ℕ
batch_max_msgs = 500

abbrev pub realtime_max_msgs : ℕ
realtime_max_msgs = batch_max_msgs

pub record Pusher {ℓ} (A : Type ℓ) : Type ℓ where
  pub mode : PushMode
  pub stopped : Bool
  pub buf : List A

-- The threshold of the mode.
unfoldable pub max_msgs : PushMode → ℕ
max_msgs mode = if str_eq mode push_realtime then realtime_max_msgs else batch_max_msgs

module _ {ℓ} {A : Type ℓ} where
  unfoldable pub new_pusher : PushMode → Pusher A
  new_pusher mode = record { mode = mode; stopped = false; buf = [] }

  abbrev pub is_empty : List A → Bool
  is_empty [] = true
  is_empty (x ∷ xs) = false

  -- `b := p.buf; p.buf = nil`
  abbrev pub take_buf : Pusher A → Pusher A × Option (List A)
  take_buf p = (record p { buf = [] }, some p.buf)

  unfoldable pub add : A → Pusher A → Pusher A × Option (List A)
  add m p =
      if p.stopped
      then (p, none)
      else let q = record p { buf = p.buf ++ m ∷ [] } in
        if ltb (length q.buf) (max_msgs p.mode) then (q, none) else take_buf q

  unfoldable pub flush : Pusher A → Pusher A × Option (List A)
  flush p = if p.stopped || is_empty p.buf then (p, none) else take_buf p

  -- One firing of the ticker in `run`.
  unfoldable pub tick : Pusher A → Pusher A × Option (List A)
  tick p = if p.stopped || is_empty p.buf then (p, none) else take_buf p

  unfoldable pub stop : Pusher A → Pusher A
  stop p = record p { stopped = true; buf = [] }
