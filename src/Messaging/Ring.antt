-- ===== src/Messaging/Ring.antt =====
-- The drop-oldest ring buffer of desktop/internal/messaging/pipeline.go (`ring`).
-- A method that mutates `*ring` returns the new record; the mutex makes each call one step.
-- `dropped` is an int64 that grows by one a call, and is left unbounded.
pub mod Contents
pub mod History
use nats_desktop.Base.{
  List, [], get_or, if◌then◌else◌, length, ltb, replicate, set, suc, zero, ℕ, ◌%◌, ◌+◌, ◌-◌, ◌==◌,
  ◌∷◌,
}
use nats_desktop.Base.Int.{pos_part, ℤ}

pub record Ring {ℓ} (A : Type ℓ) : Type ℓ where
  pub buf : List A
  pub head : ℕ
  pub size : ℕ
  pub dropped : ℕ

module _ {ℓ} {A : Type ℓ} where
  -- `make([]MsgOut, max(capacity, 0))`: every slot holds the zero value `z`.
  unfoldable pub new_ring : A → ℤ → Ring A
  new_ring z capacity = record {
    buf = replicate (pos_part capacity) z;
    head = 0;
    size = 0;
    dropped = 0;
  }

  unfoldable pub add : A → Ring A → Ring A
  add m r =
      let c = length r.buf in
      if c == 0
      then record r { dropped = r.dropped + 1 }
      else if ltb r.size c
      then record r { buf = set r.buf ((r.head + r.size) % c) m; size = r.size + 1 }
      else record r { buf = set r.buf r.head m; head = (r.head + 1) % c; dropped = r.dropped + 1 }

  -- The copying loop of `Snapshot`: `n` slots from index `i` on, modulo the capacity.
  gather : A → List A → ℕ → ℕ → ℕ → List A
  gather z buf start i zero = []
  gather z buf start i (suc n) =
      get_or buf ((start + i) % length buf) z ∷ gather z buf start (suc i) n

  -- `z` is read only out of bounds, which the invariant rules out.
  pub snapshot : A → ℕ → Ring A → List A
  unfolding gather
  snapshot z n r =
      let n' = if ltb r.size n then r.size else n in
      if n' == 0 then [] else gather z r.buf ((r.head + r.size - n') % length r.buf) 0 n'
