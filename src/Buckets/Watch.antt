-- ===== src/Buckets/Watch.antt =====
-- One watcher of desktop/internal/buckets/watch.go: its bounded queue, the reader goroutine that
-- offers the updates (`offer`) and the goroutine that emits them (`launch`).
-- A step is one select or one channel operation of one of the two goroutines. A payload is kept as
-- bytes.
pub mod Queue
pub mod Progress
pub mod Draining
use nats_desktop.Base.{
  Bool, List, Option, String, [], false, if◌then◌else◌, length, ltb, none, some, true, ℕ, ◌%◌, ◌++◌,
  ◌+◌, ◌^◌, ◌∷◌,
}
use nats_desktop.Base.Int.{ℤ}

pub record KvWatchEvent : Type 0 where
  pub watch_id : String
  pub bucket : String
  pub key : String
  pub revision : ℕ
  pub operation : String
  pub payload : List ℕ
  pub payload_size : ℕ
  pub is_utf8 : Bool
  pub timestamp_ms : ℤ
  pub dropped_total : ℕ

pub record ObjWatchEvent : Type 0 where
  pub watch_id : String
  pub bucket : String
  pub name : String
  pub size : ℕ
  pub chunks : ℕ
  pub digest : String
  pub mod_time_ms : ℤ
  pub deleted : Bool
  pub dropped_total : ℕ

pub data WatchEvent : Type 0 where
  kv_event : KvWatchEvent → WatchEvent
  obj_event : ObjWatchEvent → WatchEvent

abbrev pub watch_queue_capacity : ℕ
watch_queue_capacity = 4096

-- The two branches of the emitting goroutine.
abbrev pub stamp : ℕ → WatchEvent → WatchEvent
stamp n (kv_event e) = kv_event (record e { dropped_total = n })
stamp n (obj_event e) = obj_event (record e { dropped_total = n })

-- Where the reader goroutine stands: waiting for an update, before the send of `offer`, or before
-- the receive of its default branch.
pub data Reader : Type 0 where
  idle : Reader
  sends drops_oldest : WatchEvent → Reader

-- `held` is the event that the emitting goroutine has received and not emitted yet. `offered` and
-- `emitted` record the arguments of all calls of `offer` and of `emit`.
pub record Entry : Type 0 where
  pub ch : List WatchEvent
  pub dropped : ℕ
  pub done : Bool
  pub exited : Bool
  pub reader : Reader
  pub held : Option WatchEvent
  pub offered : List WatchEvent
  pub emitted : List WatchEvent

unfoldable pub launch : Entry
launch = record {
  ch = [];
  dropped = 0;
  done = false;
  exited = false;
  reader = idle;
  held = none;
  offered = [];
  emitted = [];
}

-- A call of `offer`. The reader goroutine makes the next one after the last one has returned.
offer_from : WatchEvent → Reader → Entry → Entry
offer_from v idle e = record e { reader = sends v; offered = e.offered ++ (v ∷ []) }
offer_from v r e = e

unfoldable pub offer : WatchEvent → Entry → Entry
unfolding offer_from
offer v e = offer_from v e.reader e

-- `n%dropWarnEvery` only decides on a line of the log, which is not modelled.
drop_oldest : WatchEvent → List WatchEvent → Entry → Entry
drop_oldest v [] e = record e { reader = sends v }
drop_oldest v (x ∷ xs) e = record e {
  reader = sends v;
  ch = xs;
  dropped = (e.dropped + 1) % (2 ^ 64);
}

-- The next select of `offer`, on a channel of the given capacity.
offer_next : ℕ → Reader → Entry → Entry
unfolding drop_oldest
offer_next cap idle e = e
offer_next cap (sends v) e =
    if ltb (length e.ch) cap
    then record e { reader = idle; ch = e.ch ++ (v ∷ []) }
    else record e { reader = drops_oldest v }
offer_next cap (drops_oldest v) e = drop_oldest v e.ch e

unfoldable pub offer_step : ℕ → Entry → Entry
unfolding offer_next
offer_step cap e = offer_next cap e.reader e

-- The emitting goroutine receives, then emits with the counter as it is then.
receive_from : List WatchEvent → Entry → Entry
receive_from [] e = e
receive_from (x ∷ xs) e = record e { ch = xs; held = some x }

emit_held : Option WatchEvent → Entry → Entry
unfolding receive_from
emit_held none e = if e.exited then e else receive_from e.ch e
emit_held (some x) e = record e { held = none; emitted = e.emitted ++ (stamp e.dropped x ∷ []) }

unfoldable pub emit_step : Entry → Entry
unfolding emit_held
emit_step e = emit_held e.held e

-- The emitting goroutine sees that `done` is closed. It may as well see a waiting event first.
exit_from : Option WatchEvent → Entry → Entry
exit_from none e = if e.done then record e { exited = true } else e
exit_from (some x) e = e

unfoldable pub exit_step : Entry → Entry
unfolding exit_from
exit_step e = exit_from e.held e

unfoldable pub stop : Entry → Entry
stop e = record e { done = true }

-- What happens to a watcher.
pub data Move : Type 0 where
  offers : WatchEvent → Move
  goes_on emits exits stops : Move

unfoldable pub step : ℕ → Move → Entry → Entry
step cap (offers v) e = offer v e
step cap goes_on e = offer_step cap e
step cap emits e = emit_step e
step cap exits e = exit_step e
step cap stops e = stop e

unfoldable pub run : ℕ → List Move → Entry → Entry
unfolding step
run cap [] e = e
run cap (m ∷ ms) e = run cap ms (step cap m e)
