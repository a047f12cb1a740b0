-- ===== src/Buckets/Registry.antt =====
-- The watchers of a service: `watchRegistry`, `StopWatch` and `NotifyConnState` of
-- desktop/internal/buckets/watch.go. A watcher is known by the number of its launch; `stopped`
-- records the calls of its `stop`, which closes its channel `done`.
-- `format` is `strconv.FormatUint(n, 10)`.
pub mod Stops
use text.Mathlib.Text.{◌==◌ as str_eq}
use nats_desktop.Base.{
  List, Option, String, [], if◌then◌else◌, map, none, some, ℕ, ◌%◌, ◌++◌, ◌+◌, ◌^◌, ◌∷◌,
}
use nats_desktop.Connections.Manager.{State, connected}

-- A map from ids to watchers.
abbrev pub Watches : Type 0
Watches = List (String × ℕ)

pub lookup : String → Watches → Option ℕ
lookup id [] = none
lookup id ((k, h) ∷ l) = if str_eq k id then some h else lookup id l

pub without : String → Watches → Watches
without id [] = []
without id ((k, h) ∷ l) = if str_eq k id then l else (k, h) ∷ without id l

pub put : String → ℕ → Watches → Watches
put id h [] = (id, h) ∷ []
put id h ((k, g) ∷ l) = if str_eq k id then (id, h) ∷ l else (k, g) ∷ put id h l

abbrev pub handles : Watches → List ℕ
handles l = map (λ (e : String × ℕ). e.1) l

-- `creating` holds the watchers that a `CreateKvWatch` or `CreateObjWatch` has launched under a new
-- id and not added yet.
pub record Registry : Type 0 where
  pub next : ℕ
  pub launched : ℕ
  pub creating : Watches
  pub entries : Watches
  pub stopped : List ℕ

abbrev pub no_watches : Registry
no_watches = record { next = 0; launched = 0; creating = []; entries = []; stopped = [] }

-- What `StopWatch` answers.
pub data StopResult : Type 0 where
  stop_ok empty_watch_id unknown_watch_id : StopResult

module _ (format : ℕ → String) where
  -- `allocate`, then `launch`.
  unfoldable pub allocate : Registry → Registry
  allocate r =
      let n = (r.next + 1) % (2 ^ 64) in
      record r {
        next = n;
        launched = r.launched + 1;
        creating = r.creating ++ ((format n, r.launched + 1) ∷ []);
      }

add_found : String → Option ℕ → Registry → Registry
unfolding put without
add_found id none r = r
add_found id (some h) r = record r {
  creating = without id r.creating;
  entries = put id h r.entries;
}

-- `add`, by the goroutine that has launched the watcher.
unfoldable pub add : String → Registry → Registry
unfolding add_found lookup
add id r = add_found id (lookup id r.creating) r

stop_found : String → Option ℕ → Registry → Registry × StopResult
unfolding without
stop_found id none r = (r, unknown_watch_id)
stop_found id (some h) r =
    (record r { entries = without id r.entries; stopped = r.stopped ++ (h ∷ []) }, stop_ok)

-- `StopWatch`: `remove`, then `stop`.
unfoldable pub stop_watch : String → Registry → Registry × StopResult
unfolding stop_found lookup
stop_watch id r =
    if str_eq id "" then (r, empty_watch_id) else stop_found id (lookup id r.entries) r

unfoldable pub stop_all : Registry → Registry
stop_all r = record r { entries = []; stopped = r.stopped ++ handles r.entries }

unfoldable pub notify_conn_state : State → Registry → Registry
notify_conn_state connected r = r
notify_conn_state s r = stop_all r

pub data Call : Type 0 where
  creates : Call
  adds stops : String → Call
  notifies : State → Call

module _ (format : ℕ → String) where
  unfoldable pub call : Call → Registry → Registry
  unfolding notify_conn_state
  call creates r = allocate format r
  call (adds id) r = add id r
  call (stops id) r = (stop_watch id r).0
  call (notifies s) r = notify_conn_state s r

  unfoldable pub calls : List Call → Registry → Registry
  unfolding call
  calls [] r = r
  calls (c ∷ cs) r = calls cs (call c r)
