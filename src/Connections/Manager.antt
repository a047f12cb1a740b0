-- ===== src/Connections/Manager.antt =====
-- The connection manager of internal/connections/manager.go: its state, its critical sections, the
-- callbacks of the client library, and `Connect` as the sections that it runs.
-- A connection is a number. A callback carries the generation that it was registered with. The
-- time of a transition, `now`, is the formatted clock.
pub mod Guards
pub mod Schedules
pub mod Views
pub mod Attempts
use Prim.Native.String.{◌++◌ as ◌++ˢ◌}
use nats_desktop.Base.{
  Bool, List, Option, String, [], false, if◌then◌else◌, none, not, some, true, ℕ, ◌++◌, ◌+◌, ◌==◌,
  ◌||◌, ◌∷◌,
}

pub data State : Type 0 where
  disconnected connecting connected reconnecting failed : State

pub record StateEvent : Type 0 where
  pub context : String
  pub state : State
  pub since : String
  pub rtt_ms : ℕ
  pub reason : String

pub record Manager : Type 0 where
  pub nc : Option ℕ
  pub gen : ℕ
  pub active : String
  pub state : State
  pub since : String
  pub rtt_ms : ℕ
  pub reason : String
  pub user_closed : Bool

abbrev pub Section : Type 0
Section = Manager → Manager × List StateEvent

abbrev pub is_failed : State → Bool
is_failed failed = true
is_failed _ = false

abbrev pub is_connected : State → Bool
is_connected connected = true
is_connected _ = false

unfoldable pub new_manager : String → Manager
new_manager now = record {
  nc = none;
  gen = 0;
  active = "";
  state = disconnected;
  since = now;
  rtt_ms = 0;
  reason = "";
  user_closed = false;
}

unfoldable pub snapshot : Manager → StateEvent
snapshot m = record {
  context = m.active;
  state = m.state;
  since = m.since;
  rtt_ms = m.rtt_ms;
  reason = m.reason;
}

-- `emitLocked`.
abbrev emit : Section
emit m = (m, snapshot m ∷ [])

unfoldable pub set_state : String → State → String → Section
set_state now state reason m = emit (record m {
  state = state;
  since = now;
  reason = reason;
  rtt_ms = if is_connected state then m.rtt_ms else 0;
})

unfoldable pub set_state_if_current : String → ℕ → State → String → Section
unfolding set_state
set_state_if_current now gen state reason m =
    if not (m.gen == gen) then (m, []) else set_state now state reason m

-- The guard of the callbacks that an authorization failure silences.
abbrev pub is_ignored : ℕ → Manager → Bool
is_ignored gen m = not (m.gen == gen) || m.user_closed || is_failed m.state

-- The callbacks. `rtt` is what the round trip measured, in milliseconds, or nothing on an error.
abbrev millis : Option ℕ → ℕ
millis none = 0
millis (some ms) = ms

unfoldable pub on_connected : String → ℕ → Option ℕ → Section
on_connected now gen rtt m =
    if not (m.gen == gen) || m.user_closed
    then (m, [])
    else emit (record m { state = connected; since = now; reason = ""; rtt_ms = millis rtt })

unfoldable pub on_disconnect : String → ℕ → Section
unfolding set_state
on_disconnect now gen m = if is_ignored gen m then (m, []) else set_state now reconnecting "" m

-- `authorization` is whether the error's text, in lower case, has that word.
unfoldable pub on_error : String → ℕ → Bool → String → Section
unfolding set_state
on_error now gen authorization text m =
    if not authorization || is_ignored gen m then (m, []) else set_state now failed text m

unfoldable pub on_closed : String → ℕ → Section
unfolding set_state
on_closed now gen m =
    if is_ignored gen m then (m, []) else set_state now failed "connection closed" m

-- The first section of `Connect`.
unfoldable pub begin_attempt : String → Manager → Manager
begin_attempt name m = record m { nc = none; gen = m.gen + 1; user_closed = false; active = name }

-- The last section of `Connect`: the connection is adopted, or given back to be closed.
unfoldable pub adopt : ℕ → ℕ → Manager → Manager × Option ℕ
adopt gen nc m = if not (m.gen == gen) then (m, some nc) else (record m { nc = some nc }, none)

-- `Disconnect`, with the connection that it closes.
unfoldable pub disconnect : String → Manager → Manager × List StateEvent × Option ℕ
unfolding set_state
disconnect now m =
    let (t, es) =
      set_state now disconnected "" (record m { nc = none; user_closed = true; gen = m.gen + 1 }) in
    (t, es, m.nc)

unfoldable pub conn : Manager → Option ℕ
conn m = if not (is_connected m.state) then none else m.nc

-- What the steps of `Connect` that leave this program come to: loading the context, building its
-- options, and dialing.
pub data Attempt : Type 0 where
  load_fails options_fail dial_fails : String → Attempt
  dials : ℕ → Attempt

-- `if old != nil { ...; m.setStateIfCurrent(gen, StateDisconnected, "") }`.
replaced : String → ℕ → Option ℕ → Section
unfolding set_state_if_current
replaced now gen none m = (m, [])
replaced now gen (some old) m = set_state_if_current now gen disconnected "" m

-- What follows `connecting`. `meanwhile` is what other goroutines do during the dial.
outcome : String → ℕ → Section → Attempt → Manager → Manager × List StateEvent × Option String
unfolding set_state_if_current adopt
outcome now gen meanwhile (load_fails text) m =
    let (t, es) = set_state_if_current now gen failed ("load context: " ++ˢ text) m in
    (t, es, some text)
outcome now gen meanwhile (options_fail text) m =
    let (t, es) = set_state_if_current now gen failed ("context options: " ++ˢ text) m in
    (t, es, some text)
outcome now gen meanwhile (dial_fails text) m =
    let (t, es) = meanwhile m in
    let (u, fs) = set_state_if_current now gen failed text t in (u, es ++ fs, some text)
outcome now gen meanwhile (dials nc) m = let (t, es) = meanwhile m in ((adopt gen nc t).0, es, none)

unfoldable pub connect :
    String → String → Section → Attempt → Manager → Manager × List StateEvent × Option String
unfolding begin_attempt replaced set_state_if_current outcome
connect now name meanwhile attempt m =
    let gen = m.gen + 1 in
    let (t, es) = replaced now gen m.nc (begin_attempt name m) in
    let (u, fs) = set_state_if_current now gen connecting "" t in
    let (v, gs, err) = outcome now gen meanwhile attempt u in (v, es ++ fs ++ gs, err)
