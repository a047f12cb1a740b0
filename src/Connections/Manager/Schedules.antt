-- ===== src/Connections/Manager/Schedules.antt =====
-- The sections of the manager, as any number of goroutines may interleave them.

use nats_desktop.Base.{Bool, List, Option, String, [], arith, refl, ℕ, ◌++◌, ◌<◌, ◌∷◌, ◌≡◌, ◌≤◌}
use nats_desktop.Connections.Manager.{
  Manager, Section, State, adopt, begin_attempt, disconnect, on_closed, on_connected, on_disconnect,
  on_error, set_state_if_current,
}

-- A step of one goroutine, without the generation that it carries.
pub data Move : Type 0 where
  sets : State → String → Move
  connects : Option ℕ → Move
  disconnects closes : Move
  errors : Bool → String → Move
  adopts : ℕ → Move

-- What an attempt of the generation `gen`, or a callback that it registered, does.
unfoldable pub move : String → ℕ → Move → Section
unfolding set_state_if_current on_connected on_disconnect on_error on_closed adopt
move now gen (sets state reason) m = set_state_if_current now gen state reason m
move now gen (connects rtt) m = on_connected now gen rtt m
move now gen disconnects m = on_disconnect now gen m
move now gen closes m = on_closed now gen m
move now gen (errors authorization text) m = on_error now gen authorization text m
move now gen (adopts nc) m = ((adopt gen nc m).0, [])

-- The moves with their times and generations.
abbrev pub Moves : Type 0
Moves = List (String × ℕ × Move)

unfoldable pub moves : Moves → Section
unfolding move
moves [] m = (m, [])
moves ((now, gen, a) ∷ l) m =
    let (t, es) = move now gen a m in let (u, fs) = moves l t in (u, es ++ fs)

-- Every move is one of the attempts up to the generation `last`.
unfoldable pub UpTo : ℕ → Moves → Type 0
UpTo last [] = Unit
UpTo last ((now, gen, a) ∷ l) = (gen ≤ last) × UpTo last l

stale : (now : String) (gen : ℕ) (a : Move) (m : Manager) → gen < m.gen → move now gen a m ≡ (m, [])
unfolding move set_state_if_current on_connected on_disconnect on_error on_closed adopt
stale now gen (sets state reason) m h = ground arith
stale now gen (connects rtt) m h = ground arith
stale now gen disconnects m h = ground arith
stale now gen closes m h = ground arith
stale now gen (errors authorization text) m h = ground arith
stale now gen (adopts nc) m h = ground arith

all_stale : (l : Moves) (last : ℕ) (m : Manager) → UpTo last l → last < m.gen → moves l m ≡ (m, [])
unfolding moves UpTo
all_stale [] last m h q = refl
all_stale ((now, gen, a) ∷ l) last m (h, hs) q =
    rw (stale now gen a m (omega (arith, h, q))) (all_stale l last m hs q)

-- A `Disconnect` is final until the next `Connect`: whatever the attempts before it and their
-- callbacks still do, in any order, the manager stays as the `Disconnect` left it, and nothing more
-- is emitted.
pub disconnect-moves :
    (now : String) (l : Moves) (m : Manager)
    → UpTo m.gen l
    → moves l (disconnect now m).0 ≡ ((disconnect now m).0, [])
unfolding disconnect
disconnect-moves now l m h = all_stale l m.gen _ h (omega arith)

-- A new attempt is not disturbed by what earlier attempts and their callbacks still do.
pub begin_attempt-moves :
    (name : String) (l : Moves) (m : Manager)
    → UpTo m.gen l
    → moves l (begin_attempt name m) ≡ (begin_attempt name m, [])
unfolding begin_attempt
begin_attempt-moves name l m h = all_stale l m.gen _ h (omega arith)
