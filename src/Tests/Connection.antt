-- ===== src/Tests/Connection.antt =====
-- The connection manager on concrete inputs.

use nats_desktop.Base.{List, [], arith, false, none, refl, some, ◌++◌, ◌∷◌, ◌≡◌}
use nats_desktop.Connections.Manager.{
  Manager, StateEvent, begin_attempt, conn, connected, disconnect, failed, new_manager,
}
use nats_desktop.Connections.Manager.Schedules.{
  Moves, UpTo, adopts, connects, disconnect-moves, disconnects, move, moves, sets,
}
use nats_desktop.Connections.Manager.Guards.{
  IsMove, Reach, World, begins, conn_live, fresh, moves_on, owner_after,
}
use nats_desktop.Connections.Manager.Views.{Reach-Shows, Shows, last_event}

-- An attempt that connects.
abbrev first : Manager
first = new_manager "t0"

abbrev dialing : Manager
dialing = begin_attempt "prod" first

abbrev online : Manager
online = (move "t1" 1 (connects (some 3)) dialing).0

abbrev adopted : Manager
adopted = (move "t2" 1 (adopts 7) online).0

abbrev w : World
w = record { m = adopted; last = 1; owner = 1 }

abbrev events : List StateEvent
events = ([] ++ (move "t1" 1 (connects (some 3)) dialing).1) ++ (move "t2" 1 (adopts 7) online).1

abbrev reached : Reach w events
unfolding begin_attempt new_manager IsMove move owner_after
reached =
    moves_on "t2" 1 (adopts 7)
      (moves_on "t1" 1 (connects (some 3)) (begins "prod" (fresh "t0")) (omega arith) tt)
      (omega arith) tt

conn_live_example :
    (w.m.state ≡ connected) × (w.owner ≡ w.m.gen) × (w.last ≡ w.m.gen) × (w.m.user_closed ≡ false)
unfolding conn move begin_attempt new_manager
conn_live_example = conn_live 7 reached refl

Reach-Shows_example : Shows (last_event events) w.m
Reach-Shows_example = Reach-Shows reached

abbrev late : Moves
late = ("t3", 1, disconnects) ∷ ("t4", 1, sets failed "dial") ∷ ("t5", 1, connects none) ∷ []

disconnect-moves_example :
    moves late (disconnect "t3" adopted).0 ≡ ((disconnect "t3" adopted).0, [])
unfolding move begin_attempt new_manager UpTo
disconnect-moves_example =
    disconnect-moves "t3" late adopted (omega arith, (omega arith, (omega arith, tt)))
