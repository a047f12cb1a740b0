-- ===== src/Connections/Manager/Guards.antt =====
-- Every state that the manager can be in: what its connection, its flag and its events are worth.

use nats_desktop.Base.{
  List, String, [], arith, false, if◌then◌else◌, none, some, true, ℕ, ◌++◌, ◌+◌, ◌<◌, ◌==◌, ◌≡◌,
  ◌≢◌, ◌≤◌, ◌⊎◌,
}
use nats_desktop.Connections.Manager.{
  Manager, StateEvent, adopt, begin_attempt, conn, connected, connecting, disconnect, disconnected,
  failed, new_manager, on_closed, on_connected, on_disconnect, on_error, reconnecting,
  set_state_if_current,
}
use nats_desktop.Connections.Manager.Schedules.{
  Move, adopts, closes, connects, disconnects, errors, move, sets,
}

-- The manager, the generation of its last `Connect`, and that of the connection that it holds.
pub record World : Type 0 where
  pub m : Manager
  pub last : ℕ
  pub owner : ℕ

-- The owner after a move: an adoption takes effect only in its own generation.
unfoldable pub owner_after : ℕ → Move → World → ℕ
owner_after gen (adopts nc) w = if w.m.gen == gen then gen else w.owner
owner_after gen (sets state reason) w = w.owner
owner_after gen (connects rtt) w = w.owner
owner_after gen disconnects w = w.owner
owner_after gen closes w = w.owner
owner_after gen (errors authorization text) w = w.owner

-- `Connect` itself sets only the three states that are not `connected` and `reconnecting`.
unfoldable pub IsMove : Move → Type 0
IsMove (sets connected reason) = ⊥
IsMove (sets reconnecting reason) = ⊥
IsMove (sets disconnected reason) = Unit
IsMove (sets connecting reason) = Unit
IsMove (sets failed reason) = Unit
IsMove (connects rtt) = Unit
IsMove disconnects = Unit
IsMove closes = Unit
IsMove (errors authorization text) = Unit
IsMove (adopts nc) = Unit

-- The worlds that are reached, with the events emitted so far.
pub data Reach : World → List StateEvent → Type 0 where
  fresh : (now : String) → Reach (record { m = new_manager now; last = 0; owner = 0 }) []
  begins :
      {w : World} {es : List StateEvent} (name : String)
      → Reach w es
      → Reach (record w { m = begin_attempt name w.m; last = w.m.gen + 1 }) es
  moves_on :
      {w : World} {es : List StateEvent} (now : String) (gen : ℕ) (a : Move)
      → Reach w es
      → gen ≤ w.last
      → IsMove a
      → Reach
          (record w { m = (move now gen a w.m).0; owner = owner_after gen a w })
          (es ++ (move now gen a w.m).1)
  leaves :
      {w : World} {es : List StateEvent} (now : String)
      → Reach w es
      → Reach (record w { m = (disconnect now w.m).0 }) (es ++ (disconnect now w.m).1)

-- What the manager keeps true.
pub record IsSound (w : World) : Type 0 where
  pub behind : w.last ≤ w.m.gen
  pub left :
      w.m.user_closed ≡ true → (w.last < w.m.gen) × (w.m.state ≡ disconnected) × (w.m.nc ≡ none)
  pub owned : w.m.nc ≢ none → w.owner ≡ w.m.gen
  pub adopted : w.owner ≤ w.last
  pub measured : w.m.state ≢ connected → w.m.rtt_ms ≡ 0

move-IsSound :
    (now : String) (gen : ℕ) (a : Move) (w : World)
    → gen ≤ w.last
    → IsSound w
    → IsSound (record w { m = (move now gen a w.m).0; owner = owner_after gen a w })
unfolding move owner_after set_state_if_current on_connected on_disconnect on_error on_closed adopt
move-IsSound now gen (sets state reason) w q h = ground arith
move-IsSound now gen (connects rtt) w q h = ground arith
move-IsSound now gen disconnects w q h = ground arith
move-IsSound now gen closes w q h = ground arith
move-IsSound now gen (errors authorization text) w q h = ground arith
move-IsSound now gen (adopts nc) w q h = ground arith

begin-IsSound :
    (name : String) (w : World)
    → IsSound w
    → IsSound (record w { m = begin_attempt name w.m; last = w.m.gen + 1 })
unfolding begin_attempt
begin-IsSound name w h = ground arith

disconnect-IsSound :
    (now : String) (w : World) → IsSound w → IsSound (record w { m = (disconnect now w.m).0 })
unfolding disconnect
disconnect-IsSound now w h = ground arith

fresh-IsSound : (now : String) → IsSound (record { m = new_manager now; last = 0; owner = 0 })
unfolding new_manager
fresh-IsSound now = ground arith

pub Reach-IsSound : {w : World} {es : List StateEvent} → Reach w es → IsSound w
Reach-IsSound (fresh now) = fresh-IsSound now
Reach-IsSound (begins {w} name r) = begin-IsSound name w (Reach-IsSound r)
Reach-IsSound (moves_on {w} now gen a r q k) = move-IsSound now gen a w q (Reach-IsSound r)
Reach-IsSound (leaves {w} now r) = disconnect-IsSound now w (Reach-IsSound r)

-- In every reachable state: the connection that `Conn` hands out is that of the newest `Connect`,
-- which no `Disconnect` has followed, and the state is connected.
pub conn_live :
    {w : World} {es : List StateEvent} (c : ℕ)
    → Reach w es
    → conn w.m ≡ some c
    → (w.m.state ≡ connected) × (w.owner ≡ w.m.gen) × (w.last ≡ w.m.gen) × (w.m.user_closed ≡ false)
unfolding conn
conn_live {w} c r e =
    let h = Reach-IsSound r in
    let o : w.owner ≡ w.m.gen = h.owned (λ q. ground (arith, q, e)) in
    ground (arith, h.behind, h.left, h.adopted, o, e)

-- In every reachable state: the round trip time is 0 or the manager is connected, and after a
-- `Disconnect` that no `Connect` has followed the manager is disconnected and holds no connection.
pub reach_closed :
    {w : World} {es : List StateEvent}
    → Reach w es
    → ((w.m.rtt_ms ≡ 0) ⊎ (w.m.state ≡ connected))
      × ((w.m.user_closed ≡ false) ⊎ ((w.m.state ≡ disconnected) × (w.m.nc ≡ none)))
reach_closed {w} r = let h = Reach-IsSound r in ground (arith, h.measured, h.left)
