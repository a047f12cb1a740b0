-- ===== src/Connections/Manager/Views.antt =====
-- What the frontend sees of the manager: the events that it emits.

use nats_desktop.Base.{
  List, Option, String, [], append-nil, arith, inl, inr, none, refl, some, ℕ, ◌++◌, ◌∷◌, ◌≡◌, ◌⊎◌,
}
use nats_desktop.Connections.Manager.{
  Manager, StateEvent, adopt, begin_attempt, disconnect, disconnected, new_manager, on_closed,
  on_connected, on_disconnect, on_error, set_state_if_current, snapshot,
}
use nats_desktop.Connections.Manager.Schedules.{
  Move, adopts, closes, connects, disconnects, errors, move, sets,
}
use nats_desktop.Connections.Manager.Guards.{Reach, World, begins, fresh, leaves, moves_on}

pub last_event : List StateEvent → Option StateEvent
last_event [] = none
last_event (e ∷ []) = some e
last_event (e ∷ f ∷ es) = last_event (f ∷ es)

-- The frontend's last event, if there was one, shows the state, its time, its round trip and its
-- reason; the context of the event can be older.
pub Shows : Option StateEvent → Manager → Type 0
Shows none m = m.state ≡ disconnected
Shows (some e) m =
    (e.state ≡ m.state) × (e.since ≡ m.since) × (e.rtt_ms ≡ m.rtt_ms) × (e.reason ≡ m.reason)

last_event-snoc : (es : List StateEvent) (e : StateEvent) → last_event (es ++ e ∷ []) ≡ some e
unfolding last_event
last_event-snoc [] e = refl
last_event-snoc (d ∷ []) e = refl
last_event-snoc (d ∷ f ∷ es) e = last_event-snoc (f ∷ es) e

-- A section either emits its own result, or emits nothing and leaves what is shown.
Emits : Manager → Manager → List StateEvent → Type 0
Emits m t es =
    (es ≡ snapshot t ∷ [])
    ⊎ ((es ≡ [])
        × (t.state ≡ m.state)
        × (t.since ≡ m.since)
        × (t.rtt_ms ≡ m.rtt_ms)
        × (t.reason ≡ m.reason))

move-Emits :
    (now : String) (gen : ℕ) (a : Move) (m : Manager)
    → Emits m (move now gen a m).0 (move now gen a m).1
unfolding Emits move set_state_if_current on_connected on_disconnect on_error on_closed adopt
move-Emits now gen (sets state reason) m = ground arith
move-Emits now gen (connects rtt) m = ground arith
move-Emits now gen disconnects m = ground arith
move-Emits now gen closes m = ground arith
move-Emits now gen (errors authorization text) m = ground arith
move-Emits now gen (adopts nc) m = ground arith

Shows-kept :
    (o : Option StateEvent) (m t : Manager)
    → (t.state ≡ m.state) × (t.since ≡ m.since) × (t.rtt_ms ≡ m.rtt_ms) × (t.reason ≡ m.reason)
    → Shows o m
    → Shows o t
unfolding Shows
Shows-kept none m t k h = ground arith
Shows-kept (some e) m t k h = ground arith

Emits-Shows :
    (m t : Manager) (es fs : List StateEvent)
    → Emits m t fs
    → Shows (last_event es) m
    → Shows (last_event (es ++ fs)) t
unfolding Emits Shows snapshot
Emits-Shows m t es fs (inl e) h = rw (e, last_event-snoc es (snapshot t)) (refl, refl, refl, refl)
Emits-Shows m t es fs (inr (e, k, l, n, o)) h =
    rw (e, append-nil es) (Shows-kept (last_event es) m t (k, l, n, o) h)

-- The last event that the frontend was sent shows the state of the manager, the time of its last
-- transition, its round trip time and its reason, after every sequence of sections. Before any
-- event, the state is disconnected.
pub Reach-Shows : {w : World} {es : List StateEvent} → Reach w es → Shows (last_event es) w.m
unfolding Shows last_event new_manager begin_attempt disconnect Emits
Reach-Shows (fresh now) = refl
Reach-Shows (begins {w} {es} name r) =
    Shows-kept (last_event es) w.m _ (refl, refl, refl, refl) (Reach-Shows r)
Reach-Shows (moves_on {w} {es} now gen a r q k) =
    Emits-Shows w.m _ es (move now gen a w.m).1 (move-Emits now gen a w.m) (Reach-Shows r)
Reach-Shows (leaves {w} {es} now r) =
    Emits-Shows w.m _ es (disconnect now w.m).1 (inl refl) (Reach-Shows r)
