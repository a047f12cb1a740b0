-- ===== src/Messaging/Session/Frame.antt =====
-- What the display path (snapshots, state events, timers) leaves alone: all but the rate meter and
-- the throttle.
use nats_desktop.Base.{[], arith, none, refl, ℕ, ◌≡◌}
use nats_desktop.Messaging.Session.State.{Session, compute_snapshot, snapshot}
use nats_desktop.Messaging.Session.Throttle.{decay_fire, fire, fire_now, notify, timer_fires}

-- The session without its rate meter and throttle.
abbrev pub core : Session → Session
core s = record s {
  rate = record { window = 0; width = 0; counts = []; cur = 0; start = 0 };
  throttle = record { last = 0; timer = none; decay = none };
}

pub compute_snapshot-core : (now : ℕ) (s : Session) → core (compute_snapshot now s).0 ≡ core s
unfolding compute_snapshot
compute_snapshot-core now s = refl

pub snapshot-core : (now : ℕ) (s : Session) → core (snapshot now s).0 ≡ core s
unfolding snapshot
snapshot-core now s = ground (arith, compute_snapshot-core now s)

pub fire-core : (now : ℕ) (s : Session) → core (fire now s).0 ≡ core s
unfolding fire
fire-core now s = ground (arith, snapshot-core now s)

pub notify-core : (now : ℕ) (s : Session) → core (notify now s).0 ≡ core s
unfolding notify
notify-core now s = ground (arith, fire-core now s)

pub fire_now-core : (now : ℕ) (s : Session) → core (fire_now now s).0 ≡ core s
unfolding fire_now
fire_now-core now s = fire-core now _

pub timer_fires-core : (now : ℕ) (s : Session) → core (timer_fires now s).0 ≡ core s
unfolding timer_fires
timer_fires-core now s = fire-core now _

pub decay_fire-core : (now : ℕ) (s : Session) → core (decay_fire now s).0 ≡ core s
unfolding decay_fire
decay_fire-core now s = fire-core now _
