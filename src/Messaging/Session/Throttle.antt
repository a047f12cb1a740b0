-- ===== src/Messaging/Session/Throttle.antt =====
-- `stateThrottle`: state events and their timers. A timer that is set fires as a call of its own
-- (`timer_fires`, `decay_fire`), at a time that the environment chooses.
use nats_desktop.Base.{Option, [], if◌then◌else◌, leb, none, not, some, ℕ, ◌+◌, ◌-◌, ◌||◌, ◌∷◌}
use nats_desktop.Messaging.Wire.{SessionState}
use nats_desktop.Messaging.Session.State.{Act, Session, is_running, snapshot, state_event}

abbrev pub state_throttle_interval : ℕ
state_throttle_interval = 250_000_000

abbrev pub rate_decay_refresh_delay : ℕ
rate_decay_refresh_delay = 1_500_000_000

abbrev pub set_last : ℕ → Session → Session
set_last now s = record s { throttle = record s.throttle { last = now } }

set_decay : ℕ → Option ℕ → Session → Session
set_decay now none s = record s {
  throttle = record s.throttle { decay = some (now + rate_decay_refresh_delay) };
}
set_decay now (some at) s = s

arm_decay : ℕ → SessionState → Session → Session
unfolding set_decay
arm_decay now st s =
    if leb st.rate_msg_s 0 || not (is_running st.state) then s else set_decay now s.throttle.decay s

unfoldable pub fire : ℕ → Act
unfolding arm_decay
fire now s = let (t, st) = snapshot now s in (arm_decay now st t, state_event st ∷ [])

-- The leading edge fires at once. It does not set `last`.
notify_from : ℕ → Option ℕ → Act
unfolding fire
notify_from now (some at) s = (s, [])
notify_from now none s =
    if leb state_throttle_interval (now - s.throttle.last)
    then fire now s
    else let at = now + (state_throttle_interval - (now - s.throttle.last)) in
      (record s { throttle = record s.throttle { timer = some at } }, [])

unfoldable pub notify : ℕ → Act
unfolding notify_from
notify now s = notify_from now s.throttle.timer s

unfoldable pub timer_fires : ℕ → Act
unfolding fire
timer_fires now s =
    fire now (record s { throttle = record s.throttle { timer = none; last = now } })

unfoldable pub fire_now : ℕ → Act
unfolding fire
fire_now now s =
    fire now (record s { throttle = record { timer = none; decay = none; last = now } })

unfoldable pub decay_fire : ℕ → Act
unfolding fire
decay_fire now s = fire now (record s { throttle = record s.throttle { decay = none; last = now } })
