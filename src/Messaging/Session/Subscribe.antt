-- ===== src/Messaging/Session/Subscribe.antt =====
-- Subscriptions of a session: `subscribe` and `resubscribe` of sessions.go, `subscribeJS`,
-- `resubscribeJS` and `consumerConfigFor` of jsposition.go.
-- What the client library makes of a call is an argument: a new subscription, by its number, or the
-- text of an error. `meanwhile` is what other goroutines do to the session during the network
-- call.
pub mod Balance
pub mod Closing
pub mod Kept
pub mod Positions
pub mod Twice
use nats_desktop.Base.{
  Bool, List, Option, String, [], false, if◌then◌else◌, none, some, true, ℕ, ◌&&◌, ◌++◌, ◌==◌, ◌||◌,
  ◌∷◌,
}
use nats_desktop.Messaging.Wire.{JsPosition}
use nats_desktop.Messaging.Session.State.{
  Act, Event, Session, is_closed, snapshot, stop_consumer, unsubscribe, ◌⨾◌,
}
use nats_desktop.Messaging.Session.Throttle.{fire_now, notify}
use nats_desktop.Messaging.Session.Control.{fail, stop_cctx, stop_sub}

-- The result of the network call.
pub data Answer : Type 0 where
  made : ℕ → Answer
  refused : String → Answer

abbrev pub not_connected : String
not_connected = "not connected"

abbrev pub Outcome : Type 0
Outcome = Session × List Event × Option String

-- The last section of `subscribe`. A session that was closed in between keeps nothing.
unfoldable pub arm : ℕ → ℕ → Act
arm nc c s =
    if is_closed s.state
    then (s, unsubscribe c ∷ [])
    else (record s { sub = some c; sub_nc = some nc }, [])

-- The last section of `subscribeJS`.
unfoldable pub arm_js : ℕ → ℕ → Act
arm_js nc c s =
    if is_closed s.state
    then (s, stop_consumer c ∷ [])
    else (record s { cctx = some c; cctx_nc = some nc }, [])

-- The common course of the two: `settle` is the last section.
unfoldable pub attach : (ℕ → ℕ → Act) → ℕ → Option ℕ → Act → Answer → Session → Outcome
attach settle now none meanwhile answer s =
    let (t, es) = fail now not_connected s in (t, es, some not_connected)
attach settle now (some nc) meanwhile (refused text) s =
    let (t, es) = (meanwhile ⨾ fail now text) s in (t, es, some text)
attach settle now (some nc) meanwhile (made c) s =
    let (t, es) = (meanwhile ⨾ settle nc c) s in (t, es, none)

unfoldable pub subscribe : ℕ → Option ℕ → Act → Answer → Session → Outcome
unfolding attach
subscribe now nc meanwhile answer s =
    if is_closed s.state then (s, [], none) else attach arm now nc meanwhile answer s

unfoldable pub subscribe_js : ℕ → Option ℕ → Act → Answer → Session → Outcome
unfolding attach
subscribe_js now nc meanwhile answer s =
    if is_closed s.state then (s, [], none) else attach arm_js now nc meanwhile answer s

-- A terminal event if the session is closed by now, else a notification.
unfoldable pub report : ℕ → Act
report now s =
    let (t, st) = snapshot now s in if is_closed st.state then fire_now now t else notify now t

abbrev pub forget : Outcome → Session × List Event
forget (s, es, err) = (s, es)

pub belongs_to : ℕ → Option ℕ → Bool
belongs_to nc none = false
belongs_to nc (some c) = c == nc

pub is_held : Option ℕ → Bool
is_held none = false
is_held (some c) = true

unfoldable pub resubscribe_core : ℕ → ℕ → Act → Answer → Act
unfolding belongs_to is_held
resubscribe_core now nc meanwhile answer s =
    let t = record s { sub = none; sub_nc = none } in
    let (u, es) =
      ((λ (x : Session). forget (subscribe now (some nc) meanwhile answer x)) ⨾ report now) t in
    if is_closed s.state || is_held s.sub && belongs_to nc s.sub_nc
    then (s, [])
    else (u, stop_sub s.sub ++ es)

unfoldable pub resubscribe_js : ℕ → ℕ → Act → Answer → Act
resubscribe_js now nc meanwhile answer s =
    let t = record s { cctx = none; cctx_nc = none } in
    let (u, es) =
      ((λ (x : Session). forget (subscribe_js now (some nc) meanwhile answer x)) ⨾ report now) t in
    if is_closed s.state then (s, []) else (u, stop_cctx s.cctx ++ es)

unfoldable pub resubscribe_by : Option JsPosition → ℕ → ℕ → Act → Answer → Act
unfolding resubscribe_core resubscribe_js
resubscribe_by none now nc meanwhile answer s = resubscribe_core now nc meanwhile answer s
resubscribe_by (some position) now nc meanwhile answer s = resubscribe_js now nc meanwhile answer s

unfoldable pub resubscribe : ℕ → ℕ → Act → Answer → Act
unfolding resubscribe_by
resubscribe now nc meanwhile answer s = resubscribe_by s.js now nc meanwhile answer s
