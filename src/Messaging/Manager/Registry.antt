-- ===== src/Messaging/Manager/Registry.antt =====
-- What the session manager promises: which session a call reaches, and what becomes of the others.

use text.Mathlib.Text.{◌==◌ as str_eq}
use text.Mathlib.TextEquality.{eq_iff}
use nats_desktop.Base.{
  Bool-cases, List, Option, String, [], ap, arith, false, inl, inr, none, refl, some, true, ℕ, ◌+◌,
  ◌∙◌, ◌∷◌, ◌≡◌, ◌≢◌,
}
use nats_desktop.Messaging.Wire.{closed}
use nats_desktop.Messaging.Session.State.{Event, Session, is_closed}
use nats_desktop.Messaging.Session.Control.{SessionError, close, notify_if_ok}
use nats_desktop.Messaging.Session.Frame.{core, fire_now-core, notify-core, snapshot-core}
use nats_desktop.Messaging.Session.Throttle.{notify}
use nats_desktop.Messaging.Manager.{
  SessionManager, SessionSpec, Sessions, check_spec, close_all, close_each, close_session, control,
  create_from, create_session, find, opened, session_not_found, store, subscribed,
}

find-store_same : (id : String) (s : Session) (l : Sessions) → find id (store id s l) ≡ some s
unfolding find store
find-store_same id s [] = ground (arith, eq_iff id id)
find-store_same id s ((j, t) ∷ l) = elim (Bool-cases (str_eq j id)) [
  | inl e ↦ rw (e, store) (rw e refl)
  | inr e ↦ rw (e, store) (rw e (find-store_same id s l))
]

find-store_other :
    (id j : String) (s : Session) (l : Sessions) → id ≢ j → find j (store id s l) ≡ find j l
unfolding find store
find-store_other id j s [] h = ground (arith, eq_iff id j)
find-store_other id j s ((k, t) ∷ l) h = elim (Bool-cases (str_eq k id)) [
  | inl e ↦
      let n : str_eq k j ≡ false = ground (arith, eq_iff k id, eq_iff k j, e, h) in
      rw (e, store) (rw n refl)
  | inr e ↦ elim (Bool-cases (str_eq k j)) [
    | inl d ↦ rw (e, store) (rw d refl)
    | inr d ↦ rw (e, store) (rw d (find-store_other id j s l h))
  ]
]

close-closed : (now : ℕ) (s : Session) → (close now s).0.state ≡ closed
unfolding close
close-closed now s = elim (Bool-cases (is_closed s.state)) [
  | inl e ↦ rw (e, close) refl
  | inr e ↦ rw (e, close) (ap (λ (t : Session). t.state) (fire_now-core now _))
]

-- Every session of the list is closed.
pub AllClosed : Sessions → Type 0
AllClosed [] = Unit
AllClosed ((j, s) ∷ l) = (s.state ≡ closed) × AllClosed l

close_each-AllClosed : (now : ℕ) (l : Sessions) → AllClosed (close_each now l).0
unfolding close_each AllClosed
close_each-AllClosed now [] = tt
close_each-AllClosed now ((j, s) ∷ l) = (close-closed now s, close_each-AllClosed now l)

-- The ids of the sessions, in the order of creation.
pub ids : Sessions → List String
ids [] = []
ids ((j, s) ∷ l) = j ∷ ids l

close_each-ids : (now : ℕ) (l : Sessions) → ids (close_each now l).0 ≡ ids l
unfolding close_each ids
close_each-ids now [] = refl
close_each-ids now ((j, s) ∷ l) = ap (λ r. j ∷ r) (close_each-ids now l)

control_found :
    (now : ℕ) (operation : Session → Session × Option SessionError) (id : String)
    (m : SessionManager) (s : Session)
    → find id m.sessions ≡ some s
    → (control now operation id m).0
      ≡ record m { sessions = store id (notify_if_ok now (operation s)).0 m.sessions }
unfolding control
control_found now operation id m s e = rw (e, control) refl

-- A control operation on a registered id changes that session alone: it is found afterwards as the
-- operation and its notification leave it, any other id is found as before, and neither the closed
-- flag nor the counter of the manager moves.
pub control_alone :
    (now : ℕ) (operation : Session → Session × Option SessionError) (id j : String)
    (m : SessionManager) (s : Session)
    → find id m.sessions ≡ some s
    → id ≢ j
    → let n = (control now operation id m).0 in
      (find id n.sessions ≡ some (notify_if_ok now (operation s)).0)
      × (find j n.sessions ≡ find j m.sessions)
      × (n.closed ≡ m.closed)
      × (n.counter ≡ m.counter)
control_alone now operation id j m s e h =
    let t = (notify_if_ok now (operation s)).0 in
    rw (control_found now operation id m s e)
      (find-store_same id t m.sessions, find-store_other id j t m.sessions h, refl, refl)

-- No control operation, and no close, does anything on an id that is not registered, but name it in
-- the error.
pub unknown_refused :
    (now : ℕ) (operation : Session → Session × Option SessionError) (id : String)
    (m : SessionManager)
    → find id m.sessions ≡ none
    → (control now operation id m ≡ (m, [], some (session_not_found id)))
      × (close_session now id m ≡ (m, [], some (session_not_found id)))
unfolding control close_session
unknown_refused now operation id m e = (rw (e, control) refl, rw (e, close_session) refl)

close_all_open :
    (now : ℕ) (m : SessionManager)
    → m.closed ≡ false
    → (close_all now m).0 ≡ record m { sessions = (close_each now m.sessions).0; closed = true }
unfolding close_all
close_all_open now m e = rw (e, close_all) refl

create_refused :
    (print : ℕ → String) (subscribe : Session → Session × List Event × Option String) (now : ℕ)
    (spec : SessionSpec) (m : SessionManager)
    → m.closed ≡ true
    → (create_session print subscribe now spec m).0 ≡ m
unfolding create_session
create_refused print subscribe now spec m e = ground arith

-- `CloseAll` of an open manager closes every session and keeps them all registered under their ids;
-- afterwards no creation changes the manager, whatever its specification, and a second `CloseAll`
-- does nothing.
pub close_all-final :
    (now later : ℕ) (print : ℕ → String)
    (subscribe : Session → Session × List Event × Option String) (spec : SessionSpec)
    (m : SessionManager)
    → m.closed ≡ false
    → let n = (close_all now m).0 in
      AllClosed n.sessions
      × (ids n.sessions ≡ ids m.sessions)
      × ((create_session print subscribe later spec n).0 ≡ n)
      × (close_all later n ≡ (n, []))
close_all-final now later print subscribe spec m e =
    let n = record m { sessions = (close_each now m.sessions).0; closed = true } in
    rw (close_all_open now m e) (
      close_each-AllClosed now m.sessions,
      close_each-ids now m.sessions,
      create_refused print subscribe later spec n refl,
      unfold close_all in refl,
    )

subscribed-core :
    (now : ℕ) (s : Session) (es : List Event) (err : Option String)
    → core (subscribed now (s, es, err)).0 ≡ core s
unfolding subscribed
subscribed-core now s es (some text) = snapshot-core now s
subscribed-core now s es none = snapshot-core now (notify now s).0 ∙ notify-core now s

create_opened :
    (print : ℕ → String) (subscribe : Session → Session × List Event × Option String) (now : ℕ)
    (spec : SessionSpec) (m : SessionManager)
    → check_spec spec ≡ none
    → m.closed ≡ false
    → (create_session print subscribe now spec m).0 ≡ record m {
      sessions =
          store
            (print (m.counter + 1))
            (subscribed now (subscribe (opened print now spec m))).0
            m.sessions;
      counter = m.counter + 1;
    }
unfolding create_session create_from
create_opened print subscribe now spec m e o = rw (e, create_session) (rw o refl)

-- A creation with a valid specification on an open manager registers the new session under the next
-- id, also when the subscription is refused: it is found there as the subscription left it, but for
-- its rate meter and throttle. Every other id is found as before.
pub create_session-registers :
    (print : ℕ → String) (subscribe : Session → Session × List Event × Option String) (now : ℕ)
    (spec : SessionSpec) (m : SessionManager) (j : String)
    → check_spec spec ≡ none
    → m.closed ≡ false
    → print (m.counter + 1) ≢ j
    → let n = (create_session print subscribe now spec m).0 in
      ((s : Session) × (find (print (m.counter + 1)) n.sessions ≡ some s)
        × (core s ≡ core (subscribe (opened print now spec m)).0))
      × (find j n.sessions ≡ find j m.sessions)
      × (n.counter ≡ m.counter + 1)
create_session-registers print subscribe now spec m j e o h =
    let id = print (m.counter + 1) in
    let (u, es, err) = subscribe (opened print now spec m) in
    let t = (subscribed now (u, es, err)).0 in
    rw (create_opened print subscribe now spec m e o) (
      (t, find-store_same id t m.sessions, subscribed-core now u es err),
      find-store_other id j t m.sessions h,
      refl,
    )
