-- ===== src/Messaging/Manager.antt =====
-- The session manager of internal/messaging/sessions.go: creation, lookup and control of sessions.
-- Its map is an association list in the order of creation. The subscription of a new session is a
-- call of the client library: the parameter `subscribe` is what it makes of the session, with the
-- events and the error if it is refused.
pub mod Registry
pub mod Worker
use text.Mathlib.Text.{◌==◌ as str_eq}
use nats_desktop.Base.{
  Bool, List, Option, String, [], false, if◌then◌else◌, none, some, true, ℕ, ◌++◌, ◌+◌, ◌||◌, ◌∷◌,
}
use nats_desktop.Base.Int.{ltb_ℤ, pos, pos_part, ℤ}
use nats_desktop.Messaging.Pusher.{PushMode, push_batch, push_realtime}
use nats_desktop.Messaging.Filter.{ValidationError, validate_header_filters, validate_subject}
use nats_desktop.Messaging.Wire.{Filters, JsPosition, SessionState}
use nats_desktop.Messaging.Session.State.{Event, Session, new_session, snapshot}
use nats_desktop.Messaging.Session.Throttle.{notify}
use nats_desktop.Messaging.Session.Control.{SessionError, clear, close, notify_if_ok, pause, resume}

pub record SessionSpec : Type 0 where
  pub subject : String
  pub push_mode : PushMode
  pub buffer_size : ℤ
  pub js_position : Option JsPosition
  pub header_filters : Filters

abbrev pub Sessions : Type 0
Sessions = List (String × Session)

pub record SessionManager : Type 0 where
  pub def_buf : ℕ
  pub def_push : PushMode
  pub sessions : Sessions
  pub closed : Bool
  pub counter : ℕ

pub data ManagerError : Type 0 where
  invalid : ValidationError → ManagerError
  invalid_mode : String → ManagerError
  manager_closed : ManagerError
  session_not_found : String → ManagerError
  refused : SessionError → ManagerError
  subscription_failed : String → ManagerError

abbrev default_session_buffer : ℕ
default_session_buffer = 10000

abbrev or_default : ℕ → ℤ → ℕ
or_default d n = if ltb_ℤ (pos 0) n then pos_part n else d

unfoldable pub new_session_manager : ℤ → PushMode → SessionManager
new_session_manager default_buf default_push = record {
  def_buf = or_default default_session_buffer default_buf;
  def_push = if str_eq default_push push_batch then push_batch else push_realtime;
  sessions = [];
  closed = false;
  counter = 0;
}

-- The map.
unfoldable pub find : String → Sessions → Option Session
find id [] = none
find id ((j, s) ∷ l) = if str_eq j id then some s else find id l

pub store : String → Session → Sessions → Sessions
store id s [] = (id, s) ∷ []
store id s ((j, t) ∷ l) = if str_eq j id then (j, s) ∷ l else (j, t) ∷ store id s l

abbrev Reply : Type 0
Reply = SessionManager × List Event × Option ManagerError

-- `get`, and what a call makes of the session that it finds.
with_session : String → (Session → Reply) → (ManagerError → Reply) → Option Session → Reply
with_session id use_it refuse none = refuse (session_not_found id)
with_session id use_it refuse (some s) = use_it s

refusal : Option SessionError → Option ManagerError
refusal none = none
refusal (some e) = some (refused e)

-- A control operation of the session, and the notification if it succeeds.
unfoldable pub control :
    ℕ → (Session → Session × Option SessionError) → String → SessionManager → Reply
unfolding with_session refusal
control now operation id m =
    with_session id
      (λ s.
        let (t, es, err) = notify_if_ok now (operation s) in
        (record m { sessions = store id t m.sessions }, es, refusal err))
      (λ e. (m, [], some e)) (find id m.sessions)

unfoldable pub pause_session : ℕ → String → SessionManager → Reply
unfolding control
pause_session now id m = control now (pause now) id m

unfoldable pub resume_session : ℕ → String → SessionManager → Reply
unfolding control
resume_session now id m = control now resume id m

unfoldable pub clear_session : ℕ → String → SessionManager → Reply
unfolding control
clear_session now id m = control now (clear now) id m

unfoldable pub close_session : ℕ → String → SessionManager → Reply
unfolding with_session
close_session now id m =
    with_session id
      (λ s. let (t, es) = close now s in (record m { sessions = store id t m.sessions }, es, none))
      (λ e. (m, [], some e)) (find id m.sessions)

pub close_each : ℕ → Sessions → Sessions × List Event
close_each now [] = ([], [])
close_each now ((j, s) ∷ l) =
    let (t, es) = close now s in let (r, fs) = close_each now l in ((j, t) ∷ r, es ++ fs)

unfoldable pub close_all : ℕ → SessionManager → SessionManager × List Event
close_all now m =
    let (l, es) = close_each now m.sessions in
    if m.closed then (m, []) else (record m { sessions = l; closed = true }, es)

abbrev valid_mode : Option JsPosition → Option ManagerError
valid_mode none = none
valid_mode (some p) =
    if str_eq p.mode "all"
      || str_eq p.mode "new"
      || str_eq p.mode "start_sequence"
      || str_eq p.mode "start_time"
    then none
    else some (invalid_mode p.mode)

invalid_spec : Option ValidationError → Option ManagerError → Option ManagerError
invalid_spec none rest = rest
invalid_spec (some e) rest = some (invalid e)

-- The checks of `CreateSession`, before any call of the network.
unfoldable pub check_spec : SessionSpec → Option ManagerError
unfolding invalid_spec
check_spec spec =
    invalid_spec (validate_subject spec.subject)
      (invalid_spec (validate_header_filters spec.header_filters) (valid_mode spec.js_position))

abbrev pub Created : Type 0
Created = SessionManager × List Event × Option SessionState × Option ManagerError

-- After the subscription: the first state event and a snapshot, or a snapshot and the error.
unfoldable pub subscribed :
    ℕ
    → Session × List Event × Option String
    → Session × List Event × SessionState × Option ManagerError
subscribed now (s, es, some text) =
    let (t, st) = snapshot now s in (t, es, st, some (subscription_failed text))
subscribed now (s, es, none) =
    let (t, fs) = notify now s in let (u, st) = snapshot now t in (u, es ++ fs, st, none)

-- The session that `CreateSession` makes: an unknown push mode and a buffer size that is not
-- positive are those of the manager.
unfoldable pub opened : (ℕ → String) → ℕ → SessionSpec → SessionManager → Session
opened print now spec m =
    let known = str_eq spec.push_mode push_realtime || str_eq spec.push_mode push_batch in
    new_session (print (m.counter + 1)) spec.subject spec.js_position
      (if known then spec.push_mode else m.def_push) (or_default m.def_buf spec.buffer_size)
      spec.header_filters now

create_from :
    (ℕ → String)
    → (Session → Session × List Event × Option String)
    → ℕ
    → SessionSpec
    → Option ManagerError
    → SessionManager
    → Created
create_from print subscribe now spec (some e) m = (m, [], none, some e)
create_from print subscribe now spec none m =
    let (t, es, st, err) = subscribed now (subscribe (opened print now spec m)) in
    if m.closed then (m, [], none, some manager_closed) else (
      record m { sessions = store (print (m.counter + 1)) t m.sessions; counter = m.counter + 1 },
      es,
      some st,
      err,
    )

-- `print` is `fmt.Sprintf("sub-%d", n)`.
unfoldable pub create_session :
    (ℕ → String)
    → (Session → Session × List Event × Option String)
    → ℕ
    → SessionSpec
    → SessionManager
    → Created
unfolding create_from check_spec
create_session print subscribe now spec m = create_from print subscribe now spec (check_spec spec) m
