-- ===== src/Tests/Managers.antt =====
-- The session manager on concrete inputs.
use nats_desktop.Connections.Manager.{connected}
use nats_desktop.Messaging.Manager.Worker.{
  Move, Worker, closes, new_worker, notifies, resubscribes_after, rounds, send, turns,
}
use nats_desktop.Base.{
  List, Option, String, [], arith, false, if◌then◌else◌, none, refl, some, true, ℕ, ◌==◌, ◌∷◌, ◌≡◌,
  ◌≤◌,
}
use nats_desktop.Base.Int.{pos}
use nats_desktop.Messaging.Session.State.{Event, Session, new_session}
use nats_desktop.Messaging.Manager.{SessionManager, SessionSpec, close_all, create_session}
use nats_desktop.Messaging.Manager.Registry.{AllClosed, close_all-final, ids}

-- The ids of the first sessions.
abbrev names : ℕ → String
names n = if n == 1 then "sub-1" else if n == 2 then "sub-2" else "sub-3"

-- A server that accepts every subscription, under the number 4.
abbrev accepting : Session → Session × List Event × Option String
accepting s = (record s { sub = some 4; sub_nc = some 1 }, [], none)

abbrev spec : SessionSpec
spec = record {
  subject = "orders.>";
  push_mode = "batch";
  buffer_size = pos 0;
  js_position = none;
  header_filters = [];
}

abbrev one_session : Session
one_session = new_session "sub-1" "orders.>" none "batch" 10000 [] 3

abbrev manager : SessionManager
manager = record {
  def_buf = 10000;
  def_push = "realtime";
  sessions = ("sub-1", one_session) ∷ [];
  closed = false;
  counter = 1;
}

close_all-final_example :
    let n = (close_all 9 manager).0 in
    AllClosed n.sessions
    × (ids n.sessions ≡ ids manager.sessions)
    × ((create_session names accepting 10 spec n).0 ≡ n)
    × (close_all 10 n ≡ (n, []))
close_all-final_example = close_all-final 9 10 names accepting spec manager refl

-- A worker in a round, with a notification on its way.
abbrev in_round : Worker
in_round = record new_worker { sending = 1; running = true }

abbrev second_round : List Move
second_round = turns ∷ notifies connected ∷ turns ∷ closes ∷ []

resubscribes_after_example : 1 ≤ rounds second_round (send in_round)
resubscribes_after_example =
    resubscribes_after second_round in_round (omega arith) refl tt (omega arith)
