-- ===== src/Tests/Sessions.antt =====
-- A session of internal/messaging on concrete inputs.

use nats_desktop.Base.{List, [], false, none, refl, ℕ, ◌+◌, ◌∷◌, ◌≡◌}
use nats_desktop.Messaging.Pusher
use nats_desktop.Messaging.Wire.{Filters, Receipt, no_msg, paused, running}
use nats_desktop.Messaging.Session.State.{Session, new_session, snapshot}
use nats_desktop.Messaging.Session.Receive.{record_receipt}
use nats_desktop.Messaging.Session.Control.{pause}
use nats_desktop.Messaging.Session.Steps
use nats_desktop.Messaging.Session.Steps.{Steps, next, one, pauses, records, takes_seq}
use nats_desktop.Messaging.Session.Accounting.{Coherent, Steps-Coherent, snapshot_exact}
use nats_desktop.Messaging.Session.Arrivals.{Arrivals, arrives, fires, receive}
use nats_desktop.Messaging.Session.Delivery.{Delivered, receive_delivers}

abbrev wanted : Filters
wanted = ("kind", "b") ∷ []

abbrev fresh_session : Session
fresh_session = new_session "s1" "orders.>" none "batch" 10000 wanted 5

abbrev passing : Receipt
passing = record {
  payload = 104 ∷ 105 ∷ [];
  headers = ("kind", "a" ∷ "b" ∷ []) ∷ [];
  stream_seq = none;
}

abbrev other : Receipt
other = record { payload = 0 ∷ []; headers = []; stream_seq = none }

abbrev receipts : Arrivals
receipts =
    arrives 400_000_000 passing
    ∷ arrives 400_000_001 other
    ∷ fires
    ∷ arrives 400_000_002 passing
    ∷ []

receive_delivers_example :
    Delivered receipts fresh_session
      (receive receipts fresh_session).0
      (receive receipts fresh_session).1
unfolding new_session Pusher.new_pusher
receive_delivers_example = receive_delivers receipts fresh_session refl refl

abbrev numbered : Session
numbered = record fresh_session { seq = fresh_session.seq + 1 }

abbrev handled : Session
handled = record_receipt no_msg numbered

abbrev handling : Steps.Steps fresh_session handled
handling = Steps.next (one (Steps.takes_seq refl)) (Steps.records no_msg refl)

snapshot_exact_example :
    let st = (snapshot 9 handled).1 in
    (st.dropped ≡ handled.ring.dropped)
    × (st.buffer_used ≡ handled.ring.size)
    × (st.dropped + st.buffer_used ≡ st.total)
unfolding new_session record_receipt
snapshot_exact_example = snapshot_exact "s1" "orders.>" none "batch" 10000 wanted 5 9 handling refl

abbrev paused_session : Session
paused_session = (pause 6 fresh_session).0

Steps-Coherent_example : Coherent paused_session
Steps-Coherent_example =
    Steps-Coherent "s1" "orders.>" none "batch" 10000 wanted 5 (one (Steps.pauses 6 refl))

abbrev held_session : Session
held_session = record fresh_session { state = paused }

abbrev times : List ℕ
times = 400_000_000 ∷ 400_000_001 ∷ 400_000_002 ∷ []

abbrev waiting : Session
waiting = record fresh_session {
  state = running;
  pusher = record { mode = "batch"; stopped = false; buf = no_msg ∷ [] };
}
