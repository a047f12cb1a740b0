-- ===== src/Tests/Subscriptions.antt =====
-- Subscriptions of a session on concrete inputs.
use nats_desktop.Base.{Bool, List, Option, String, [], none, refl, some, true, ℕ, ◌+◌, ◌≡◌, ◌⊎◌}
use nats_desktop.Base.Int.{pos, ℤ}
use nats_desktop.Messaging.Wire.{JsPosition}
use nats_desktop.Messaging.Session.State.{Event, Session, new_session}
use nats_desktop.Messaging.Session.Control.{close}
use nats_desktop.Messaging.Session.Subscribe.{
  arm, attach, forget, made, refused, resubscribe, resubscribe_core, subscribe,
}
use nats_desktop.Messaging.Session.Subscribe.Balance.{drops, holds, makes}
use nats_desktop.Messaging.Session.Subscribe.Kept.{is_single, resubscribe-balance}
use nats_desktop.Messaging.Session.Subscribe.Twice.{resubscribe_core_twice}
use nats_desktop.Messaging.Session.Subscribe.Closing.{close-Balanced}
use nats_desktop.Messaging.Session.Subscribe.Positions.{Positioned}
use nats_desktop.JsAdmin.Consumers.{ack_none, deliver_by_start_sequence}

-- A session whose subscription 3 belongs to the connection 1.
abbrev subscribed_session : Session
subscribed_session = record (new_session "s1" "orders.>" none "batch" 10000 [] 5) {
  sub = some 3;
  sub_nc = some 1;
}

abbrev every : ℕ → Bool
every c = true

-- It is closed while it subscribes anew on the connection 2.
resubscribe-balance_example :
    (resubscribe 9 2 (close 8) (made 4) subscribed_session ≡ (subscribed_session, []))
    ⊎ (holds every (resubscribe 9 2 (close 8) (made 4) subscribed_session).0
          + drops every (resubscribe 9 2 (close 8) (made 4) subscribed_session).1
        ≡ holds every subscribed_session + makes every (made 4))
unfolding new_session is_single
resubscribe-balance_example =
    resubscribe-balance (close 8) (close-Balanced 8) every 9 2 (made 4) subscribed_session refl

-- A second subscription that is made at the same time takes the place of the first one, which is
-- not given back.
abbrev unsubscribed_session : Session
unsubscribed_session = new_session "s1" "orders.>" none "batch" 10000 [] 5

abbrev second : Session → Session × List Event
second s = forget (subscribe 8 (some 2) (λ (t : Session). (t, [])) (made 5) s)

race_leaks :
    (holds every (forget (subscribe 9 (some 2) second (made 4) unsubscribed_session)).0 ≡ 1)
    × (drops every (forget (subscribe 9 (some 2) second (made 4) unsubscribed_session)).1 ≡ 0)
unfolding new_session subscribe attach arm holds drops
race_leaks = (refl, refl)

abbrev twelfth : JsPosition
twelfth = record { mode = "start_sequence"; start_seq = 12; start_time = "" }

abbrev parsed : String → Option ℤ
parsed text = some (pos 0)

abbrev placed : Positioned
placed = record {
  ack_policy = ack_none;
  filter_subject = "orders.>";
  deliver_policy = deliver_by_start_sequence;
  opt_start_seq = 12;
  opt_start_time = none;
}

-- The first call is refused.
resubscribe_core_twice_example :
    let t = (resubscribe_core 9 2 (close 8) (refused "no permission") subscribed_session).0 in
    resubscribe_core 10 2 (λ (x : Session). (x, [])) (made 6) t ≡ (t, [])
resubscribe_core_twice_example =
    resubscribe_core_twice 9 10 2 (close 8) (λ (x : Session). (x, [])) (refused "no permission")
      (made 6) subscribed_session
