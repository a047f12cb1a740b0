-- ===== src/Messaging/Session/Subscribe/Twice.antt =====
-- A second resubscription on the same connection: `resubscribe` of sessions.go.

use nats_desktop.Base.{
  Bool, Bool-cases, String, [], ap, arith, inl, inr, none, refl, some, true, ℕ, ◌&&◌, ◌==◌, ◌||◌,
  ◌∙◌, ◌≡◌,
}
use nats_desktop.Messaging.Session.Frame.{core, fire_now-core, notify-core, snapshot-core}
use nats_desktop.Messaging.Session.State.{Act, Session, is_closed, snapshot}
use nats_desktop.Messaging.Session.Throttle.{fire_now}
use nats_desktop.Messaging.Session.Control.{detached, fail}
use nats_desktop.Messaging.Session.Subscribe.{
  Answer, arm, attach, belongs_to, forget, is_held, made, refused, report, resubscribe_core,
}
use nats_desktop.Messaging.Session.Subscribe.Kept.{core-runs, core-skips, core_anew}

-- Whether the session needs no subscription on a connection.
pub is_settled : ℕ → Session → Bool
is_settled nc s = is_closed s.state || is_held s.sub && belongs_to nc s.sub_nc

core-is_settled : (nc : ℕ) (s t : Session) → core t ≡ core s → is_settled nc t ≡ is_settled nc s
unfolding is_settled
core-is_settled nc s t e =
    ap (λ (u : Session). is_closed u.state || is_held u.sub && belongs_to nc u.sub_nc) e

report-core : (now : ℕ) (s : Session) → core (report now s).0 ≡ core s
unfolding report
report-core now s = elim (Bool-cases (is_closed (snapshot now s).1.state)) [
  | inl e ↦ simp e (fire_now-core now (snapshot now s).0 ∙ snapshot-core now s)
  | inr e ↦ simp e (notify-core now (snapshot now s).0 ∙ snapshot-core now s)
]

arm-is_settled : (nc c : ℕ) (s : Session) → is_settled nc (arm nc c s).0 ≡ true
unfolding is_settled arm is_held belongs_to
arm-is_settled nc c s = elim (Bool-cases (is_closed s.state)) [
  | inl e ↦ simp e refl
  | inr e ↦ let q : (nc == nc) ≡ true = ground arith in simp (e, q) refl
]

fail-is_settled :
    (nc now : ℕ) (text : String) (s : Session) → is_settled nc (fail now text s).0 ≡ true
unfolding fail is_settled
fail-is_settled nc now text s =
    let t = record (detached s) { sub_err = text } in
    core-is_settled nc t (fire_now now t).0 (fire_now-core now t)

attach-is_settled :
    (now nc : ℕ) (meanwhile : Act) (answer : Answer) (s : Session)
    → is_settled nc (forget (attach arm now (some nc) meanwhile answer s)).0 ≡ true
unfolding attach
attach-is_settled now nc meanwhile (made c) s = arm-is_settled nc c (meanwhile s).0
attach-is_settled now nc meanwhile (refused text) s = fail-is_settled nc now text (meanwhile s).0

anew-is_settled :
    (now nc : ℕ) (meanwhile : Act) (answer : Answer) (s : Session)
    → is_settled nc (core_anew now nc meanwhile answer s).0 ≡ true
unfolding core_anew
anew-is_settled now nc meanwhile answer s =
    let t = record s { sub = none; sub_nc = none } in
    let u = (forget (attach arm now (some nc) meanwhile answer t)).0 in
    core-is_settled nc u (report now u).0 (report-core now u)
    ∙ attach-is_settled now nc meanwhile answer t

resubscribe-is_settled :
    (now nc : ℕ) (meanwhile : Act) (answer : Answer) (s : Session)
    → is_settled nc (resubscribe_core now nc meanwhile answer s).0 ≡ true
unfolding is_settled
resubscribe-is_settled now nc meanwhile answer s =
    elim (Bool-cases (is_closed s.state || is_held s.sub && belongs_to nc s.sub_nc)) [
      | inl e ↦ rw (core-skips meanwhile now nc answer s e) e
      | inr e ↦
          rw (core-runs meanwhile now nc answer s e) (anew-is_settled now nc meanwhile answer s)
    ]

-- After a resubscription of a core session on a connection, however it went and whatever else
-- happened to the session during the network call, a second one on the same connection does nothing:
-- it changes nothing and emits nothing.
pub resubscribe_core_twice :
    (now later nc : ℕ) (meanwhile again : Act) (answer second : Answer) (s : Session)
    → let t = (resubscribe_core now nc meanwhile answer s).0 in
      resubscribe_core later nc again second t ≡ (t, [])
unfolding is_settled
resubscribe_core_twice now later nc meanwhile again answer second s =
    core-skips again later nc second (resubscribe_core now nc meanwhile answer s).0
      (resubscribe-is_settled now nc meanwhile answer s)
