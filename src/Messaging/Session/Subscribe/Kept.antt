-- ===== src/Messaging/Session/Subscribe/Kept.antt =====
-- The subscriptions before and after a resubscription: `resubscribe` of sessions.go, `resubscribeJS` of jsposition.go.

use nats_desktop.Base.{
  Bool, Bool-cases, Option, [], arith, false, inl, inr, none, not, refl, some, true, ℕ, ◌&&◌, ◌++◌,
  ◌+◌, ◌||◌, ◌≡◌, ◌⊎◌,
}
use nats_desktop.Messaging.Wire.{JsPosition}
use nats_desktop.Messaging.Session.State.{Act, Session, is_closed, ◌⨾◌}
use nats_desktop.Messaging.Session.Subscribe.{
  Answer, arm, arm_js, attach, belongs_to, forget, is_held, report, resubscribe, resubscribe_by,
  resubscribe_core, resubscribe_js, subscribe, subscribe_js,
}
use nats_desktop.Messaging.Session.Control.{stop_cctx, stop_sub}
use nats_desktop.Messaging.Session.Subscribe.Balance.{
  Balanced, anew, arm-Settles, arm_js-Settles, attach-balance, count_in, drops, drops-append, holds,
  makes, stop_cctx-drops, stop_sub-drops,
}

-- A session without a position has no consumer, and one with a position no subscription.
unfoldable pub single_by : Option JsPosition → Session → Bool
unfolding is_held
single_by none s = not (is_held s.cctx)
single_by (some position) s = not (is_held s.sub)

unfoldable pub is_single : Session → Bool
unfolding single_by
is_single s = single_by s.js s

not_held : (p : ℕ → Bool) (o : Option ℕ) → not (is_held o) ≡ true → count_in p o ≡ 0
unfolding is_held count_in
not_held p none h = refl
not_held p (some c) h = cc

or-false : (a b : Bool) → a || b ≡ false → a ≡ false
or-false true b h = cc
or-false false b h = refl

-- What a resubscription that is not skipped does.
unfoldable pub core_anew : ℕ → ℕ → Act → Answer → Act
core_anew now nc meanwhile answer s =
    ((λ (x : Session). forget (attach arm now (some nc) meanwhile answer x)) ⨾ report now)
      (record s { sub = none; sub_nc = none })

pub core-runs :
    (meanwhile : Act) (now nc : ℕ) (answer : Answer) (s : Session)
    → is_closed s.state || is_held s.sub && belongs_to nc s.sub_nc ≡ false
    → resubscribe_core now nc meanwhile answer s ≡ (
      (core_anew now nc meanwhile answer s).0,
      stop_sub s.sub ++ (core_anew now nc meanwhile answer s).1,
    )
unfolding resubscribe_core subscribe core_anew
core-runs meanwhile now nc answer s e =
    let c = or-false (is_closed s.state) (is_held s.sub && belongs_to nc s.sub_nc) e in
    rw (e, c) refl

pub core-skips :
    (meanwhile : Act) (now nc : ℕ) (answer : Answer) (s : Session)
    → is_closed s.state || is_held s.sub && belongs_to nc s.sub_nc ≡ true
    → resubscribe_core now nc meanwhile answer s ≡ (s, [])
unfolding resubscribe_core
core-skips meanwhile now nc answer s e = rw e refl

core-balance :
    (meanwhile : Act)
    → Balanced meanwhile
    → (p : ℕ → Bool) (now nc : ℕ) (answer : Answer) (s : Session) → not (is_held s.cctx) ≡ true
    → (resubscribe_core now nc meanwhile answer s ≡ (s, []))
      ⊎ (holds p (resubscribe_core now nc meanwhile answer s).0
            + drops p (resubscribe_core now nc meanwhile answer s).1
          ≡ holds p s + makes p answer)
unfolding holds core_anew
core-balance meanwhile balanced p now nc answer s h =
    elim (Bool-cases (is_closed s.state || is_held s.sub && belongs_to nc s.sub_nc)) [
      | inl e ↦ inl (core-skips meanwhile now nc answer s e)
      | inr e ↦ inr (
          let t = record s { sub = none; sub_nc = none } in
          let z = not_held p s.cctx h in
          let b =
            attach-balance arm meanwhile arm-Settles balanced p now nc answer t (omega arith) in
          let a =
            anew (λ (x : Session). forget (attach arm now (some nc) meanwhile answer x)) now p
              (makes p answer) t b in
          let d = stop_sub-drops p s.sub in
          let da = drops-append p (stop_sub s.sub) (core_anew now nc meanwhile answer s).1 in
          rw (core-runs meanwhile now nc answer s e) (omega arith))
    ]

-- The same for a position.
js_anew : ℕ → ℕ → Act → Answer → Act
js_anew now nc meanwhile answer s =
    ((λ (x : Session). forget (attach arm_js now (some nc) meanwhile answer x)) ⨾ report now)
      (record s { cctx = none; cctx_nc = none })

js-runs :
    (meanwhile : Act) (now nc : ℕ) (answer : Answer) (s : Session)
    → is_closed s.state ≡ false
    → resubscribe_js now nc meanwhile answer s ≡ (
      (js_anew now nc meanwhile answer s).0,
      stop_cctx s.cctx ++ (js_anew now nc meanwhile answer s).1,
    )
unfolding resubscribe_js subscribe_js js_anew
js-runs meanwhile now nc answer s e = rw e refl

js-skips :
    (meanwhile : Act) (now nc : ℕ) (answer : Answer) (s : Session)
    → is_closed s.state ≡ true
    → resubscribe_js now nc meanwhile answer s ≡ (s, [])
unfolding resubscribe_js
js-skips meanwhile now nc answer s e = rw e refl

js-balance :
    (meanwhile : Act)
    → Balanced meanwhile
    → (p : ℕ → Bool) (now nc : ℕ) (answer : Answer) (s : Session) → not (is_held s.sub) ≡ true
    → (resubscribe_js now nc meanwhile answer s ≡ (s, []))
      ⊎ (holds p (resubscribe_js now nc meanwhile answer s).0
            + drops p (resubscribe_js now nc meanwhile answer s).1
          ≡ holds p s + makes p answer)
unfolding holds js_anew
js-balance meanwhile balanced p now nc answer s h = elim (Bool-cases (is_closed s.state)) [
  | inl e ↦ inl (js-skips meanwhile now nc answer s e)
  | inr e ↦ inr (
      let t = record s { cctx = none; cctx_nc = none } in
      let z = not_held p s.sub h in
      let b =
        attach-balance arm_js meanwhile arm_js-Settles balanced p now nc answer t (omega arith) in
      let a =
        anew (λ (x : Session). forget (attach arm_js now (some nc) meanwhile answer x)) now p
          (makes p answer) t b in
      let d = stop_cctx-drops p s.cctx in
      let da = drops-append p (stop_cctx s.cctx) (js_anew now nc meanwhile answer s).1 in
      rw (js-runs meanwhile now nc answer s e) (omega arith))
]

balance-by :
    (meanwhile : Act)
    → Balanced meanwhile
    → (p : ℕ → Bool) (now nc : ℕ) (answer : Answer) (s : Session) (js : Option JsPosition)
    → single_by js s ≡ true
    → (resubscribe_by js now nc meanwhile answer s ≡ (s, []))
      ⊎ (holds p (resubscribe_by js now nc meanwhile answer s).0
            + drops p (resubscribe_by js now nc meanwhile answer s).1
          ≡ holds p s + makes p answer)
unfolding resubscribe_by single_by
balance-by meanwhile balanced p now nc answer s none h =
    core-balance meanwhile balanced p now nc answer s h
balance-by meanwhile balanced p now nc answer s (some position) h =
    js-balance meanwhile balanced p now nc answer s h

-- A resubscription of a session that holds subscriptions of its own kind only, while whatever else
-- happens to the session during the network call loses no subscription and makes none: it either
-- changes nothing, or each subscription that the session held and the one that the call made is
-- afterwards held by the session or given back to the client library, once.
pub resubscribe-balance :
    (meanwhile : Act)
    → Balanced meanwhile
    → (p : ℕ → Bool) (now nc : ℕ) (answer : Answer) (s : Session) → is_single s ≡ true
    → (resubscribe now nc meanwhile answer s ≡ (s, []))
      ⊎ (holds p (resubscribe now nc meanwhile answer s).0
            + drops p (resubscribe now nc meanwhile answer s).1
          ≡ holds p s + makes p answer)
unfolding resubscribe is_single
resubscribe-balance meanwhile balanced p now nc answer s h =
    balance-by meanwhile balanced p now nc answer s s.js h
