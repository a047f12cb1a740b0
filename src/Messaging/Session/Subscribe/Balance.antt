-- ===== src/Messaging/Session/Subscribe/Balance.antt =====
-- What becomes of the subscriptions that a session holds or makes.

use nats_desktop.Base.{
  Bool, List, Option, String, [], ap, arith, if◌then◌else◌, none, refl, some, true, ℕ, ◌++◌, ◌+◌,
  ◌∷◌, ◌≡◌,
}
use nats_desktop.Messaging.Session.State.{
  Act, Event, Session, compute_snapshot, is_closed, msgs, snapshot, state_event, stop_consumer,
  unsubscribe, ◌⨾◌,
}
use nats_desktop.Messaging.Session.Throttle.{fire_now, notify}
use nats_desktop.Messaging.Session.Frame.{core, fire_now-core, notify-core, snapshot-core}
use nats_desktop.Messaging.Session.Subscribe.{
  Answer, arm, arm_js, attach, forget, made, refused, report,
}
use nats_desktop.Messaging.Session.Control.{detached, fail, stop_cctx, stop_sub}

unfoldable pub count_in : (ℕ → Bool) → Option ℕ → ℕ
count_in p none = 0
count_in p (some c) = if p c then 1 else 0

-- How many of the numbers that pass a test the session holds, as subscription or as consumer.
unfoldable pub holds : (ℕ → Bool) → Session → ℕ
unfolding count_in
holds p s = count_in p s.sub + count_in p s.cctx

-- How many of them the events give back to the client library.
unfoldable pub drops : (ℕ → Bool) → List Event → ℕ
drops p [] = 0
drops p (unsubscribe c ∷ es) = (if p c then 1 else 0) + drops p es
drops p (stop_consumer c ∷ es) = (if p c then 1 else 0) + drops p es
drops p (msgs b ∷ es) = drops p es
drops p (state_event st ∷ es) = drops p es

-- How many of them the network call makes.
unfoldable pub makes : (ℕ → Bool) → Answer → ℕ
makes p (made c) = if p c then 1 else 0
makes p (refused text) = 0

-- An act that loses no subscription and makes none, on a session that holds none if it is closed.
abbrev pub Balanced : Act → Type 0
Balanced f =
    (p : ℕ → Bool) (s : Session)
    → (is_closed s.state ≡ true → holds p s ≡ 0)
    → holds p (f s).0 + drops p (f s).1 ≡ holds p s

pub drops-append :
    (p : ℕ → Bool) (es fs : List Event) → drops p (es ++ fs) ≡ drops p es + drops p fs
unfolding drops
drops-append p [] fs = omega arith
drops-append p (unsubscribe c ∷ es) fs = omega (arith, drops-append p es fs)
drops-append p (stop_consumer c ∷ es) fs = omega (arith, drops-append p es fs)
drops-append p (msgs b ∷ es) fs = drops-append p es fs
drops-append p (state_event st ∷ es) fs = drops-append p es fs

-- The display path is balanced.
pub core-holds : (p : ℕ → Bool) (s t : Session) → core t ≡ core s → holds p t ≡ holds p s
unfolding holds
core-holds p s t e = ap (λ (u : Session). count_in p u.sub + count_in p u.cctx) e

pub fire_now-drops : (p : ℕ → Bool) (now : ℕ) (s : Session) → drops p (fire_now now s).1 ≡ 0
unfolding fire_now drops snapshot compute_snapshot
fire_now-drops p now s = ground arith

pub notify-drops : (p : ℕ → Bool) (now : ℕ) (s : Session) → drops p (notify now s).1 ≡ 0
unfolding notify drops snapshot compute_snapshot
notify-drops p now s = ground arith

pub fire_now-holds : (p : ℕ → Bool) (now : ℕ) (s : Session) → holds p (fire_now now s).0 ≡ holds p s
fire_now-holds p now s = core-holds p s (fire_now now s).0 (fire_now-core now s)

pub notify-holds : (p : ℕ → Bool) (now : ℕ) (s : Session) → holds p (notify now s).0 ≡ holds p s
notify-holds p now s = core-holds p s (notify now s).0 (notify-core now s)

-- A report takes a snapshot, then sends.
pub report-balance :
    (now : ℕ) (p : ℕ → Bool) (s : Session)
    → holds p (report now s).0 + drops p (report now s).1 ≡ holds p s
unfolding report
report-balance now p s =
    let h = core-holds p s (snapshot now s).0 (snapshot-core now s) in
    let x = fire_now-holds p now (snapshot now s).0 in
    let y = notify-holds p now (snapshot now s).0 in
    let v = fire_now-drops p now (snapshot now s).0 in
    let w = notify-drops p now (snapshot now s).0 in ground arith

-- A failure of a session that holds nothing.
pub fail-holds :
    (p : ℕ → Bool) (now : ℕ) (text : String) (s : Session) → holds p (fail now text s).0 ≡ 0
unfolding fail holds count_in
fail-holds p now text s = fire_now-holds p now (record (detached s) { sub_err = text })

pub fail-drops :
    (p : ℕ → Bool) (now : ℕ) (text : String) (s : Session) → drops p (fail now text s).1 ≡ 0
unfolding fail
fail-drops p now text s = fire_now-drops p now (record (detached s) { sub_err = text })

-- The last section keeps the new subscription or gives it back.
abbrev pub Settles : (ℕ → ℕ → Act) → Type 0
Settles settle =
    (p : ℕ → Bool) (nc c : ℕ) (s : Session)
    → holds p s ≡ 0
    → holds p (settle nc c s).0 + drops p (settle nc c s).1 ≡ makes p (made c)

pub arm-Settles : Settles arm
unfolding arm holds drops makes count_in
arm-Settles p nc c s h = ground arith

pub arm_js-Settles : Settles arm_js
unfolding arm_js holds drops makes count_in
arm_js-Settles p nc c s h = ground arith

-- What a balanced act and a last section make of a session that holds nothing.
pub settle_from :
    (settle : ℕ → ℕ → Act) (meanwhile : Act)
    → Settles settle
    → Balanced meanwhile
    → (p : ℕ → Bool) (nc c : ℕ) (s : Session) → holds p s ≡ 0
    → holds p ((meanwhile ⨾ settle nc c) s).0 + drops p ((meanwhile ⨾ settle nc c) s).1
      ≡ makes p (made c)
settle_from settle meanwhile settles balanced p nc c s h =
    let b = balanced p s (λ c. h) in
    let r = settles p nc c (meanwhile s).0 (omega arith) in
    let a = drops-append p (meanwhile s).1 (settle nc c (meanwhile s).0).1 in omega arith

pub fails-from :
    (meanwhile : Act)
    → Balanced meanwhile
    → (p : ℕ → Bool) (now : ℕ) (text : String) (s : Session) → holds p s ≡ 0
    → holds p ((meanwhile ⨾ fail now text) s).0 + drops p ((meanwhile ⨾ fail now text) s).1 ≡ 0
fails-from meanwhile balanced p now text s h =
    let b = balanced p s (λ c. h) in
    let x = fail-holds p now text (meanwhile s).0 in
    let y = fail-drops p now text (meanwhile s).0 in
    let a = drops-append p (meanwhile s).1 (fail now text (meanwhile s).0).1 in omega arith

pub attach-balance :
    (settle : ℕ → ℕ → Act) (meanwhile : Act)
    → Settles settle
    → Balanced meanwhile
    → (p : ℕ → Bool) (now nc : ℕ) (answer : Answer) (s : Session) → holds p s ≡ 0
    → holds p (forget (attach settle now (some nc) meanwhile answer s)).0
        + drops p (forget (attach settle now (some nc) meanwhile answer s)).1
      ≡ makes p answer
unfolding attach makes
attach-balance settle meanwhile settles balanced p now nc (made c) s h =
    settle_from settle meanwhile settles balanced p nc c s h
attach-balance settle meanwhile settles balanced p now nc (refused text) s h =
    fails-from meanwhile balanced p now text s h

pub stop_sub-drops : (p : ℕ → Bool) (o : Option ℕ) → drops p (stop_sub o) ≡ count_in p o
unfolding drops count_in
stop_sub-drops p none = refl
stop_sub-drops p (some c) = omega arith

pub stop_cctx-drops : (p : ℕ → Bool) (o : Option ℕ) → drops p (stop_cctx o) ≡ count_in p o
unfolding drops count_in
stop_cctx-drops p none = refl
stop_cctx-drops p (some c) = omega arith

-- The whole of a subscription anew, from the session that has forgotten its old one.
pub anew :
    (attempt : Session → Session × List Event) (now : ℕ) (p : ℕ → Bool) (n : ℕ) (t : Session)
    → holds p (attempt t).0 + drops p (attempt t).1 ≡ n
    → holds p ((attempt ⨾ report now) t).0 + drops p ((attempt ⨾ report now) t).1 ≡ n
anew attempt now p n t h =
    let r = report-balance now p (attempt t).0 in
    let a = drops-append p (attempt t).1 (report now (attempt t).0).1 in omega arith
