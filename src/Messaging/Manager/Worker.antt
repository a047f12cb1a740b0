-- ===== src/Messaging/Manager/Worker.antt =====
-- The resubscription after a reconnect: `NotifyConnState`, `resubscribeWorker` and `resubscribeAll`
-- of desktop/internal/messaging/sessions.go. Each critical section, and each use of a channel, is a
-- move.

use nats_desktop.Base.{
  Bool, List, Option, String, [], arith, false, if◌then◌else◌, none, not, refl, some, true, ℕ, ◌&&◌,
  ◌++◌, ◌+◌, ◌-◌, ◌==◌, ◌∷◌, ◌≡◌, ◌≤◌,
}
use nats_desktop.Connections.Manager.{State, connected}
use nats_desktop.Messaging.Session.State.{Act, Event}
use nats_desktop.Messaging.Session.Subscribe.{Answer, resubscribe}
use nats_desktop.Messaging.Manager.{SessionManager, Sessions}

-- What a session's resubscription meets: the time, what other goroutines do meanwhile, and the
-- answer of the client library.
pub record Meeting : Type 0 where
  pub now : ℕ
  pub meanwhile : Act
  pub answer : Answer

resubscribe_each : (String → Meeting) → ℕ → Sessions → Sessions × List Event
resubscribe_each meet nc [] = ([], [])
resubscribe_each meet nc ((id, s) ∷ l) =
    let e = meet id in
    let (t, es) = resubscribe e.now nc e.meanwhile e.answer s in
    let (r, fs) = resubscribe_each meet nc l in ((id, t) ∷ r, es ++ fs)

-- Without a connection nothing happens: the next event tries again.
unfoldable pub resubscribe_all :
    (String → Meeting) → Option ℕ → SessionManager → SessionManager × List Event
unfolding resubscribe_each
resubscribe_all meet none m = (m, [])
resubscribe_all meet (some nc) m =
    let (l, es) = resubscribe_each meet nc m.sessions in (record m { sessions = l }, es)

-- `reconn` is whether the channel `reconnCh`, of capacity 1, holds a token; `sending` counts the
-- calls of `NotifyConnState` that are past the check of `closed`; `running` is whether the worker is
-- in `resubscribeAll`, and `returned` whether it has ended.
pub record Worker : Type 0 where
  pub closed : Bool
  pub sending : ℕ
  pub reconn : Bool
  pub quit : Bool
  pub running : Bool
  pub returned : Bool

abbrev pub new_worker : Worker
new_worker = record {
  closed = false;
  sending = 0;
  reconn = false;
  quit = false;
  running = false;
  returned = false;
}

is_connected : State → Bool
is_connected connected = true
is_connected _ = false

-- `turns` is the worker's progress but for the end: it ends a round, or takes a token and begins one.
pub data Move : Type 0 where
  notifies : State → Move
  sends turns ends_worker closes shuts : Move

unfoldable pub notify_conn_state : State → Worker → Worker
unfolding is_connected
notify_conn_state st w =
    if is_connected st && not w.closed then record w { sending = w.sending + 1 } else w

-- The send does not block.
unfoldable pub send : Worker → Worker
send w = if w.sending == 0 then w else record w { sending = w.sending - 1; reconn = true }

-- Whether a turn begins a round.
unfoldable pub begins : Worker → Bool
begins w = not w.running && not w.returned && w.reconn

unfoldable pub turn : Worker → Worker
unfolding begins
turn w =
    if w.running
    then record w { running = false }
    else if begins w
    then record w { reconn = false; running = true }
    else w

unfoldable pub end_worker : Worker → Worker
end_worker w = if w.quit && not w.running then record w { returned = true } else w

unfoldable pub step : Move → Worker → Worker
unfolding notify_conn_state send turn end_worker
step (notifies st) w = notify_conn_state st w
step sends w = send w
step turns w = turn w
step ends_worker w = end_worker w
step closes w = record w { closed = true }
step shuts w = if w.closed then record w { quit = true } else w

unfoldable pub run : List Move → Worker → Worker
unfolding step
run [] w = w
run (m ∷ l) w = run l (step m w)

abbrev one_if : Bool → ℕ
one_if true = 1
one_if false = 0

abbrev pub begun : Move → Worker → ℕ
begun turns w = one_if (begins w)
begun m w = 0

-- How many rounds begin.
unfoldable pub rounds : List Move → Worker → ℕ
unfolding step
rounds [] w = 0
rounds (m ∷ l) w = begun m w + rounds l (step m w)

abbrev pub turns_of : List Move → ℕ
turns_of [] = 0
turns_of (turns ∷ l) = turns_of l + 1
turns_of (m ∷ l) = turns_of l

-- Moves among which the worker does not end.
abbrev pub Lasting : List Move → Type 0
Lasting [] = Unit
Lasting (ends_worker ∷ l) = ⊥
Lasting (m ∷ l) = Lasting l

-- A worker with a token to take, which is in a round or not.
abbrev Ready : Worker → Bool → Type 0
Ready w r = (w.reconn ≡ true) × (w.returned ≡ false) × (w.running ≡ r)

either-Ready :
    (t : Bool) (x y : Worker) (r : Bool) → Ready x r → Ready y r → Ready (if t then x else y) r
either-Ready true x y r a b = a
either-Ready false x y r a b = b

first-Ready :
    (t : Bool) (x y : Worker) (r : Bool) → t ≡ true → Ready x r → Ready (if t then x else y) r
first-Ready true x y r e a = a
first-Ready false x y r e a = cc

second-Ready :
    (t : Bool) (x y : Worker) (r : Bool) → t ≡ false → Ready y r → Ready (if t then x else y) r
second-Ready true x y r e a = cc
second-Ready false x y r e a = a

turn-Ready : (w : Worker) → Ready w true → Ready (turn w) false
unfolding turn
turn-Ready w (a, b, c) = first-Ready w.running _ _ false c (a, b, refl)

begins-Ready : (w : Worker) → Ready w false → begins w ≡ true
unfolding begins
begins-Ready w (a, b, c) = rw (a, b, c) refl

-- By the number of turns that the worker needs.
resubscribes :
    (l : List Move) (w : Worker) (r : Bool)
    → Ready w r
    → Lasting l
    → 1 + one_if r ≤ turns_of l
    → 1 ≤ rounds l w
unfolding rounds step notify_conn_state send
resubscribes [] w r a k n = absurd (omega (arith, n))
resubscribes (notifies st ∷ l) w r a k n =
    let m = resubscribes l (notify_conn_state st w) r (either-Ready _ _ w r a a) k n in
    omega (arith, m)
resubscribes (sends ∷ l) w r a k n =
    let (x, y, z) = a in
    let m = resubscribes l (send w) r (either-Ready (w.sending == 0) w _ r a (refl, y, z)) k n in
    omega (arith, m)
resubscribes (turns ∷ l) w true a k n =
    let m = resubscribes l (turn w) false (turn-Ready w a) k (omega (arith, n)) in omega (arith, m)
resubscribes (turns ∷ l) w false a k n = rw (begins-Ready w a) (omega arith)
resubscribes (ends_worker ∷ l) w r a k n = absurd k
resubscribes (closes ∷ l) w r a k n =
    let m = resubscribes l (record w { closed = true }) r a k n in omega (arith, m)
resubscribes (shuts ∷ l) w r a k n =
    let m = resubscribes l (step shuts w) r (either-Ready w.closed _ w r a a) k n in
    omega (arith, m)

-- After a notification has been sent to a worker that has not ended: whatever else happens, but for
-- the end of the worker, and in whatever order, a round of resubscriptions begins by the worker's
-- first turn, or by its second one if it was in a round. No notification is lost to a round that was
-- already under way.
pub resubscribes_after :
    (l : List Move) (w : Worker)
    → 1 ≤ w.sending
    → w.returned ≡ false
    → Lasting l
    → 1 + one_if w.running ≤ turns_of l
    → 1 ≤ rounds l (send w)
unfolding send
resubscribes_after l w h b k n =
    let e : (w.sending == 0) ≡ false = ground (arith, h) in
    resubscribes l (send w) w.running
      (second-Ready (w.sending == 0) w _ w.running e (refl, b, refl)) k n
