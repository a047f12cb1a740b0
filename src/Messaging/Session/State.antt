-- ===== src/Messaging/Session/State.antt =====
-- The session record, its display snapshot, and what a handler gives the outside world.
-- A handler reads the clock once (`now`, nanoseconds); its events are listed in order. Counters are
-- int64 that grow by one a receipt, and are left unbounded.
use nats_desktop.Base.{
  Bool, List, Option, String, false, if◌then◌else◌, ltb, none, some, true, ℕ, ◌++◌, ◌-◌,
}
use nats_desktop.Base.Int.{pos}
use nats_desktop.Messaging.Ring
use nats_desktop.Messaging.Ring.{Ring, new_ring}
use nats_desktop.Messaging.Pusher
use nats_desktop.Messaging.Pusher.{PushMode, Pusher, new_pusher}
use nats_desktop.Messaging.RateMeter
use nats_desktop.Messaging.RateMeter.{RateMeter, new_rate_meter, second}
use nats_desktop.Messaging.Wire.{
  Filters, JsPosition, Lifecycle, MsgOut, SessionState, closed, no_msg, paused, running,
}

-- `stateThrottle`: the time of the last emission that it recorded, and the times at which the
-- trailing timer and the decay timer fire, if they are set. The zero time is 0.
pub record Throttle : Type 0 where
  pub last : ℕ
  pub timer : Option ℕ
  pub decay : Option ℕ

-- Subscriptions, consume contexts and connections are known by numbers.
pub record Session : Type 0 where
  pub id : String
  pub subject : String
  pub mode : PushMode
  pub cap : ℕ
  pub header_filters : Filters
  pub state : Lifecycle
  pub sub_err : String
  pub frozen : Option SessionState
  pub ring : Ring MsgOut
  pub pusher : Pusher MsgOut
  pub sub : Option ℕ
  pub sub_nc : Option ℕ
  pub js : Option JsPosition
  pub cctx : Option ℕ
  pub cctx_nc : Option ℕ
  pub seq : ℕ
  pub emitted : ℕ
  pub filtered : ℕ
  pub total : ℕ
  pub rate : RateMeter
  pub throttle : Throttle

-- `session:msgs`, `session:state`, and the calls of the client library that drop a subscription.
pub data Event : Type 0 where
  msgs : List MsgOut → Event
  state_event : SessionState → Event
  unsubscribe : ℕ → Event
  stop_consumer : ℕ → Event

abbrev pub Act : Type 0
Act = Session → Session × List Event

infixl 20 ◌⨾◌
abbrev pub ◌⨾◌ : Act → Act → Act
◌⨾◌ f g s = let (t, es) = f s in let (u, fs) = g t in (u, es ++ fs)

abbrev pub is_closed : Lifecycle → Bool
is_closed closed = true
is_closed _ = false

abbrev pub is_paused : Lifecycle → Bool
is_paused paused = true
is_paused _ = false

abbrev pub is_running : Lifecycle → Bool
is_running running = true
is_running _ = false

unfoldable pub new_session :
    String → String → Option JsPosition → PushMode → ℕ → Filters → ℕ → Session
new_session id subject js mode buf filters now = record {
  id = id;
  subject = subject;
  mode = mode;
  cap = buf;
  header_filters = filters;
  state = running;
  sub_err = "";
  frozen = none;
  ring = Ring.new_ring no_msg (pos buf);
  pusher = Pusher.new_pusher mode;
  sub = none;
  sub_nc = none;
  js = js;
  cctx = none;
  cctx_nc = none;
  seq = 0;
  emitted = 0;
  filtered = 0;
  total = 0;
  rate = RateMeter.new_rate_meter (pos RateMeter.second) now;
  throttle = record { last = 0; timer = none; decay = none };
}

-- `computeSnapshotLocked`. Reading the rate moves the meter's buckets.
unfoldable pub compute_snapshot : ℕ → Session → Session × SessionState
compute_snapshot now s =
    let (r, count, window) = RateMeter.rate now s.rate in
    (
      record s { rate = r },
      record {
        id = s.id;
        subject = s.subject;
        state = s.state;
        push_mode = s.mode;
        rate_msg_s = count;
        total = s.total;
        filtered = s.filtered;
        dropped = if ltb s.cap s.total then s.total - s.cap else 0;
        buffer_used = if ltb s.cap s.total then s.cap else s.total;
        error = s.sub_err;
      },
    )

display : ℕ → Option SessionState → Session → Session × SessionState
display now none s = compute_snapshot now s
display now (some frozen) s = (s, frozen)

unfoldable pub snapshot : ℕ → Session → Session × SessionState
unfolding display
snapshot now s = display now s.frozen s
