-- ===== src/Messaging/Wire.antt =====
-- The wire types of desktop/internal/messaging/types.go, and what a receipt is turned into
-- (`buildMsgOut` of sessions.go). A header map is an association list. The base64 text of a payload
-- and the RFC 3339 text of a time are library renderings: the model keeps the bytes and the time.

use nats_desktop.Base.Utf8
use nats_desktop.Base.{Bool, List, Option, String, [], false, length, ℕ}
use nats_desktop.Messaging.Pusher.{PushMode}

abbrev pub Headers : Type 0
Headers = List (String × List String)

abbrev pub Filters : Type 0
Filters = List (String × String)

-- What the model reads of a received message (nats.Msg, or jetstream.Msg with its metadata).
pub record Receipt : Type 0 where
  pub payload : List ℕ
  pub headers : Headers
  pub stream_seq : Option ℕ

pub record MsgOut : Type 0 where
  pub session_id : String
  pub seq : ℕ
  pub subject : String
  pub headers : Headers
  pub payload : List ℕ
  pub payload_size : ℕ
  pub timestamp : ℕ
  pub stream_seq : ℕ
  pub is_utf8 : Bool

-- The zero value of the slots of a ring.
abbrev pub no_msg : MsgOut
no_msg = record {
  session_id = "";
  seq = 0;
  subject = "";
  headers = [];
  payload = [];
  payload_size = 0;
  timestamp = 0;
  stream_seq = 0;
  is_utf8 = false;
}

unfoldable pub build_msg_out : String → ℕ → String → List ℕ → Headers → ℕ → MsgOut
build_msg_out id seq subject payload headers now = record {
  session_id = id;
  seq = seq;
  subject = subject;
  headers = headers;
  payload = payload;
  payload_size = length payload;
  timestamp = now;
  stream_seq = 0;
  is_utf8 = Utf8.is_utf8 payload;
}

-- `running | paused | closed`
pub data Lifecycle : Type 0 where
  running paused closed : Lifecycle

pub record SessionState : Type 0 where
  pub id : String
  pub subject : String
  pub state : Lifecycle
  pub push_mode : PushMode
  -- The number of messages in the window of one second.
  pub rate_msg_s : ℕ
  pub total : ℕ
  pub filtered : ℕ
  pub dropped : ℕ
  pub buffer_used : ℕ
  pub error : String

-- `JSPosition`, with the time of `start_time` as its text.
pub record JsPosition : Type 0 where
  pub mode : String
  pub start_seq : ℕ
  pub start_time : String
