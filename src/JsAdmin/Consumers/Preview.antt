-- ===== src/JsAdmin/Consumers/Preview.antt =====
-- Fetching messages of a consumer for display: `PreviewNext` of
-- desktop/internal/jsadmin/consumers.go. What the client library answers is an argument.
pub mod Acked
use nats_desktop.Base.{
  Bool, List, Option, [], false, if◌then◌else◌, inl, inr, none, some, true, ℕ, ◌||◌, ◌∷◌, ◌⊎◌,
}
use nats_desktop.Base.Int.{ltb_ℤ, pos, ℤ}
use nats_desktop.JsAdmin.Errors.{CallResult, Failure, classify_error, fail, is_ok, ok, validation}
use nats_desktop.JsAdmin.Browser.{BrowserMsg, Message, encode_from_header}

abbrev pub preview_batch_max : ℕ
preview_batch_max = 256

-- A message of the batch, which has a stream sequence if `Metadata` answers; `id` is what an
-- acknowledgement names.
pub record Fetched : Type 0 where
  pub id : ℕ
  pub message : Message
  pub num_delivered : ℕ
  pub num_pending : ℕ

pub record NextMsg : Type 0 where
  pub base : BrowserMsg
  pub num_delivered : ℕ
  pub num_pending : ℕ

-- The answers of the library, in the order of the calls. The error of the batch comes with whether
-- it is `ErrNoMessages`.
pub record Preview : Type 0 where
  pub batch : ℤ
  pub auto_ack : Bool
  pub handles : CallResult
  pub stream : Option Failure
  pub consumer : Option Failure
  pub info : Failure ⊎ Bool
  pub fetch : Failure ⊎ List Fetched
  pub batch_error : Option (Failure × Bool)

-- What is answered, whether a batch was requested, and the messages acknowledged.
pub record PreviewNext : Type 0 where
  pub result : CallResult
  pub messages : List NextMsg
  pub requested : Bool
  pub acked : List ℕ

abbrev pub no_preview : Bool → CallResult → PreviewNext
no_preview requested res = record { result = res; messages = []; requested = requested; acked = [] }

abbrev pub next_msg : Fetched → ℕ → NextMsg
next_msg m seq = record {
  base = encode_from_header m.message seq;
  num_delivered = m.num_delivered;
  num_pending = m.num_pending;
}

-- A message without metadata is passed over.
collect_one : Bool → Fetched → Option ℕ → List NextMsg × List ℕ → List NextMsg × List ℕ
collect_one auto_ack m none (shown, acks) = (shown, acks)
collect_one auto_ack m (some seq) (shown, acks) =
    (next_msg m seq ∷ shown, if auto_ack then m.id ∷ acks else acks)

-- The loop over the batch: the messages to show, and those to acknowledge.
unfoldable pub collect_next : Bool → List Fetched → List NextMsg × List ℕ
unfolding collect_one
collect_next auto_ack [] = ([], [])
collect_next auto_ack (m ∷ l) =
    collect_one auto_ack m m.message.stream_seq (collect_next auto_ack l)

preview_done : List NextMsg × List ℕ → Option (Failure × Bool) → PreviewNext
preview_done (shown, acks) none =
    record (no_preview true (record { error_code = ok; error = "" })) {
      messages = shown;
      acked = acks;
    }
preview_done (shown, acks) (some (e, no_messages)) =
    if no_messages
    then record (no_preview true (record { error_code = ok; error = "" })) {
      messages = shown;
      acked = acks;
    }
    else no_preview true (classify_error (some e))

preview_fetched : Preview → Failure ⊎ List Fetched → PreviewNext
unfolding preview_done collect_next
preview_fetched p (inl e) = no_preview true (classify_error (some e))
preview_fetched p (inr l) = preview_done (collect_next p.auto_ack l) p.batch_error

preview_info : Preview → Failure ⊎ Bool → PreviewNext
unfolding preview_fetched
preview_info p (inl e) = no_preview false (classify_error (some e))
preview_info p (inr paused) =
    if paused
    then no_preview false (fail validation "consumer is paused; resume first")
    else preview_fetched p p.fetch

preview_found : Preview → Option Failure → Option Failure → PreviewNext
unfolding preview_info
preview_found p (some e) consumer = no_preview false (classify_error (some e))
preview_found p none (some e) = no_preview false (classify_error (some e))
preview_found p none none = preview_info p p.info

unfoldable pub preview_next : Preview → PreviewNext
unfolding preview_found
preview_next p =
    if ltb_ℤ p.batch (pos 1) || ltb_ℤ (pos preview_batch_max) p.batch
    then no_preview false (fail validation "batch must be between 1 and 256")
    else if is_ok p.handles
    then preview_found p p.stream p.consumer
    else no_preview false p.handles
