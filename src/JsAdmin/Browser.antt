-- ===== src/JsAdmin/Browser.antt =====
-- Message browsing: `BrowseStream` of desktop/internal/jsadmin/browser.go, with the encoding of
-- messages of forms.go. A payload is kept as bytes in place of its base64 text.
-- What the client library answers is an argument: the handles, and the messages that a new consumer
-- over the stream delivers from a sequence on (none for `ErrNoMessages`), or the failure of one of the
-- calls on the way.
pub mod Served
pub mod Paging
use nats_desktop.Base.{
  Bool, List, Option, String, [], false, if◌then◌else◌, inl, inr, length, ltb, none, not, some, suc,
  take, true, zero, ℕ, ◌%◌, ◌*◌, ◌+◌, ◌==◌, ◌^◌, ◌||◌, ◌∷◌, ◌⊎◌,
}
use nats_desktop.Base.Int.{ℤ}
use nats_desktop.Base.Utf8
use nats_desktop.JsAdmin.Errors.{CallResult, Failure, classify_error, fail, validation}

-- `jetstream.Msg`. Without metadata, it has no stream sequence.
pub record Message : Type 0 where
  pub subject : String
  pub headers : List (String × List String)
  pub payload : List ℕ
  pub stream_seq : Option ℕ
  pub timestamp_ms : ℤ

pub record BrowserMsg : Type 0 where
  pub seq : ℕ
  pub subject : String
  pub headers : List (String × List String)
  pub payload : List ℕ
  pub payload_size : ℕ
  pub timestamp_ms : ℤ
  pub is_utf8 : Bool
  pub truncated : Bool

abbrev pub browse_payload_preview_limit : ℕ
browse_payload_preview_limit = 64 * 1024

abbrev pub browse_payload_truncate_over : ℕ
browse_payload_truncate_over = 1024 * 1024

unfoldable pub browse_page_size_allowed : ℕ → Bool
browse_page_size_allowed n = n == 20 || n == 50 || n == 100 || n == 200

-- An empty header map stays empty.
unfoldable pub encode_from_header : Message → ℕ → BrowserMsg
encode_from_header m seq = record {
  seq = seq;
  subject = m.subject;
  headers = m.headers;
  payload = m.payload;
  payload_size = length m.payload;
  timestamp_ms = m.timestamp_ms;
  is_utf8 = Utf8.is_utf8 m.payload;
  truncated = false;
}

-- A row of a page.
unfoldable pub row : Message → ℕ → BrowserMsg
unfolding encode_from_header
row m seq =
    let msg = encode_from_header m seq in
    if ltb browse_payload_truncate_over (length m.payload)
    then record msg { truncated = true; payload = take browse_payload_preview_limit m.payload }
    else msg

-- The loop over the batch, with room for so many rows: the rows, and `HasMore`.
unfoldable pub collect : ℕ → List Message → List BrowserMsg × Bool
unfolding row
collect n [] = ([], false)
collect ℕ.zero (m ∷ ms) = ([], true)
collect (suc n) (m ∷ ms) = elim m.stream_seq [
  | none ↦ collect (suc n) ms
  | some seq ↦ let (rows, more) = collect n ms in (row m seq ∷ rows, more)
]

-- `NextStartSeq`.
unfoldable pub next_start : ℕ → List BrowserMsg → ℕ
next_start start [] = start
next_start start (m ∷ ms) = next_start ((m.seq + 1) % (2 ^ 64)) ms

pub record PageRequest : Type 0 where
  pub start_seq : ℕ
  pub count : ℕ
  pub subject_filter : String

pub record Page : Type 0 where
  pub messages : List BrowserMsg
  pub next_start_seq : ℕ
  pub has_more : Bool

page_of : ℕ → ℕ → Failure ⊎ List Message → CallResult ⊎ Page
unfolding collect next_start
page_of start count (inl e) = inl (classify_error (some e))
page_of start count (inr batch) =
    let (rows, more) = collect count batch in
    inr (record { messages = rows; next_start_seq = next_start start rows; has_more = more })

browse_with :
    Option CallResult
    → (ℕ → String → ℕ → Failure ⊎ List Message)
    → ℕ
    → PageRequest
    → CallResult ⊎ Page
unfolding page_of
browse_with (some res) fetch start req = inl res
browse_with none fetch start req =
    page_of start req.count (fetch start req.subject_filter (req.count + 1))

-- `handles` is the error of the handles, if any; `fetch` takes the first sequence, the subject filter
-- and the number of messages.
unfoldable pub browse_stream :
    Option CallResult → (ℕ → String → ℕ → Failure ⊎ List Message) → PageRequest → CallResult ⊎ Page
unfolding browse_with
browse_stream handles fetch req =
    let start = if req.start_seq == 0 then 1 else req.start_seq in
    if not (browse_page_size_allowed req.count)
    then inl (fail validation "page size must be one of 20/50/100/200")
    else browse_with handles fetch start req
