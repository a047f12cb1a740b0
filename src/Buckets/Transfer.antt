-- ===== src/Buckets/Transfer.antt =====
-- Uploads and downloads of objects, desktop/internal/buckets/transfer.go: the throttle of the
-- progress events, and `UploadObject` and `DownloadObject` with the events that they emit.
-- What the client library, the file system and the timers answer during a call is an argument.
pub mod Throttled
pub mod Protocol
use text.Mathlib.Text.{◌==◌ as str_eq}
use Prim.Native.String.{◌++◌ as ◌++ˢ◌}
use nats_desktop.Base.{
  Bool, List, Option, String, [], false, if◌then◌else◌, leb, ltb, none, not, some, true, ℕ, ◌%◌,
  ◌&&◌, ◌++◌, ◌+◌, ◌-◌, ◌==◌, ◌^◌, ◌||◌, ◌∷◌,
}
use nats_desktop.Buckets.Checks.{checks, local, not_ok, of_object, of_store, unless}
use nats_desktop.Buckets.Names.{safe_object_name}
use nats_desktop.Buckets.Errors.{
  CallResult, KvFailure, call_ok, classify_kv_error, fail, not_connected, server, validation,
}

pub data Direction : Type 0 where
  upload download : Direction

pub data Phase : Type 0 where
  running complete incomplete : Phase

pub record TransferEvent : Type 0 where
  pub transfer_id : ℕ
  pub bucket : String
  pub name : String
  pub direction : Direction
  pub phase : Phase
  pub bytes_done : ℕ
  pub bytes_total : ℕ
  pub digest_match : Option Bool
  pub error : String

abbrev pub transfer_emit_bytes : ℕ
transfer_emit_bytes = 65536

-- In nanoseconds, as all times.
abbrev pub transfer_emit_every : ℕ
transfer_emit_every = 200000000

-- `progressThrottle`
pub record Throttle : Type 0 where
  pub last_n : ℕ
  pub last_t : ℕ

abbrev pub new_throttle : ℕ → Throttle
new_throttle now = record { last_n = 0; last_t = now }

-- The difference of two counts is one of unsigned 64-bit integers.
unfoldable pub allow : ℕ → ℕ → Throttle → Bool × Throttle
allow now n t =
    if leb transfer_emit_bytes ((n + (2 ^ 64 - t.last_n)) % (2 ^ 64))
      || leb transfer_emit_every (now - t.last_t)
    then (true, record { last_n = n; last_t = now })
    else (false, t)

-- `countingReader` and `countingWriter`: `fin` is the flag `finished`.
pub record Counter : Type 0 where
  pub n : ℕ
  pub th : Throttle
  pub fin : Bool

abbrev pub new_counter : ℕ → Counter
new_counter now = record { n = 0; th = new_throttle now; fin = false }

counted : TransferEvent → ℕ → Bool × Throttle → Counter → Counter × List TransferEvent
counted tpl d (emits, th) c =
    if c.fin
    then (record c { n = d }, [])
    else if emits
    then (record c { n = d; th = th }, record tpl { phase = running; bytes_done = d } ∷ [])
    else (record c { n = d }, [])

-- One `Read` or `Write` of so many bytes.
unfoldable pub count : TransferEvent → ℕ → ℕ → Counter → Counter × List TransferEvent
unfolding counted
count tpl now k c =
    let d = (c.n + k) % (2 ^ 64) in if k == 0 then (c, []) else counted tpl d (allow now d c.th) c

-- A list of them, each with its time.
unfoldable pub counts : TransferEvent → List (ℕ × ℕ) → Counter → Counter × List TransferEvent
unfolding count
counts tpl [] c = (c, [])
counts tpl ((now, k) ∷ l) c =
    let (d, es) = count tpl now k c in let (e, fs) = counts tpl l d in (e, es ++ fs)

-- What a call does to the single-flight gate, the events, and its answer.
pub record Service : Type 0 where
  pub busy : Bool
  pub transfer_seq : ℕ

abbrev pub Outcome : Type 0
Outcome = Service × List TransferEvent × CallResult

-- The answers to an upload, in the order of the calls. `late` are the reads after `Put` has
-- returned; `base` is `filepath.Base(path)`.
pub record Upload : Type 0 where
  pub bucket : String
  pub path : String
  pub rename : String
  pub base : String
  pub handles : CallResult
  pub store : Option KvFailure
  pub opened : Option String
  pub stat : Option String
  pub is_dir : Bool
  pub size : ℕ
  pub connected : Bool
  pub start : ℕ
  pub reads : List (ℕ × ℕ)
  pub put_error : Option KvFailure
  pub put_size : Option ℕ
  pub dropped : Bool
  pub late : List (ℕ × ℕ)

reject : Service → CallResult → Outcome
reject s res = (record s { busy = false }, [], res)

-- `done` of a complete upload.
done_of : ℕ → Option ℕ → ℕ
done_of total none = total
done_of total (some n) = if ltb 0 n then n else total

-- How `Put` ends: the terminal event and the answer.
upload_end : Upload → TransferEvent → Option KvFailure → TransferEvent × CallResult
unfolding done_of
upload_end u tpl (some e) = (
  record tpl { phase = incomplete; error = e.general.text },
  if e.connection_closed
      then fail not_connected ("connection closed during upload: " ++ˢ e.general.text)
      else classify_kv_error (some e),
)
upload_end u tpl none =
    if u.dropped
    then (
      record tpl { phase = incomplete; error = "connection closed during upload" },
      fail not_connected "connection closed during upload: partial artifacts retained",
    )
    else (record tpl { phase = complete; bytes_done = done_of u.size u.put_size }, call_ok)

-- From the first event on: the reads of `Put`, the end, and reads that come after it.
transfer :
    TransferEvent → ℕ → List (ℕ × ℕ) → List (ℕ × ℕ) → TransferEvent × CallResult → Service → Outcome
unfolding counts
transfer tpl start reads late (last, res) s =
    let (c, es) = counts tpl reads (new_counter start) in
    let (d, fs) = counts tpl late (record c { fin = true }) in (s, tpl ∷ es ++ (last ∷ fs), res)

-- `nextTransferId`
next_transfer_id : Service → Service
next_transfer_id s = record s { transfer_seq = (s.transfer_seq + 1) % (2 ^ 64) }

-- `tpl` of an upload.
abbrev pub upload_event : Upload → ℕ → TransferEvent
upload_event u id = record {
  transfer_id = id;
  bucket = u.bucket;
  name = if str_eq u.rename "" then u.base else u.rename;
  direction = upload;
  phase = running;
  bytes_done = 0;
  bytes_total = u.size;
  digest_match = none;
  error = "";
}

upload_open : Upload → Service → Outcome
unfolding upload_end transfer next_transfer_id
upload_open u s =
    let t = next_transfer_id s in
    let tpl = upload_event u t.transfer_seq in
    transfer tpl u.start u.reads u.late (upload_end u tpl u.put_error) (record t { busy = false })

gate : Option CallResult → Outcome → Service → Outcome
unfolding reject
gate none go_on s = go_on
gate (some res) go_on s = reject s res

abbrev transfer_busy : String
transfer_busy = "another object transfer is already running"

abbrev upload_checks : Upload → List (Option CallResult)
upload_checks u =
    unless (not (str_eq u.path "")) (fail validation "path must not be empty")
    ∷ not_ok u.handles
    ∷ of_store u.store
    ∷ local u.opened
    ∷ local u.stat
    ∷ unless (not u.is_dir) (fail validation "path is a directory, not a file")
    ∷ unless u.connected (fail not_connected "not connected")
    ∷ []

-- Only one transfer runs at a time.
unfoldable pub upload_object : Upload → Service → Outcome
unfolding upload_open gate
upload_object u s =
    if s.busy
    then (s, [], fail validation transfer_busy)
    else gate (checks (upload_checks u)) (upload_open u s) s

-- The answers to a download. `writes` are the writes of `io.Copy`, `late` those after it; a free
-- space of 0 is unknown; `digest_ok` is the comparison of the two digests.
pub record Download : Type 0 where
  pub bucket : String
  pub name_bytes : List ℕ
  pub name : String
  pub dir : String
  pub handles : CallResult
  pub store : Option KvFailure
  pub connected : Bool
  pub get : Option KvFailure
  pub info : Option KvFailure
  pub size : ℕ
  pub free : ℕ
  pub mkdir : Option String
  pub create : Option String
  pub start : ℕ
  pub writes : List (ℕ × ℕ)
  pub copy_error : Option KvFailure
  pub digest_ok : Bool
  pub late : List (ℕ × ℕ)

download_end : Download → TransferEvent → Option KvFailure → TransferEvent × CallResult
download_end d tpl (some e) =
    let msg = if e.digest_mismatch then "digest mismatch" else e.general.text in
    (record tpl { phase = incomplete; error = msg }, fail server msg)
download_end d tpl none =
    if not d.digest_ok
    then (
      record tpl { phase = incomplete; error = "digest mismatch" },
      fail server "digest mismatch",
    )
    else (record tpl { phase = complete; bytes_done = d.size; digest_match = some true }, call_ok)

-- `tpl` of a download.
abbrev download_event : Download → ℕ → TransferEvent
download_event d id = record {
  transfer_id = id;
  bucket = d.bucket;
  name = d.name;
  direction = download;
  phase = running;
  bytes_done = 0;
  bytes_total = d.size;
  digest_match = none;
  error = "";
}

download_open : Download → Service → Outcome
unfolding download_end transfer next_transfer_id gate
download_open d s =
    let t = next_transfer_id s in
    let tpl = download_event d t.transfer_seq in
    let files = checks (local d.mkdir ∷ local d.create ∷ []) in
    gate files
      (transfer tpl d.start d.writes d.late (download_end d tpl d.copy_error)
        (record t { busy = false }))
      t

abbrev download_checks : Download → List (Option CallResult)
download_checks d =
    unless (not (str_eq d.name "")) (fail validation "name must not be empty")
    ∷ unless (not (str_eq d.dir "")) (fail validation "dir must not be empty")
    ∷ unless (safe_object_name d.name_bytes)
        (fail validation "object name is not a safe download target")
    ∷ not_ok d.handles
    ∷ of_store d.store
    ∷ unless d.connected (fail not_connected "not connected")
    ∷ of_object d.get
    ∷ of_object d.info
    ∷ unless (not (ltb 0 d.free && ltb d.free d.size))
        (fail validation "insufficient disk space at download target")
    ∷ []

unfoldable pub download_object : Download → Service → Outcome
unfolding download_open gate
download_object d s =
    if s.busy
    then (s, [], fail validation transfer_busy)
    else gate (checks (download_checks d)) (download_open d s) s
