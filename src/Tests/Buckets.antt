-- ===== src/Tests/Buckets.antt =====
-- The buckets of internal/buckets on concrete inputs.
use nats_desktop.Base.Int.{pos}
use nats_desktop.Base.{
  List, String, [], ap, arith, false, map, none, refl, some, suc, sym, true, ℕ, ◌++◌, ◌∙◌, ◌∷◌, ◌≡◌,
}
use nats_desktop.JsAdmin.Errors as Js
use nats_desktop.Connections.Manager.{disconnected}
use nats_desktop.Buckets.Errors.{KvFailure, call_ok, is_ok}
use nats_desktop.Buckets.Names.{Segment, join, plain, safe-join, safe_object_name, segments}
use nats_desktop.Buckets.Watch.{
  Entry, Move, WatchEvent, emits, goes_on, idle, kv_event, launch, offers, run, stops,
}
use nats_desktop.Buckets.Watch.Draining.{backlog, drained, turns_of_emit}
use nats_desktop.Buckets.Watch.Queue.{Inv, clear, held_events, launch-run-Inv}
use nats_desktop.Buckets.Watch.Progress.{offer-returns, turns}
use nats_desktop.Buckets.Registry as Registry
use nats_desktop.Buckets.Registry.{
  Call, Registry, adds, calls, creates, handles, no_watches, notifies,
}
use nats_desktop.Buckets.Registry.Stops.{calls-once, known, total}
use nats_desktop.Buckets.Transfer.{Download, Service, Upload, upload_object}
use nats_desktop.Buckets.Transfer.Protocol.{Reported, upload_object-Reported}

abbrev changed : String → WatchEvent
changed key = kv_event (record {
  watch_id = "1";
  bucket = "config";
  key = key;
  revision = 1;
  operation = "put";
  payload = [];
  payload_size = 0;
  is_utf8 = true;
  timestamp_ms = pos 0;
  dropped_total = 0;
})

-- Two updates on a queue of one: the first is dropped.
abbrev crowd : List Move
crowd =
    offers (changed "a")
    ∷ goes_on
    ∷ offers (changed "b")
    ∷ goes_on
    ∷ goes_on
    ∷ goes_on
    ∷ emits
    ∷ emits
    ∷ []

launch-run-Inv_example : Inv 1 (run 1 crowd launch)
launch-run-Inv_example = launch-run-Inv 1 crowd

abbrev filling : List Move
filling = offers (changed "a") ∷ goes_on ∷ offers (changed "b") ∷ []

abbrev interleaved : List Move
interleaved = goes_on ∷ emits ∷ goes_on ∷ stops ∷ goes_on ∷ []

offer-returns_example : (run 1 interleaved (run 1 filling launch)).reader ≡ idle
unfolding turns
offer-returns_example = offer-returns 1 filling interleaved (omega arith) tt (omega arith)

-- Numbers as tallies.
tally : ℕ → String
tally ℕ.zero = ""
tally (suc n) = String.◌∷◌ "i" (tally n)

size : String → ℕ
size String.[] = 0
size (String.◌∷◌ c s) = suc (size s)

size-tally : (n : ℕ) → size (tally n) ≡ n
unfolding size tally
size-tally ℕ.zero = refl
size-tally (suc n) = ap suc (size-tally n)

tally-injective : (m n : ℕ) → tally m ≡ tally n → m ≡ n
tally-injective m n e = sym (size-tally m) ∙ ap size e ∙ size-tally n

abbrev session : List Call
session =
    Registry.creates
    ∷ Registry.adds (tally 1)
    ∷ Registry.stops (tally 1)
    ∷ Registry.creates
    ∷ Registry.adds (tally 2)
    ∷ Registry.notifies disconnected
    ∷ Registry.stops (tally 2)
    ∷ []

calls-once_example :
    total 2 (Registry.calls tally session no_watches)
    ≡ known 2 (Registry.calls tally session no_watches).launched
calls-once_example = calls-once tally tally-injective session (omega arith) 2

abbrev plain_failure : Js.Failure
plain_failure = record {
  text = "stream not found";
  no_responders = false;
  deadline_exceeded = false;
  not_pull_consumer = false;
  jetstream = some (some 404);
  api = none;
}

abbrev pub no_sentinel : KvFailure
no_sentinel = record {
  key_exists = false;
  key_revision_mismatch = false;
  bucket_exists = false;
  key_not_found = false;
  bucket_not_found = false;
  object_not_found = false;
  update_meta_deleted = false;
  object_already_exists = false;
  name_required = false;
  bad_object_meta = false;
  connection_closed = false;
  digest_mismatch = false;
  general = plain_failure;
}

-- "a/./b"
abbrev nested : List ℕ
nested = 97 ∷ 47 ∷ 46 ∷ 47 ∷ 98 ∷ []

abbrev downloads : List Segment
downloads = (100 ∷ []) ∷ []

safe-join_example : join downloads (segments nested) ≡ downloads ++ plain (segments nested)
unfolding safe_object_name
safe-join_example = safe-join downloads nested refl

-- The name "." is safe, and its target is the directory itself.
dot_is_safe : safe_object_name (46 ∷ []) ≡ true
unfolding safe_object_name
dot_is_safe = refl

dot_is_directory : join downloads (segments (46 ∷ [])) ≡ downloads
unfolding join segments
dot_is_directory = refl

abbrev service : Service
service = record { busy = false; transfer_seq = 6 }

abbrev upload_of : Upload
upload_of = record {
  bucket = "files";
  path = "/tmp/report.pdf";
  rename = "";
  base = "report.pdf";
  handles = call_ok;
  store = none;
  opened = none;
  stat = none;
  is_dir = false;
  size = 70000;
  connected = true;
  start = 5;
  reads = (6, 65536) ∷ (7, 4464) ∷ [];
  put_error = none;
  put_size = some 70000;
  dropped = true;
  late = (400_000_000, 9) ∷ [];
}

upload_object-Reported_example :
    ((upload_object upload_of service).0.busy ≡ false)
    × Reported (is_ok (upload_object upload_of service).2) (upload_object upload_of service).1
upload_object-Reported_example = upload_object-Reported upload_of service refl

abbrev download_of : Download
download_of = record {
  bucket = "files";
  name_bytes = nested;
  name = "a/./b";
  dir = "d";
  handles = call_ok;
  store = none;
  connected = true;
  get = none;
  info = none;
  size = 70000;
  free = 0;
  mkdir = none;
  create = none;
  start = 5;
  writes = (6, 65536) ∷ (7, 4464) ∷ [];
  copy_error = some (record no_sentinel { digest_mismatch = true });
  digest_ok = false;
  late = [];
}

abbrev reads : List (ℕ × ℕ)
reads = (10, 65536) ∷ (300_000_000, 4464) ∷ []

-- Three queued events and one in hand.
abbrev waiting_events : Entry
waiting_events = record launch {
  held = some (changed "a");
  ch = changed "b" ∷ changed "c" ∷ changed "d" ∷ [];
}

drained_example :
    let f = run 4 (turns_of_emit 7) waiting_events in
    (f.held ≡ none)
    × (f.ch ≡ [])
    × (map clear f.emitted
        ≡ map clear waiting_events.emitted
          ++ (map clear (held_events waiting_events.held) ++ map clear waiting_events.ch))
unfolding launch backlog
drained_example = drained 4 7 waiting_events refl (omega arith)
