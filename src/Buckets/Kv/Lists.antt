-- ===== src/Buckets/Kv/Lists.antt =====
-- Reading the keys of a bucket: `ListKeys`, `GetKeyValues` and `GetKeyHistory` of
-- desktop/internal/buckets/kv.go, with `BuildKeyMeta` and `encodeValue` of forms.go. What the
-- client library answers is an argument. A payload is kept as bytes in place of its base64 text.
pub mod Complete
pub mod Orders
use nats_desktop.Base.{
  Bool, List, Option, String, [], false, get_or, if◌then◌else◌, leb, length, map, none, replicate,
  set, some, true, ℕ, ◌++◌, ◌∷◌,
}
use nats_desktop.Base.Int.{pos, ℤ}
use nats_desktop.Base.Utf8
use nats_desktop.Buckets.Errors.{CallResult, KvFailure, call_ok, classify_kv_error}
use nats_desktop.Buckets.Checks.{checks, not_ok, of_store}
use nats_desktop.Buckets.Kv.{
  Answer, KvEntry, Operation, answered, delete_op, failed, purge_op, put_op,
}

abbrev pub op_to_wire : Operation → String
op_to_wire put_op = "put"
op_to_wire delete_op = "delete"
op_to_wire purge_op = "purge"

pub record KeyMeta : Type 0 where
  pub key : List ℕ
  pub revision : ℕ
  pub created_ms : ℤ
  pub operation : String

abbrev pub build_key_meta : KvEntry → KeyMeta
build_key_meta e = record {
  key = e.key;
  revision = e.revision;
  created_ms = e.created_ms;
  operation = op_to_wire e.operation;
}

pub record ListKeysResult : Type 0 where
  pub result : CallResult
  pub keys : List KeyMeta
  pub total : ℕ
  pub truncated : Bool

abbrev pub no_keys : CallResult → ListKeysResult
no_keys res = record { result = res; keys = []; total = 0; truncated = false }

-- The cap is a variable, which the tests of the program set.
abbrev pub kv_list_keys_cap : ℕ
kv_list_keys_cap = 1000

-- The updates of the watcher until its channel closes; `none` is the sentinel that ends the initial
-- snapshot.
unfoldable pub collect : ℕ → List KeyMeta → List (Option KvEntry) → List KeyMeta × Bool
collect limit keys [] = (keys, false)
collect limit keys (none ∷ l) = (keys, false)
collect limit keys (some e ∷ l) =
    let rest = collect limit (keys ++ build_key_meta e ∷ []) l in
    if leb limit (length keys) then (keys, true) else rest

listed : List KeyMeta × Bool → Option KvFailure → ListKeysResult
listed got (some e) = no_keys (classify_kv_error (some e))
listed (keys, cut) none = record {
  result = call_ok;
  keys = keys;
  total = length keys;
  truncated = cut;
}

watched : ℕ → Answer (List (Option KvEntry)) → Option KvFailure → ListKeysResult
unfolding listed collect
watched limit (failed e) ctx = no_keys (classify_kv_error (some e))
watched limit (answered l) ctx = listed (collect limit [] l) ctx

list_checked : Option CallResult → ListKeysResult → ListKeysResult
list_checked (some res) go_on = no_keys res
list_checked none go_on = go_on

-- Given the answers of `js`, `KeyValue` and `Watch`, and the error of the context at the end.
unfoldable pub list_keys :
    ℕ
    → CallResult
    → Option KvFailure
    → Answer (List (Option KvEntry))
    → Option KvFailure
    → ListKeysResult
unfolding list_checked watched
list_keys limit handle opened watch ctx =
    list_checked (checks (not_ok handle ∷ of_store opened ∷ [])) (watched limit watch ctx)

pub record KeyValueOut : Type 0 where
  pub key : List ℕ
  pub revision : ℕ
  pub payload : List ℕ
  pub payload_size : ℕ
  pub is_utf8 : Bool
  pub created_ms : ℤ
  pub operation : String
  pub not_found : Bool

abbrev pub encode_value : KvEntry → KeyValueOut
encode_value e = record {
  key = e.key;
  revision = e.revision;
  payload = e.value;
  payload_size = length e.value;
  is_utf8 = Utf8.is_utf8 e.value;
  created_ms = e.created_ms;
  operation = op_to_wire e.operation;
  not_found = false;
}

-- The zero value, and the one of a key that is not there.
abbrev pub no_value : KeyValueOut
no_value = record {
  key = [];
  revision = 0;
  payload = [];
  payload_size = 0;
  is_utf8 = false;
  created_ms = pos 0;
  operation = "";
  not_found = false;
}

abbrev pub missing : List ℕ → KeyValueOut
missing key = record no_value { key = key; not_found = true }

-- What the workers share: the results, and the first error.
pub record Batch : Type 0 where
  pub out : List KeyValueOut
  pub first_error : Option KvFailure

keep_first : Option KvFailure → KvFailure → Option KvFailure
keep_first none e = some e
keep_first (some f) e = some f

settle : ℕ → List ℕ → Answer KvEntry → Batch → Batch
unfolding keep_first
settle i key (answered e) b = record b { out = set b.out i (encode_value e) }
settle i key (failed f) b =
    if f.key_not_found
    then record b { out = set b.out i (missing key) }
    else record b { first_error = keep_first b.first_error f }

-- The worker of each key, in the order in which they come to their end. At most eight run at a
-- time, which allows for some of the orders only.
unfoldable pub settle_all : List (List ℕ) → (ℕ → Answer KvEntry) → List ℕ → Batch → Batch
unfolding settle
settle_all keys get [] b = b
settle_all keys get (i ∷ order) b =
    settle_all keys get order (settle i (get_or keys i []) (get i) b)

pub record GetKeyValuesResult : Type 0 where
  pub result : CallResult
  pub values : List KeyValueOut

batch_answer : Batch → Option KvFailure → GetKeyValuesResult
batch_answer b (some e) = record { result = classify_kv_error (some e); values = [] }
batch_answer b none = record { result = call_ok; values = b.out }

values_checked : Option CallResult → GetKeyValuesResult → GetKeyValuesResult
values_checked (some res) go_on = record { result = res; values = [] }
values_checked none go_on = go_on

-- `get` answers for the key at each index.
unfoldable pub get_key_values :
    CallResult
    → Option KvFailure
    → List (List ℕ)
    → (ℕ → Answer KvEntry)
    → List ℕ
    → GetKeyValuesResult
unfolding values_checked batch_answer settle_all
get_key_values handle opened keys get order =
    let b =
      settle_all keys get order
        (record { out = replicate (length keys) no_value; first_error = none }) in
    values_checked (checks (not_ok handle ∷ of_store opened ∷ [])) (batch_answer b b.first_error)

pub record KeyHistoryEntry : Type 0 where
  pub revision : ℕ
  pub payload : List ℕ
  pub payload_size : ℕ
  pub is_utf8 : Bool
  pub created_ms : ℤ
  pub operation : String

abbrev pub history_entry : KeyValueOut → KeyHistoryEntry
history_entry v = record {
  revision = v.revision;
  payload = v.payload;
  payload_size = v.payload_size;
  is_utf8 = v.is_utf8;
  created_ms = v.created_ms;
  operation = v.operation;
}

pub record GetKeyHistoryResult : Type 0 where
  pub result : CallResult
  pub entries : List KeyHistoryEntry

history_answer : Answer (List KvEntry) → GetKeyHistoryResult
history_answer (failed e) = record { result = classify_kv_error (some e); entries = [] }
history_answer (answered es) = record {
  result = call_ok;
  entries = map (λ e. history_entry (encode_value e)) es;
}

history_checked : Option CallResult → GetKeyHistoryResult → GetKeyHistoryResult
history_checked (some res) go_on = record { result = res; entries = [] }
history_checked none go_on = go_on

unfoldable pub get_key_history :
    CallResult → Option KvFailure → Answer (List KvEntry) → GetKeyHistoryResult
unfolding history_checked history_answer
get_key_history handle opened history =
    history_checked (checks (not_ok handle ∷ of_store opened ∷ [])) (history_answer history)
