-- ===== src/Buckets/Kv.antt =====
-- The keys of a key-value bucket: `PutKey`, `DeleteKey` and `RevertKey` of
-- desktop/internal/buckets/kv.go. The client library and the server are a `KvClient`; keys and
-- values are bytes.
pub mod Targets
pub mod Documented
pub mod Reverts
pub mod Conflicts
pub mod Lists
use Prim.Native.String.{◌++◌ as ◌++ˢ◌}
use text.Mathlib.Text.{◌==◌ as str_eq}
use mathlib.Core.List.{reverse}
use nats_desktop.Base.{
  Bool, List, Option, String, [], false, if◌then◌else◌, inl, inr, length, none, some, true, ℕ, ◌+◌,
  ◌==◌, ◌||◌, ◌∷◌, ◌⊎◌,
}
use nats_desktop.Base.Int.{ℤ}
use nats_desktop.Buckets.Errors.{
  CallResult, KvFailure, call_ok, classify_kv_error, conflict, fail, validation,
}
use nats_desktop.Buckets.Checks.{checks, js, not_ok, of_store, unless}
use nats_desktop.Buckets.Forms.{
  NameError, charset, dotted, validate_key_name, validate_payload_size,
}

pub data Operation : Type 0 where
  put_op delete_op purge_op : Operation

-- `jetstream.KeyValueEntry`
pub record KvEntry : Type 0 where
  pub key : List ℕ
  pub value : List ℕ
  pub revision : ℕ
  pub created_ms : ℤ
  pub operation : Operation

pub data Answer {ℓ} (A : Type ℓ) : Type ℓ where
  answered : A → Answer A
  failed : KvFailure → Answer A

-- The calls of the library that the service makes, on a state of the connection and the server. The
-- first argument is the bucket, the second the key.
pub record KvClient : Type 1 where
  pub Store : Type 0
  pub connected : Store → Bool
  pub js_params : Store → Bool
  pub built : Store → Option String
  pub open_bucket : List ℕ → Store → Option KvFailure
  pub create : List ℕ → List ℕ → List ℕ → Store → Store × Answer ℕ
  pub update : List ℕ → List ℕ → List ℕ → ℕ → Store → Store × Answer ℕ
  pub put : List ℕ → List ℕ → List ℕ → Store → Store × Answer ℕ
  pub delete : List ℕ → List ℕ → Store → Store × Option KvFailure
  pub purge : List ℕ → List ℕ → Store → Store × Option KvFailure
  pub get : List ℕ → List ℕ → Store → Answer KvEntry
  pub history : List ℕ → List ℕ → Store → Answer (List KvEntry)

pub record PutKeyResult : Type 0 where
  pub result : CallResult
  pub revision : ℕ
  pub current_revision : ℕ

abbrev pub put_failed : CallResult → PutKeyResult
put_failed res = record { result = res; revision = 0; current_revision = 0 }

abbrev pub put_done : ℕ → PutKeyResult
put_done r = record { result = call_ok; revision = r; current_revision = 0 }

pub name_text : NameError → String
name_text dotted = "key must not be empty, start/end with '.', or contain '..'"
name_text charset = "key must match ^[-/_=.a-zA-Z0-9]+$"

abbrev pub of_name : Option NameError → Option CallResult
unfolding name_text
of_name none = none
of_name (some e) = some (fail validation (name_text e))

-- The payload as base64 decoding answers it: the text of an error, or the bytes.
abbrev pub Payload : Type 0
Payload = String ⊎ List ℕ

abbrev pub of_payload : Payload → Option CallResult
of_payload (inl text) = some (fail validation ("payload_b64 must be valid base64: " ++ˢ text))
of_payload (inr v) = none

abbrev pub bytes_of : Payload → List ℕ
bytes_of (inl text) = []
bytes_of (inr v) = v

unfoldable pub is_marker : KvEntry → Bool
is_marker e = elim e.operation [ put_op ↦ false | delete_op ↦ true | purge_op ↦ true ]

-- The search of a deleted key, from the latest entry down: the last valid entry.
unfoldable pub first_valid : List KvEntry → Option KvEntry
first_valid [] = none
first_valid (e ∷ es) = let rest = first_valid es in if is_marker e then rest else some e

-- The search of a live key, which counts the valid entries and stops at the second.
unfoldable pub second_valid : ℕ → List KvEntry → Option KvEntry
second_valid n [] = none
second_valid n (e ∷ es) =
    let same = second_valid n es in
    let next = second_valid (n + 1) es in
    if is_marker e then same else if n + 1 == 2 then some e else next

from_latest : List KvEntry → Option KvEntry
unfolding first_valid second_valid
from_latest [] = none
from_latest (e ∷ es) = if is_marker e then first_valid (e ∷ es) else second_valid 0 (e ∷ es)

-- The revision that `RevertKey` writes again. The history comes oldest first and is never empty.
unfoldable pub revert_target : List KvEntry → Option KvEntry
unfolding from_latest
revert_target es = from_latest (reverse es)

pub no_history : CallResult
no_history = fail validation "key has no previous revision to revert to"

module _ (c : KvClient) where
  open c use {
    Store, connected, js_params, built, open_bucket, create, update, put, delete, purge, get,
    history,
  }

  abbrev pub bucket_checks : List ℕ → Store → List (Option CallResult)
  bucket_checks bucket s =
      not_ok (js (connected s) (js_params s) (built s)) ∷ of_store (open_bucket bucket s) ∷ []

  abbrev put_checks :
      (ℕ → String) → List ℕ → List ℕ → Payload → String → Store → List (Option CallResult)
  put_checks format bucket key payload mode s =
      of_name (validate_key_name key)
      ∷ of_payload payload
      ∷ unless (validate_payload_size (length (bytes_of payload))) (
          fail validation
            ("value exceeds 8MB limit: " ++ˢ format (length (bytes_of payload)) ++ˢ " bytes"))
      ∷ unless (str_eq mode "put" || str_eq mode "create" || str_eq mode "update")
          (fail validation "mode must be one of put|create|update")
      ∷ bucket_checks bucket s

  pub put_answer : Store × Answer ℕ → Store × PutKeyResult
  put_answer (t, answered r) = (t, put_done r)
  put_answer (t, failed e) = (t, put_failed (classify_kv_error (some e)))

  pub create_answer : Store × Answer ℕ → Store × PutKeyResult
  create_answer (t, answered r) = (t, put_done r)
  create_answer (t, failed e) =
      if e.key_exists
      then (t, put_failed (fail conflict (e.general.text ++ˢ "；已存在，可改用 put 或查看现有值")))
      else (t, put_failed (classify_kv_error (some e)))

  -- The revision that a conflict reports, read again from the server.
  pub revision_of : Answer KvEntry → ℕ
  revision_of (answered e) = e.revision
  revision_of (failed e) = 0

  pub update_answer : List ℕ → List ℕ → Store × Answer ℕ → Store × PutKeyResult
  unfolding revision_of
  update_answer bucket key (t, answered r) = (t, put_done r)
  update_answer bucket key (t, failed e) =
      if e.key_revision_mismatch
      then (
        t,
        record {
          result = fail conflict e.general.text;
          revision = 0;
          current_revision = revision_of (get bucket key t);
        },
      )
      else (t, put_failed (classify_kv_error (some e)))

  pub write : List ℕ → List ℕ → List ℕ → String → ℕ → Store → Store × PutKeyResult
  unfolding put_answer create_answer update_answer
  write bucket key value mode expected s =
      if str_eq mode "create"
      then create_answer (create bucket key value s)
      else if str_eq mode "update"
      then update_answer bucket key (update bucket key value expected s)
      else put_answer (put bucket key value s)

  pub checked : Option CallResult → Store × PutKeyResult → Store → Store × PutKeyResult
  checked none go_on s = go_on
  checked (some res) go_on s = (s, put_failed res)

  -- `format` is `%d` of `fmt`.
  unfoldable pub put_key :
      (ℕ → String) → List ℕ → List ℕ → Payload → String → ℕ → Store → Store × PutKeyResult
  unfolding checked write
  put_key format bucket key payload mode expected s =
      checked (checks (put_checks format bucket key payload mode s))
        (write bucket key (bytes_of payload) mode expected s) s

  abbrev delete_checks : List ℕ → List ℕ → String → Store → List (Option CallResult)
  delete_checks bucket key mode s =
      of_name (validate_key_name key)
      ∷ unless (str_eq mode "delete" || str_eq mode "purge")
          (fail validation "mode must be one of delete|purge")
      ∷ bucket_checks bucket s

  pub deleted : Option CallResult → Store × Option KvFailure → Store → Store × CallResult
  deleted none (t, e) s = (t, classify_kv_error e)
  deleted (some res) go_on s = (s, res)

  unfoldable pub delete_key : List ℕ → List ℕ → String → Store → Store × CallResult
  unfolding deleted
  delete_key bucket key mode s =
      deleted (checks (delete_checks bucket key mode s))
        (if str_eq mode "purge" then purge bucket key s else delete bucket key s) s

  pub revert_found : List ℕ → List ℕ → Option KvEntry → Store → Store × PutKeyResult
  unfolding put_answer no_history
  revert_found bucket key none s = (s, put_failed no_history)
  revert_found bucket key (some e) s = put_answer (put bucket key e.value s)

  pub revert_from : List ℕ → List ℕ → Answer (List KvEntry) → Store → Store × PutKeyResult
  unfolding revert_found
  revert_from bucket key (failed e) s = (s, put_failed (classify_kv_error (some e)))
  revert_from bucket key (answered es) s = revert_found bucket key (revert_target es) s

  unfoldable pub revert_key : List ℕ → List ℕ → Store → Store × PutKeyResult
  unfolding checked revert_from
  revert_key bucket key s =
      checked (checks (of_name (validate_key_name key) ∷ bucket_checks bucket s))
        (revert_from bucket key (history bucket key s) s) s
