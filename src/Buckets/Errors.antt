-- ===== src/Buckets/Errors.antt =====
-- The error codes of the buckets, `ClassifyKvError` of desktop/internal/buckets/forms.go and
-- `classifyObjError` of objects.go.
-- An error is what `errors.Is` and `errors.As` of the libraries find in it.

use Prim.Native.String.{◌++◌ as ◌++ˢ◌}
use nats_desktop.Base.{
  Bool, Option, String, arith, false, if◌then◌else◌, leb, ltb, none, some, true, ℕ, ◌&&◌, ◌==◌,
  ◌||◌, ◌≡◌,
}
use nats_desktop.JsAdmin.Errors as Js
use nats_desktop.JsAdmin.Errors.{ApiError, Failure, classify_error}

pub data Code : Type 0 where
  ok not_connected js_unavailable not_found validation server cancelled conflict : Code

pub record CallResult : Type 0 where
  pub error_code : Code
  pub error : String

abbrev pub fail : Code → String → CallResult
fail code msg = record { error_code = code; error = msg }

abbrev pub call_ok : CallResult
call_ok = fail ok ""

abbrev pub is_ok : CallResult → Bool
is_ok r = elim r.error_code [ ok ↦ true | _ ↦ false ]

-- An error of a key-value or object operation: `general` holds what the JetStream administration
-- reads of an error too.
pub record KvFailure : Type 0 where
  pub key_exists : Bool
  pub key_revision_mismatch : Bool
  pub bucket_exists : Bool
  pub key_not_found : Bool
  pub bucket_not_found : Bool
  pub object_not_found : Bool
  pub update_meta_deleted : Bool
  pub object_already_exists : Bool
  pub name_required : Bool
  pub bad_object_meta : Bool
  pub connection_closed : Bool
  pub digest_mismatch : Bool
  pub general : Failure

jetstream_code : ℕ → String → CallResult
jetstream_code code text =
    if code == 404
    then fail not_found text
    else if leb 400 code && ltb code 500
    then fail validation text
    else if code == 503
    then fail js_unavailable text
    else fail server text

jetstream_error : Option ℕ → String → CallResult
unfolding jetstream_code
jetstream_error none text = fail server text
jetstream_error (some code) text = jetstream_code code text

api_error : ApiError → CallResult
api_error e =
    if e.not_found_error
    then fail not_found e.text
    else if e.code == 400 || e.user_error
    then fail validation e.text
    else if e.err_code == 10012
    then fail validation e.text
    else fail server e.text

classify_from : Option (Option ℕ) → Option ApiError → String → CallResult
unfolding jetstream_error api_error
classify_from (some code) api text = jetstream_error code text
classify_from none (some e) text = api_error e
classify_from none none text = fail server text

unfoldable pub classify_kv_error : Option KvFailure → CallResult
unfolding classify_from
classify_kv_error none = call_ok
classify_kv_error (some f) =
    let e = f.general in
    if f.key_exists || f.key_revision_mismatch || f.bucket_exists
    then fail conflict e.text
    else if f.key_not_found || f.bucket_not_found
    then fail not_found e.text
    else if e.no_responders
    then fail js_unavailable ("JetStream API unreachable: " ++ˢ e.text)
    else if e.deadline_exceeded
    then fail server "request timed out"
    else if e.not_pull_consumer
    then fail validation e.text
    else classify_from e.jetstream e.api e.text

unfoldable pub classify_obj_error : KvFailure → CallResult
unfolding classify_kv_error
classify_obj_error f =
    if f.object_not_found || f.update_meta_deleted
    then fail not_found f.general.text
    else if f.object_already_exists
    then fail conflict f.general.text
    else if f.name_required || f.bad_object_meta
    then fail validation f.general.text
    else classify_kv_error (some f)

-- The codes of the JetStream administration.
abbrev embed_code : Js.Code → Code
embed_code Js.ok = ok
embed_code Js.not_connected = not_connected
embed_code Js.js_unavailable = js_unavailable
embed_code Js.not_found = not_found
embed_code Js.validation = validation
embed_code Js.server = server
embed_code Js.cancelled = cancelled

abbrev pub embed : Js.CallResult → CallResult
embed r = fail (embed_code r.error_code) r.error

-- An error that is none of the five sentinels of the key-value store is classified as the JetStream
-- administration classifies it.
pub classify_kv_error-agrees :
    (f : KvFailure)
    → (f.key_exists ≡ false
        → f.key_revision_mismatch ≡ false
        → f.bucket_exists ≡ false
        → f.key_not_found ≡ false
        → f.bucket_not_found ≡ false
        → classify_kv_error (some f) ≡ embed (classify_error (some f.general)))
unfolding classify_kv_error classify_error
classify_kv_error-agrees f a b c d e = ground arith

pub classify_kv_error-fails : (f : KvFailure) → is_ok (classify_kv_error (some f)) ≡ false
unfolding classify_kv_error
classify_kv_error-fails f = ground arith

pub classify_obj_error-fails : (f : KvFailure) → is_ok (classify_obj_error f) ≡ false
unfolding classify_obj_error
classify_obj_error-fails f = let a = classify_kv_error-fails f in ground arith
