-- ===== src/JsAdmin/Errors.antt =====
-- The closed set of error codes, and `ClassifyError` of internal/jsadmin/forms.go.
-- An error is what `errors.Is` and `errors.As` of the libraries find in it.

use Prim.Native.String.{◌++◌ as ◌++ˢ◌}
use nats_desktop.Base.{
  Bool, Option, String, arith, false, if◌then◌else◌, leb, ltb, none, refl, some, true, ℕ, ◌&&◌, ◌<◌,
  ◌==◌, ◌||◌, ◌↔◌, ◌≡◌, ◌≢◌, ◌≤◌,
}

pub data Code : Type 0 where
  ok not_connected js_unavailable not_found validation server cancelled : Code

pub record CallResult : Type 0 where
  pub error_code : Code
  pub error : String

abbrev pub is_ok : CallResult → Bool
is_ok r = elim r.error_code [ ok ↦ true | _ ↦ false ]

abbrev pub done : CallResult
done = record { error_code = ok; error = "" }

abbrev pub fail : Code → String → CallResult
fail code msg = record { error_code = code; error = msg }

-- `api.ApiError`: its codes, and the library's two tests on it.
pub record ApiError : Type 0 where
  pub err_code : ℕ
  pub code : ℕ
  pub not_found_error : Bool
  pub user_error : Bool
  pub text : String

pub record Failure : Type 0 where
  pub text : String
  pub no_responders : Bool
  pub deadline_exceeded : Bool
  pub not_pull_consumer : Bool
  -- A `jetstream.JetStreamError`, with the code of its `APIError()` if that is not nil.
  pub jetstream : Option (Option ℕ)
  pub api : Option ApiError

jetstream_code : ℕ → String → CallResult
jetstream_code code text =
    if code == 404
    then fail not_found text
    else if leb 400 code && ltb code 500
    then fail validation text
    else if code == 503
    then fail js_unavailable text
    else fail server text

jetstream_error : Option ℕ → String → CallResult
unfolding jetstream_code
jetstream_error none text = fail server text
jetstream_error (some code) text = jetstream_code code text

api_error : ApiError → CallResult
api_error e =
    if e.not_found_error
    then fail not_found e.text
    else if e.code == 400 || e.user_error
    then fail validation e.text
    else if e.err_code == 10012
    then fail validation e.text
    else fail server e.text

classify_from : Option (Option ℕ) → Option ApiError → String → CallResult
unfolding jetstream_error api_error
classify_from (some code) api text = jetstream_error code text
classify_from none (some e) text = api_error e
classify_from none none text = fail server text

unfoldable pub classify_error : Option Failure → CallResult
unfolding classify_from
classify_error none = record { error_code = ok; error = "" }
classify_error (some e) =
    if e.no_responders
    then fail js_unavailable ("JetStream API unreachable: " ++ˢ e.text)
    else if e.deadline_exceeded
    then fail server "request timed out"
    else if e.not_pull_consumer
    then fail validation e.text
    else classify_from e.jetstream e.api e.text

-- A call is ok exactly if it has no error, and an error is never classified as a lost connection
-- or as cancelled.
pub classify_error-is_ok :
    (e : Option Failure)
    → ((is_ok (classify_error e) ≡ true) ↔ (e ≡ none))
      × ((classify_error e).error_code ≢ not_connected)
      × ((classify_error e).error_code ≢ cancelled)
unfolding classify_error
classify_error-is_ok none = ((λ q. refl, λ q. refl), λ q. cc, λ q. cc)
classify_error-is_ok (some e) = ground arith

-- The two API branches classify an error alike, whether it is found as an error of the one library
-- or of the other, with the same code and text: if the second finds a missing entity exactly at
-- the code 404 and a user error exactly at the codes from 400 to 499, and the error is neither of
-- the code 503 nor a refused consumer creation (10012).
pub classify_error-agree :
    (text : String) (e : ApiError)
    → (e.code ≡ 404 → e.not_found_error ≡ true)
    → (e.not_found_error ≡ true → e.code ≡ 404)
    → (e.user_error ≡ true → (400 ≤ e.code) × (e.code < 500))
    → (400 ≤ e.code → e.code < 500 → e.user_error ≡ true)
    → e.err_code ≢ 10012
    → e.code ≢ 503
    → let plain : Failure = record {
      text = e.text;
      no_responders = false;
      deadline_exceeded = false;
      not_pull_consumer = false;
      jetstream = none;
      api = some e;
    } in
      classify_error (some (record plain { jetstream = some (some e.code); api = none }))
      ≡ classify_error (some plain)
unfolding classify_error
classify_error-agree text e a b c d f g = ground arith

pub classify_error-fails : (e : Failure) → is_ok (classify_error (some e)) ≡ false
unfolding classify_error
classify_error-fails e = ground arith
