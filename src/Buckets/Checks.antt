-- ===== src/Buckets/Checks.antt =====
-- The checks that may end a call of the bucket service before it acts: the early returns of
-- desktop/internal/buckets/kv.go, objects.go and transfer.go, and `js` of service.go.

use nats_desktop.Base.{
  Bool, Bool-cases, List, Option, String, [], false, if◌then◌else◌, inl, inr, none, refl, some,
  subst, sym, true, ◌∷◌, ◌≡◌,
}
use nats_desktop.Buckets.Errors.{
  CallResult, KvFailure, call_ok, classify_kv_error, classify_kv_error-fails, classify_obj_error,
  classify_obj_error-fails, fail, is_ok, not_connected, server, validation,
}

-- `BucketService.js`, given the connection, whether it has parameters, and the error of `jsctx.New`.
unfoldable pub js : Bool → Bool → Option String → CallResult
js false params built = fail not_connected "not connected"
js true false built = fail not_connected "not connected"
js true true (some text) = fail server text
js true true none = call_ok

-- The checks that may end a call before it starts the transfer, with the answer of each.
abbrev pub checks : List (Option CallResult) → Option CallResult
checks [] = none
checks (none ∷ l) = checks l
checks (some res ∷ l) = some res

abbrev pub unless : Bool → CallResult → Option CallResult
unless b res = if b then none else some res

abbrev pub not_ok : CallResult → Option CallResult
not_ok res = if is_ok res then none else some res

abbrev pub local : Option String → Option CallResult
local none = none
local (some text) = some (fail validation text)

abbrev pub of_store : Option KvFailure → Option CallResult
of_store none = none
of_store (some e) = some (classify_kv_error (some e))

abbrev pub of_object : Option KvFailure → Option CallResult
of_object none = none
of_object (some e) = some (classify_obj_error e)

-- A call that ends early is silent, and its answer is a failure.
abbrev pub IsFailure : Option CallResult → Type 0
IsFailure none = Unit
IsFailure (some res) = is_ok res ≡ false

pub unless-IsFailure : (b : Bool) (res : CallResult) → is_ok res ≡ false → IsFailure (unless b res)
unless-IsFailure true res h = tt
unless-IsFailure false res h = h

pub failed-IsFailure : (res : CallResult) → is_ok res ≡ false → IsFailure (not_ok res)
failed-IsFailure res b = subst (λ (x : Bool). IsFailure (if x then none else some res)) (sym b) b

pub not_ok-IsFailure : (res : CallResult) → IsFailure (not_ok res)
not_ok-IsFailure res = elim (Bool-cases (is_ok res)) [
  | inl b ↦ simp b tt
  | inr b ↦ failed-IsFailure res b
]

pub local-IsFailure : (o : Option String) → IsFailure (local o)
local-IsFailure none = tt
local-IsFailure (some text) = refl

pub of_store-IsFailure : (o : Option KvFailure) → IsFailure (of_store o)
of_store-IsFailure none = tt
of_store-IsFailure (some e) = classify_kv_error-fails e

pub of_object-IsFailure : (o : Option KvFailure) → IsFailure (of_object o)
of_object-IsFailure none = tt
of_object-IsFailure (some e) = classify_obj_error-fails e

abbrev pub AllFailures : List (Option CallResult) → Type 0
AllFailures [] = Unit
AllFailures (o ∷ l) = IsFailure o × AllFailures l

pub checks-IsFailure : (l : List (Option CallResult)) → AllFailures l → IsFailure (checks l)
checks-IsFailure [] f = tt
checks-IsFailure (none ∷ l) (f, fs) = checks-IsFailure l fs
checks-IsFailure (some res ∷ l) (f, fs) = f
