-- ===== src/Buckets/Forms/Accepted.antt =====
-- The forms and names that the validation of desktop/internal/buckets/forms.go accepts.
use nats_desktop.Base.{
  Bool, List, Option, [], ap, arith, false, if◌then◌else◌, ltb, none, not, refl, some, suc, true, ℕ,
  ◌||◌, ◌∷◌, ◌≡◌, ◌≢◌,
}
use nats_desktop.Base.Int.{ltb_ℤ, negsuc, pos, ℤ}
use nats_desktop.Buckets.Forms.{
  BucketError, KvBucketForm, ObjBucketForm, all_bytes, bad_dots, bad_history, bad_limits, bad_name,
  bad_ttl, charset, default_replicas, dotted, is_key_char, is_search_char, replicas_error,
  valid_bucket, valid_key, valid_search_key, validate_key_name, validate_kv_bucket_form,
  validate_obj_bucket_form, validate_watch_filter,
}

key_search : (cs : List ℕ) → all_bytes is_key_char cs ≡ true → valid_search_key cs ≡ true
unfolding all_bytes valid_search_key is_search_char
key_search [] h = refl
key_search (c ∷ []) h = ground (arith, h)
key_search (c ∷ d ∷ cs) h = let r = key_search (d ∷ cs) in ground (arith, h, r)

valid_key-valid_search_key : (key : List ℕ) → valid_key key ≡ true → valid_search_key key ≡ true
unfolding valid_key
valid_key-valid_search_key [] h = cc
valid_key-valid_search_key (c ∷ cs) h = key_search (c ∷ cs) h

key_parts :
    (b v : Bool)
    → (if b then some dotted else if not v then some charset else none) ≡ none
    → (b ≡ false) × (v ≡ true)
key_parts true v h = cc
key_parts false true h = (refl, refl)
key_parts false false h = cc

-- A name that is accepted as a key is accepted as a watch filter.
pub validate_key_name-validate_watch_filter :
    (key : List ℕ) → validate_key_name key ≡ none → validate_watch_filter key ≡ none
unfolding validate_key_name validate_watch_filter valid_key
validate_key_name-validate_watch_filter key h =
    let (b, v) = key_parts (bad_dots key) (valid_key key) h in
    simp (b, valid_key-valid_search_key key v) refl

form_parts :
    (a b c d : Bool) (f g : KvBucketForm) (r : Option BucketError)
    → let o : KvBucketForm × Option BucketError =
        if a
        then (f, some bad_name)
        else if b
        then (f, some bad_history)
        else if c
        then (f, some bad_ttl)
        else if d
        then (f, some bad_limits)
        else (g, r) in
      o.1 ≡ none → (a ≡ false) × (b ≡ false) × (c ≡ false) × (d ≡ false) × (r ≡ none)
form_parts true b c d f g r h = cc
form_parts false true c d f g r h = cc
form_parts false false true d f g r h = cc
form_parts false false false true f g r h = cc
form_parts false false false false f g r h = (refl, refl, refl, refl, h)

default_replicas_twice : (n : ℤ) → default_replicas (default_replicas n) ≡ default_replicas n
unfolding default_replicas
default_replicas_twice (pos ℕ.zero) = refl
default_replicas_twice (pos (suc n)) = refl
default_replicas_twice (negsuc n) = refl

abbrev normalized : KvBucketForm → KvBucketForm
normalized f = record f { replicas = default_replicas f.replicas }

pub accepted :
    (f : KvBucketForm)
    → (validate_kv_bucket_form f).1 ≡ none
    → (validate_kv_bucket_form f ≡ (normalized f, none))
      × (validate_kv_bucket_form (normalized f) ≡ (normalized f, none))
unfolding validate_kv_bucket_form
accepted f h =
    let (a, b, c, d, r) =
      form_parts (not (valid_bucket f.name)) (ltb 64 f.history) (ltb_ℤ f.ttl_seconds (pos 0))
        (ltb_ℤ f.max_bytes (negsuc 0) || ltb_ℤ f.max_value_size (negsuc 0)) f (normalized f)
        (replicas_error (default_replicas f.replicas)) h in
    let t = default_replicas_twice f.replicas in
    (simp (a, b, c, d, r) refl, simp (a, b, c, d, t, r) refl)

-- A form that passes is normalized, and passes unchanged when it is validated again.
pub validate_kv_bucket_form_twice :
    (f : KvBucketForm)
    → (validate_kv_bucket_form f).1 ≡ none
    → validate_kv_bucket_form (validate_kv_bucket_form f).0 ≡ ((validate_kv_bucket_form f).0, none)
validate_kv_bucket_form_twice f h = let (e, g) = accepted f h in simp e g

obj_parts :
    (a b : Bool) (f g : ObjBucketForm) (r : Option BucketError)
    → let o : ObjBucketForm × Option BucketError =
        if a then (f, some bad_name) else if b then (f, some bad_limits) else (g, r) in
      o.1 ≡ none → o ≡ (g, none)
obj_parts true b f g r h = cc
obj_parts false true f g r h = cc
obj_parts false false f g r h = ap (λ x. (g, x)) h

pub accepted_obj :
    (f : ObjBucketForm)
    → (validate_obj_bucket_form f).1 ≡ none
    → validate_obj_bucket_form f ≡ (record f { replicas = default_replicas f.replicas }, none)
unfolding validate_obj_bucket_form
accepted_obj f h =
    obj_parts (not (valid_bucket f.name)) (ltb_ℤ f.max_bytes (negsuc 0)) f
      (record f { replicas = default_replicas f.replicas })
      (replicas_error (default_replicas f.replicas)) h

pub default_replicas_same : (n : ℤ) → n ≢ pos 0 → default_replicas n ≡ n
unfolding default_replicas
default_replicas_same (pos ℕ.zero) h = absurd (h refl)
default_replicas_same (pos (suc n)) h = refl
default_replicas_same (negsuc n) h = refl
