-- ===== src/Buckets/Forms.antt =====
-- The validation of buckets, keys and watch filters: desktop/internal/buckets/forms.go. A name is the
-- list of its bytes.
pub mod Accepted
use nats_desktop.Base.{
  Bool, List, Option, String, [], false, if◌then◌else◌, leb, ltb, none, not, some, true, zero, ℕ,
  ◌&&◌, ◌*◌, ◌==◌, ◌||◌, ◌∷◌,
}
use nats_desktop.Base.Int.{ltb_ℤ, negsuc, pos, ℤ}

abbrev pub max_value_bytes : ℕ
max_value_bytes = 8 * 1024 * 1024

-- The letters, the digits, and a few more.
is_alnum : ℕ → Bool
is_alnum c = leb 97 c && leb c 122 || leb 65 c && leb c 90 || leb 48 c && leb c 57

pub all_bytes : (ℕ → Bool) → List ℕ → Bool
all_bytes test [] = true
all_bytes test (c ∷ cs) = test c && all_bytes test cs

is_bucket_char : ℕ → Bool
unfolding is_alnum
is_bucket_char c = is_alnum c || c == 95 || c == 45

-- `validBucketRe`
unfoldable pub valid_bucket : List ℕ → Bool
unfolding is_bucket_char all_bytes
valid_bucket [] = false
valid_bucket (c ∷ cs) = all_bytes is_bucket_char (c ∷ cs)

pub is_key_char : ℕ → Bool
unfolding is_alnum
is_key_char c = c == 45 || c == 47 || c == 95 || c == 61 || c == 46 || is_alnum c

-- `validKeyRe`
pub valid_key : List ℕ → Bool
unfolding is_key_char all_bytes
valid_key [] = false
valid_key (c ∷ cs) = all_bytes is_key_char (c ∷ cs)

pub is_search_char : ℕ → Bool
unfolding is_key_char
is_search_char c = is_key_char c || c == 42

-- `validSearchKeyRe`: a `>` may be the last character.
pub valid_search_key : List ℕ → Bool
unfolding is_search_char
valid_search_key [] = true
valid_search_key (c ∷ []) = is_search_char c || c == 62
valid_search_key (c ∷ d ∷ cs) = is_search_char c && valid_search_key (d ∷ cs)

-- `strings.Contains(s, "..")`
pub has_double_dot : List ℕ → Bool
has_double_dot [] = false
has_double_dot (c ∷ []) = false
has_double_dot (c ∷ d ∷ cs) = c == 46 && d == 46 || has_double_dot (d ∷ cs)

ends_with_dot : List ℕ → Bool
ends_with_dot [] = false
ends_with_dot (c ∷ []) = c == 46
ends_with_dot (c ∷ d ∷ cs) = ends_with_dot (d ∷ cs)

starts_with_dot : List ℕ → Bool
starts_with_dot [] = false
starts_with_dot (c ∷ cs) = c == 46

is_empty_name : List ℕ → Bool
is_empty_name [] = true
is_empty_name (c ∷ cs) = false

pub bad_dots : List ℕ → Bool
unfolding is_empty_name starts_with_dot ends_with_dot has_double_dot
bad_dots s = is_empty_name s || starts_with_dot s || ends_with_dot s || has_double_dot s

pub data NameError : Type 0 where
  dotted charset : NameError

unfoldable pub validate_key_name : List ℕ → Option NameError
unfolding bad_dots valid_key
validate_key_name key =
    if bad_dots key then some dotted else if not (valid_key key) then some charset else none

unfoldable pub validate_watch_filter : List ℕ → Option NameError
unfolding bad_dots valid_search_key
validate_watch_filter s =
    if bad_dots s then some dotted else if not (valid_search_key s) then some charset else none

-- Whether a payload of so many bytes passes.
unfoldable pub validate_payload_size : ℕ → Bool
validate_payload_size n = leb n max_value_bytes

pub record KvBucketForm : Type 0 where
  pub name : List ℕ
  pub description : String
  pub history : ℕ
  pub ttl_seconds : ℤ
  pub max_bytes : ℤ
  pub replicas : ℤ
  pub max_value_size : ℤ

pub data BucketError : Type 0 where
  bad_name bad_history bad_ttl bad_limits bad_replicas : BucketError

pub default_replicas : ℤ → ℤ
default_replicas (pos ℕ.zero) = pos 1
default_replicas n = n

pub replicas_error : ℤ → Option BucketError
replicas_error n = if ltb_ℤ n (pos 1) || ltb_ℤ (pos 5) n then some bad_replicas else none

-- The form with its replicas normalized, and the error.
unfoldable pub validate_kv_bucket_form : KvBucketForm → KvBucketForm × Option BucketError
unfolding default_replicas replicas_error
validate_kv_bucket_form f =
    if not (valid_bucket f.name)
    then (f, some bad_name)
    else if ltb 64 f.history
    then (f, some bad_history)
    else if ltb_ℤ f.ttl_seconds (pos 0)
    then (f, some bad_ttl)
    else if ltb_ℤ f.max_bytes (negsuc 0) || ltb_ℤ f.max_value_size (negsuc 0)
    then (f, some bad_limits)
    else (
      record f { replicas = default_replicas f.replicas },
      replicas_error (default_replicas f.replicas),
    )

pub record ObjBucketForm : Type 0 where
  pub name : List ℕ
  pub description : String
  pub max_bytes : ℤ
  pub replicas : ℤ

unfoldable pub validate_obj_bucket_form : ObjBucketForm → ObjBucketForm × Option BucketError
unfolding default_replicas replicas_error
validate_obj_bucket_form f =
    if not (valid_bucket f.name)
    then (f, some bad_name)
    else if ltb_ℤ f.max_bytes (negsuc 0)
    then (f, some bad_limits)
    else (
      record f { replicas = default_replicas f.replicas },
      replicas_error (default_replicas f.replicas),
    )
