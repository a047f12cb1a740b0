-- ===== src/JsAdmin/Streams.antt =====
-- The form of a stream, and its validation, from internal/jsadmin/types.go and forms.go.
pub mod Config
pub mod RoundTrip
pub mod Validity
use text.Mathlib.Text.{◌==◌ as str_eq}
use nats_desktop.Base.{
  Bool, List, Option, String, [], false, if◌then◌else◌, none, not, some, true, ℕ, ◌&&◌, ◌==◌, ◌||◌,
  ◌∷◌,
}
use nats_desktop.Base.Int.{ltb_ℤ, negsuc, pos, ℤ}
use nats_desktop.Base.Text.{all_chars, is_blank_text}

pub record StreamSourceForm : Type 0 where
  pub name : String
  pub filter_subject : String
  pub opt_start_seq : ℕ

pub record StreamForm : Type 0 where
  pub name : String
  pub description : String
  pub subjects : List String
  pub storage : String
  pub retention : String
  pub max_msgs : ℤ
  pub max_bytes : ℤ
  pub max_age_seconds : ℤ
  pub max_msgs_per_subject : ℤ
  pub replicas : ℤ
  pub placement_cluster : String
  pub placement_tags : List String
  pub mirror : Option StreamSourceForm
  pub sources : List StreamSourceForm

pub data StreamFormError : Type 0 where
  name_required illegal_name subject_required empty_subject : StreamFormError
  bad_storage bad_retention : String → StreamFormError
  bad_limit bad_max_age bad_replicas mirror_name_required source_name_required : StreamFormError

-- `unicode.IsLetter` and `unicode.IsDigit` are tables of the Go library: the parameter `alnum` is
-- whether a character is in one of them.
pub valid_stream_name : (ℕ → Bool) → ℕ → Bool
valid_stream_name alnum c = c == 95 || c == 45 || c == 46 || c == 62 || c == 42 || alnum c

pub legal_char : (ℕ → Bool) → ℕ → Bool
unfolding valid_stream_name
legal_char alnum c = not (c == 32 || not (valid_stream_name alnum c))

pub any_blank_name : List String → Bool
any_blank_name [] = false
any_blank_name (s ∷ l) = is_blank_text s || any_blank_name l

pub any_blank_source : List StreamSourceForm → Bool
any_blank_source [] = false
any_blank_source (s ∷ l) = is_blank_text s.name || any_blank_source l

abbrev pub is_none {ℓ} : {A : Type ℓ} → Option A → Bool
is_none none = true
is_none (some a) = false

abbrev pub is_empty {ℓ} : {A : Type ℓ} → List A → Bool
is_empty [] = true
is_empty (a ∷ l) = false

unfoldable pub blank_mirror : Option StreamSourceForm → Bool
blank_mirror none = false
blank_mirror (some s) = is_blank_text s.name

abbrev pub default_replicas : ℤ → ℤ
default_replicas (pos ℕ.zero) = pos 1
default_replicas n = n

unfoldable pub below : ℤ → ℤ → Bool
below a b = ltb_ℤ a b

-- The form is changed in place: 0 replicas become 1, if the check gets that far.
unfoldable pub validate_stream_form : (ℕ → Bool) → StreamForm → StreamForm × Option StreamFormError
unfolding blank_mirror legal_char below
validate_stream_form alnum f =
    if is_blank_text f.name
    then (f, some name_required)
    else if not (all_chars (legal_char alnum) f.name)
    then (f, some illegal_name)
    else if is_none f.mirror && is_empty f.subjects
    then (f, some subject_required)
    else if any_blank_name f.subjects
    then (f, some empty_subject)
    else if not (str_eq f.storage "file" || str_eq f.storage "memory")
    then (f, some (bad_storage f.storage))
    else if not (
        str_eq f.retention "limits"
        || str_eq f.retention "interest"
        || str_eq f.retention "workqueue")
    then (f, some (bad_retention f.retention))
    else if below f.max_msgs (negsuc 0)
        || below f.max_bytes (negsuc 0)
        || below f.max_msgs_per_subject (negsuc 0)
    then (f, some bad_limit)
    else if below f.max_age_seconds (pos 0)
    then (f, some bad_max_age)
    else let g = record f { replicas = default_replicas f.replicas } in
      if below g.replicas (pos 1) || below (pos 5) g.replicas
      then (g, some bad_replicas)
      else if blank_mirror g.mirror
      then (g, some mirror_name_required)
      else if any_blank_source g.sources
      then (g, some source_name_required)
      else (g, none)
