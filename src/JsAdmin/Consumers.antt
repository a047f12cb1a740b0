-- ===== src/JsAdmin/Consumers.antt =====
-- The form of a consumer, its validation, and its translation to the configuration of the client
-- library, from internal/jsadmin/types.go and forms.go.
pub mod Modes
pub mod Preview
pub mod Edits
use text.Mathlib.Text.{◌==◌ as str_eq}
use nats_desktop.Base.{
  Bool, List, Option, String, [], false, if◌then◌else◌, length, ltb, none, not, some, true, ℕ, ◌&&◌,
  ◌==◌, ◌||◌, ◌∷◌,
}
use nats_desktop.Base.Int.{ltb_ℤ, negsuc, pos, ℤ}
use nats_desktop.Base.Text.{all_chars, is_blank_text}
use nats_desktop.Base.Duration

pub record ConsumerForm : Type 0 where
  pub stream : String
  pub durable : String
  pub description : String
  pub deliver_mode : String
  pub deliver_subject : String
  pub deliver_group : String
  pub filter_subjects : List String
  pub ack_policy : String
  pub ack_wait_seconds : ℤ
  pub max_deliver : ℤ
  pub max_waiting : ℤ
  pub max_ack_pending : ℤ
  pub max_request_batch : ℤ
  pub max_request_expires_seconds : ℤ
  pub max_request_max_bytes : ℤ
  pub backoff_seconds : List ℤ
  pub replay_policy : String
  pub deliver_policy : String
  pub opt_start_seq : ℕ
  pub opt_start_time_ms : ℤ
  pub priority_groups : List String
  pub headers_only : Bool
  pub replicas : ℤ
  pub memory_storage : Bool
  pub inactive_threshold_seconds : ℤ

pub data ConsumerFormError : Type 0 where
  stream_required durable_required illegal_durable needs_server_211 : ConsumerFormError
  deliver_subject_required : ConsumerFormError
  bad_deliver_mode bad_ack_policy bad_replay_policy bad_deliver_policy : String → ConsumerFormError
  bad_start_seq bad_start_time bad_seconds bad_count : ConsumerFormError
  long_backoff bad_backoff many_filters empty_filter : ConsumerFormError

unfoldable pub valid_durable_name : ℕ → Bool
valid_durable_name c = not (c == 46) && not (c == 42) && not (c == 62)

abbrev pub has_any {ℓ} : {A : Type ℓ} → List A → Bool
has_any [] = false
has_any (a ∷ l) = true

unfoldable pub any_below : ℤ → List ℤ → Bool
any_below bound [] = false
any_below bound (n ∷ l) = ltb_ℤ n bound || any_below bound l

unfoldable pub any_blank_filter : List String → Bool
any_blank_filter [] = false
any_blank_filter (s ∷ l) = is_blank_text s || any_blank_filter l

-- `switch f.DeliverMode`.
unfoldable pub check_mode : ConsumerForm → Option ConsumerFormError
check_mode f =
    if str_eq f.deliver_mode "pull"
    then none
    else if str_eq f.deliver_mode "push"
    then (if is_blank_text f.deliver_subject then some deliver_subject_required else none)
    else some (bad_deliver_mode f.deliver_mode)

-- `switch f.DeliverPolicy`.
unfoldable pub check_deliver_policy : ConsumerForm → Option ConsumerFormError
check_deliver_policy f =
    if str_eq f.deliver_policy "all"
      || str_eq f.deliver_policy "last"
      || str_eq f.deliver_policy "new"
    then none
    else if str_eq f.deliver_policy "start_sequence"
    then (if ltb f.opt_start_seq 1 then some bad_start_seq else none)
    else if str_eq f.deliver_policy "start_time"
    then (if ltb_ℤ (pos 0) f.opt_start_time_ms then none else some bad_start_time)
    else some (bad_deliver_policy f.deliver_policy)

-- The checks after the switch.
unfoldable pub check_limits : ConsumerForm → Option ConsumerFormError
check_limits f =
    if ltb_ℤ f.ack_wait_seconds (pos 0) || ltb_ℤ f.max_request_expires_seconds (pos 0)
    then some bad_seconds
    else if any_below (pos 0)
        (f.max_deliver ∷ f.max_waiting ∷ f.max_ack_pending ∷ f.max_request_batch ∷ [])
    then some bad_count
    else if ltb 100 (length f.backoff_seconds)
    then some long_backoff
    else if any_below (pos 1) f.backoff_seconds
    then some bad_backoff
    else if ltb 10 (length f.filter_subjects)
    then some many_filters
    else if any_blank_filter f.filter_subjects
    then some empty_filter
    else none

abbrev or_else {ℓ} : {A : Type ℓ} → Option A → Option A → Option A
or_else none b = b
or_else (some a) b = some a

unfoldable pub validate_consumer_form : ConsumerForm → Bool → Option ConsumerFormError
validate_consumer_form f editing =
    if is_blank_text f.stream
    then some stream_required
    else if is_blank_text f.durable && not editing
    then some durable_required
    else if not (all_chars valid_durable_name f.durable)
    then some illegal_durable
    else if has_any f.priority_groups
    then some needs_server_211
    else or_else (check_mode f) (
        if not (
          str_eq f.ack_policy "explicit" || str_eq f.ack_policy "none" || str_eq f.ack_policy "all")
        then some (bad_ack_policy f.ack_policy)
        else if not (str_eq f.replay_policy "instant" || str_eq f.replay_policy "original")
        then some (bad_replay_policy f.replay_policy)
        else or_else (check_deliver_policy f) (check_limits f))

pub data AckPolicy : Type 0 where
  ack_none ack_all ack_explicit : AckPolicy

pub data DeliverPolicy : Type 0 where
  deliver_all deliver_last deliver_new deliver_by_start_sequence deliver_by_start_time :
      DeliverPolicy
  deliver_last_per_subject : DeliverPolicy

pub data ReplayPolicy : Type 0 where
  replay_instant replay_original : ReplayPolicy

unfoldable pub ack_policy_to_api : String → AckPolicy
ack_policy_to_api s =
    if str_eq s "none" then ack_none else if str_eq s "all" then ack_all else ack_explicit

unfoldable pub ack_policy_from_api : AckPolicy → String
ack_policy_from_api ack_none = "none"
ack_policy_from_api ack_all = "all"
ack_policy_from_api ack_explicit = "explicit"

unfoldable pub deliver_policy_to_api : String → DeliverPolicy
deliver_policy_to_api s =
    if str_eq s "last"
    then deliver_last
    else if str_eq s "new"
    then deliver_new
    else if str_eq s "start_sequence"
    then deliver_by_start_sequence
    else if str_eq s "start_time"
    then deliver_by_start_time
    else deliver_all

unfoldable pub deliver_policy_from_api : DeliverPolicy → String
deliver_policy_from_api deliver_last = "last"
deliver_policy_from_api deliver_new = "new"
deliver_policy_from_api deliver_by_start_sequence = "start_sequence"
deliver_policy_from_api deliver_by_start_time = "start_time"
deliver_policy_from_api deliver_all = "all"
deliver_policy_from_api deliver_last_per_subject = "all"

unfoldable pub replay_policy_to_api : String → ReplayPolicy
replay_policy_to_api s = if str_eq s "original" then replay_original else replay_instant

unfoldable pub replay_policy_from_api : ReplayPolicy → String
replay_policy_from_api replay_original = "original"
replay_policy_from_api replay_instant = "instant"

-- A start time is in milliseconds.
pub record ConsumerConfig : Type 0 where
  pub durable : String
  pub name : String
  pub description : String
  pub deliver_policy : DeliverPolicy
  pub opt_start_seq : ℕ
  pub opt_start_time : Option ℤ
  pub ack_policy : AckPolicy
  pub ack_wait : ℤ
  pub max_deliver : ℤ
  pub max_waiting : ℤ
  pub max_ack_pending : ℤ
  pub max_request_batch : ℤ
  pub max_request_expires : ℤ
  pub max_request_max_bytes : ℤ
  pub backoff : List ℤ
  pub replay_policy : ReplayPolicy
  pub filter_subjects : List String
  pub deliver_subject : String
  pub deliver_group : String
  pub headers_only : Bool
  pub replicas : ℤ
  pub memory_storage : Bool
  pub inactive_threshold : ℤ

pub seconds : ℤ → ℤ
seconds n = Duration.times n Duration.second

pub all_seconds : List ℤ → List ℤ
unfolding seconds
all_seconds [] = []
all_seconds (n ∷ l) = seconds n ∷ all_seconds l

unfoldable pub consumer_form_to_config : ConsumerForm → ConsumerConfig
unfolding all_seconds
consumer_form_to_config f = record {
  durable = f.durable;
  name = f.durable;
  description = f.description;
  deliver_policy = deliver_policy_to_api f.deliver_policy;
  opt_start_seq = if str_eq f.deliver_policy "start_sequence" then f.opt_start_seq else 0;
  opt_start_time = if str_eq f.deliver_policy "start_time" then some f.opt_start_time_ms else none;
  ack_policy = ack_policy_to_api f.ack_policy;
  ack_wait = seconds f.ack_wait_seconds;
  max_deliver = if str_eq f.ack_policy "none" then negsuc 0 else f.max_deliver;
  max_waiting = f.max_waiting;
  max_ack_pending = f.max_ack_pending;
  max_request_batch = f.max_request_batch;
  max_request_expires = seconds f.max_request_expires_seconds;
  max_request_max_bytes = f.max_request_max_bytes;
  backoff = all_seconds f.backoff_seconds;
  replay_policy = replay_policy_to_api f.replay_policy;
  filter_subjects = f.filter_subjects;
  deliver_subject = if str_eq f.deliver_mode "push" then f.deliver_subject else "";
  deliver_group = if str_eq f.deliver_mode "push" then f.deliver_group else "";
  headers_only = f.headers_only;
  replicas = f.replicas;
  memory_storage = f.memory_storage;
  inactive_threshold = seconds f.inactive_threshold_seconds;
}

-- `IsPull` of `BuildConsumerSummary`.
unfoldable pub is_pull : ConsumerConfig → Bool
is_pull cfg = str_eq cfg.deliver_subject ""
