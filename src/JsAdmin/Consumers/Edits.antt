-- ===== src/JsAdmin/Consumers/Edits.antt =====
-- Editing a consumer: `consumerConfigToForm`, `UpdateConsumer` and `CopyConsumer` of
-- desktop/internal/jsadmin/consumers.go.
pub mod Unchanged
use text.Mathlib.Text.{◌==◌ as str_eq}
use nats_desktop.Base.{
  Bool, List, Option, String, [], false, if◌then◌else◌, map, none, not, some, true, zero, inl, inr,
  ℕ, ◌&&◌, ◌∷◌, ◌⊎◌,
}
use nats_desktop.Base.Int.{ltb_ℤ, pos, ℤ}
use nats_desktop.Base.Duration
use nats_desktop.Base.Text.{is_blank_text}
use nats_desktop.JsAdmin.Errors.{CallResult, Failure, classify_error, is_ok}
use nats_desktop.JsAdmin.Consumers.{
  ConsumerConfig, ConsumerForm, ConsumerFormError, ack_policy_from_api, consumer_form_to_config,
  deliver_policy_from_api, durable_required, has_any, replay_policy_from_api,
  validate_consumer_form,
}

-- Fields of the server's configuration that no form has. Times are in nanoseconds.
pub record Other : Type 0 where
  pub sample_frequency : String
  pub rate_limit : ℕ
  pub flow_control : Bool
  pub heartbeat : ℤ
  pub metadata : List (String × String)
  pub pause_until : Option ℤ

abbrev pub no_other : Other
no_other = record {
  sample_frequency = "";
  rate_limit = 0;
  flow_control = false;
  heartbeat = pos 0;
  metadata = [];
  pause_until = none;
}

-- The server's configuration: what a form becomes, and the rest.
pub record ApiConsumer : Type 0 where
  pub config : ConsumerConfig
  pub filter_subject : String
  pub priority_groups : List String
  pub other : Other

-- `ConsumerFormToConfig`, which leaves the rest at its zero values.
abbrev pub api_of_form : ConsumerForm → ApiConsumer
api_of_form f = record {
  config = consumer_form_to_config f;
  filter_subject = "";
  priority_groups = [];
  other = no_other;
}

abbrev pub whole_seconds : ℤ → ℤ
whole_seconds d = Duration.whole d Duration.second

abbrev pub or_zero : Option ℤ → ℤ
or_zero none = pos 0
or_zero (some t) = t

-- The filters as the form shows them.
unfoldable pub shown_filters : ApiConsumer → List String
shown_filters a =
    if not (has_any a.config.filter_subjects) && not (str_eq a.filter_subject "")
    then a.filter_subject ∷ []
    else a.config.filter_subjects

unfoldable pub shown_max_deliver : ℤ → ℤ
shown_max_deliver n = if ltb_ℤ n (pos 0) then pos 0 else n

unfoldable pub consumer_config_to_form : String → ApiConsumer → ConsumerForm
unfolding shown_filters shown_max_deliver
consumer_config_to_form stream a =
    let cfg = a.config in
    let push = not (str_eq cfg.deliver_subject "") in
    record {
      stream = stream;
      durable = cfg.durable;
      description = cfg.description;
      deliver_mode = if push then "push" else "pull";
      deliver_subject = if push then cfg.deliver_subject else "";
      deliver_group = if push then cfg.deliver_group else "";
      filter_subjects = shown_filters a;
      ack_policy = ack_policy_from_api cfg.ack_policy;
      ack_wait_seconds = whole_seconds cfg.ack_wait;
      max_deliver = shown_max_deliver cfg.max_deliver;
      max_waiting = cfg.max_waiting;
      max_ack_pending = cfg.max_ack_pending;
      max_request_batch = cfg.max_request_batch;
      max_request_expires_seconds = whole_seconds cfg.max_request_expires;
      max_request_max_bytes = cfg.max_request_max_bytes;
      backoff_seconds = map whole_seconds cfg.backoff;
      replay_policy = replay_policy_from_api cfg.replay_policy;
      deliver_policy = deliver_policy_from_api cfg.deliver_policy;
      opt_start_seq = cfg.opt_start_seq;
      opt_start_time_ms = or_zero cfg.opt_start_time;
      priority_groups = a.priority_groups;
      headers_only = cfg.headers_only;
      replicas = cfg.replicas;
      memory_storage = cfg.memory_storage;
      inactive_threshold_seconds = whole_seconds cfg.inactive_threshold;
    }

abbrev pub is_zero : ℤ → Bool
is_zero (pos ℕ.zero) = true
is_zero n = false

abbrev pub keep_start : ApiConsumer → ApiConsumer → ApiConsumer
keep_start cur a = record a {
  config = record a.config {
    opt_start_seq = cur.config.opt_start_seq;
    opt_start_time = cur.config.opt_start_time;
  };
}

abbrev pub keep_filters : Bool → ApiConsumer → ApiConsumer → ApiConsumer
keep_filters true cur a = a
keep_filters false cur a = record a {
  config = record a.config { filter_subjects = cur.config.filter_subjects };
  filter_subject = cur.filter_subject;
}

abbrev pub keep_replicas : Bool → ApiConsumer → ApiConsumer → ApiConsumer
keep_replicas false cur a = a
keep_replicas true cur a = record a { config = record a.config { replicas = cur.config.replicas } }

-- The configuration that `UpdateConsumer` submits once the form has passed its checks, given the
-- server's current one.
unfoldable pub edited : ConsumerForm → ApiConsumer → ApiConsumer
edited f cur =
    let a = keep_start cur (api_of_form f) in
    let b = keep_filters (has_any f.filter_subjects) cur a in
    keep_replicas (is_zero b.config.replicas) cur b

-- What `UpdateConsumer` finds: the client, the consumer as it is, and the answer to a submission.
pub record Server : Type 0 where
  pub handles : CallResult
  pub current : Failure ⊎ ApiConsumer
  pub answer : Option Failure

-- How the call ends: with the text of an error of the form, before any request; with an answer and
-- nothing submitted; or with a configuration submitted.
pub data Update : Type 0 where
  refused : ConsumerFormError → Update
  stopped : CallResult → Update
  submits : ApiConsumer → CallResult → Update

unfoldable pub update_loaded : ConsumerForm → Option Failure → Failure ⊎ ApiConsumer → Update
unfolding edited
update_loaded f answer (inl e) = stopped (classify_error (some e))
update_loaded f answer (inr cur) = submits (edited f cur) (classify_error answer)

unfoldable pub update_checked : ConsumerForm → Server → Option ConsumerFormError → Update
unfolding update_loaded
update_checked f s (some e) = refused e
update_checked f s none =
    if is_ok s.handles then update_loaded f s.answer s.current else stopped s.handles

unfoldable pub update_consumer : ConsumerForm → Server → Update
unfolding update_checked
update_consumer f s =
    if is_blank_text f.durable
    then refused durable_required
    else update_checked f s (validate_consumer_form f true)

-- The one that `CopyConsumer` submits.
unfoldable pub copied : String → ApiConsumer → ApiConsumer
copied name cur = record cur {
  config = record cur.config { durable = name; name = name };
  other = record cur.other { pause_until = none };
}
