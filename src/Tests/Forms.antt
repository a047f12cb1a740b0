-- ===== src/Tests/Forms.antt =====
-- The forms of internal/jsadmin on concrete inputs.
use nats_desktop.Base.{
  Bool, [], arith, false, inr, leb, none, refl, some, true, ℕ, ◌&&◌, ◌||◌, ◌↔◌, ◌∷◌, ◌≡◌,
}
use nats_desktop.Base.Int.{negsuc, pos}
use nats_desktop.JsAdmin.Errors.{ApiError, Failure}
use nats_desktop.JsAdmin.Cluster.{ClusterInfo, Peer}
use nats_desktop.JsAdmin.Streams.{StreamForm, default_replicas, validate_stream_form}
use nats_desktop.JsAdmin.Streams.Config.{
  StreamConfig, StreamSource, config_to_form, merge_stream_update, mirror_to_api, placement_of,
  stream_form_to_config,
}
use nats_desktop.JsAdmin.Streams.RoundTrip.{
  IsPlaced, config_to_form-stream_form_to_config, merge_stream_update-config_to_form, reduced,
}
use nats_desktop.JsAdmin.Streams.Validity.{IsValid, validate_stream_form_iff}
use nats_desktop.JsAdmin.Consumers.{ConsumerForm}

abbrev missing : ApiError
missing = record {
  err_code = 10059;
  code = 404;
  not_found_error = true;
  user_error = true;
  text = "stream not found";
}

abbrev plain : Failure
plain = record {
  text = missing.text;
  no_responders = false;
  deadline_exceeded = false;
  not_pull_consumer = false;
  jetstream = none;
  api = some missing;
}

abbrev healthy : Peer
healthy = record { offline = false; current = true }

abbrev cluster : ClusterInfo
cluster = record {
  leader = "n1";
  replicas = some healthy ∷ none ∷ some (record healthy { current = false }) ∷ [];
}

abbrev form : StreamForm
form = record {
  name = "ORDERS";
  description = "";
  subjects = "orders.>" ∷ [];
  storage = "memory";
  retention = "workqueue";
  max_msgs = negsuc 0;
  max_bytes = pos 1000;
  max_age_seconds = pos 3600;
  max_msgs_per_subject = pos 0;
  replicas = pos 0;
  placement_cluster = "";
  placement_tags = "ssd" ∷ [];
  mirror = none;
  sources = record { name = "OLD"; filter_subject = ""; opt_start_seq = 4 } ∷ [];
}

-- Latin letters.
abbrev latin : ℕ → Bool
latin c = leb 65 c && leb c 90 || leb 97 c && leb c 122

validate_stream_form_iff_example :
    let r = validate_stream_form latin form in
    ((r.1 ≡ none) ↔ IsValid latin form)
    × ((r ≡ (record form { replicas = default_replicas form.replicas }, none)) ↔ IsValid latin form)
validate_stream_form_iff_example = validate_stream_form_iff latin form

config_to_form-stream_form_to_config_example :
    config_to_form (stream_form_to_config form)
    ≡ record form { replicas = default_replicas form.replicas }
config_to_form-stream_form_to_config_example =
    config_to_form-stream_form_to_config form (refl, refl) (omega arith, omega arith)

-- A source in another account, from a start time on.
abbrev remote : StreamSource
remote = record {
  name = "OLD";
  filter_subject = "";
  opt_start_seq = 0;
  opt_start_time = some (pos 1700000000);
  external = some ("$JS.hub.API", "");
  subject_transforms = ("old.>", "new.>") ∷ [];
}

abbrev live : StreamConfig
live = record (stream_form_to_config form) {
  sources = some remote ∷ none ∷ [];
  max_consumers = pos 9;
  sealed = true;
}

merge_stream_update-config_to_form_example :
    merge_stream_update live (config_to_form live)
    ≡ record live { sources = some (reduced remote) ∷ [] }
unfolding stream_form_to_config IsPlaced placement_of mirror_to_api
merge_stream_update-config_to_form_example =
    merge_stream_update-config_to_form live (pos 3600) (omega arith, omega arith) refl
      (inr (λ e. cc))

abbrev pub consumer : ConsumerForm
consumer = record {
  stream = "ORDERS";
  durable = "billing";
  description = "";
  deliver_mode = "push";
  deliver_subject = "billing.in";
  deliver_group = "";
  filter_subjects = "orders.new" ∷ [];
  ack_policy = "none";
  ack_wait_seconds = pos 30;
  max_deliver = pos 5;
  max_waiting = pos 0;
  max_ack_pending = pos 0;
  max_request_batch = pos 0;
  max_request_expires_seconds = pos 0;
  max_request_max_bytes = pos 0;
  backoff_seconds = pos 1 ∷ pos 5 ∷ [];
  replay_policy = "instant";
  deliver_policy = "start_sequence";
  opt_start_seq = 12;
  opt_start_time_ms = pos 0;
  priority_groups = [];
  headers_only = false;
  replicas = pos 1;
  memory_storage = false;
  inactive_threshold_seconds = pos 0;
}
