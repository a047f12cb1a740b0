-- ===== src/Tests/Administration.antt =====
-- Backups, edits and previews of desktop/internal/jsadmin on concrete inputs.
use nats_desktop.Base.{
  Option, [], false, inr, length, map, none, refl, some, true, ℕ, ◌&&◌, ◌*◌, ◌∷◌, ◌≡◌,
}
use nats_desktop.Base.Int.{negsuc, pos}
use nats_desktop.Base.Duration
use nats_desktop.JsAdmin.Errors.{classify_error, done, is_ok}
use nats_desktop.Base.Text.{all_chars, is_blank_text, is_space}
use nats_desktop.JsAdmin.Backup.{
  Backup, BackupProgress, Course, Notice, Restore, backup, backup_stream, complete, emits, looks,
  restore, restore_backup, running,
}
use nats_desktop.JsAdmin.Backup.Protocol.{Ended, backup_stream-Ended, restore_backup-Ended}
use nats_desktop.JsAdmin.Consumers.{
  valid_durable_name, check_mode, replay_policy_from_api, check_deliver_policy,
  deliver_policy_from_api, check_limits, any_below, any_blank_filter, ack_explicit,
  ack_policy_from_api, deliver_all, needs_server_211, replay_instant, validate_consumer_form,
}
use nats_desktop.JsAdmin.Consumers.Edits.{
  ApiConsumer, consumer_config_to_form, no_other, refused, shown_filters, shown_max_deliver,
  submits, update_consumer,
}
use nats_desktop.JsAdmin.Consumers.Edits.Unchanged.{Shown, update_consumer-consumer_config_to_form}
use nats_desktop.JsAdmin.Consumers.Preview.{Fetched, Preview, preview_next}
use nats_desktop.JsAdmin.Consumers.Preview.Acked.{preview_next_lem, readable}

abbrev first_chunk : Notice
first_chunk = record { bytes_done = 10; bytes_total = 20; chunks_done = 1 }

abbrev second_chunk : Notice
second_chunk = record { bytes_done = 20; bytes_total = 20; chunks_done = 2 }

-- A transfer of two chunks. The callback of the second has read the flag when the transfer returns,
-- and emits after the last event; another comes too late.
abbrev overtaken : Course
overtaken = record {
  turns = looks first_chunk ∷ emits 0 ∷ looks second_chunk ∷ [];
  error = none;
  dropped = false;
  closing = looks second_chunk ∷ [];
  late = emits 0 ∷ looks second_chunk ∷ emits 0 ∷ [];
}

-- The same transfer, when the watch has seen the connection closed.
abbrev lost : Course
lost = record overtaken { dropped = true }

abbrev of_orders : Backup
of_orders = record {
  stream = "ORDERS";
  handles = done;
  load = none;
  connected = true;
  course = overtaken;
}

backup_stream-Ended_example : Ended backup overtaken (backup_stream false of_orders)
backup_stream-Ended_example = backup_stream-Ended of_orders

-- An event of progress follows the last event of this backup.
overtaken_backup :
    map (λ (e : BackupProgress). e.phase) (backup_stream false of_orders).events
    ≡ running ∷ running ∷ complete ∷ running ∷ []
unfolding backup_stream
overtaken_backup = refl

abbrev over_orders : Restore
over_orders = record {
  name = inr "ORDERS";
  overwrite = true;
  handles = done;
  known = inr true;
  delete_error = none;
  connected = true;
  course = lost;
}

restore_backup-Ended_example :
    Ended restore lost (restore_backup false over_orders)
    × (((restore_backup false over_orders).deletes && false) ≡ false)
    × (((restore_backup false over_orders).deletes && false) ≡ false)
restore_backup-Ended_example = restore_backup-Ended over_orders

-- The stream that is to be overwritten is gone, and the restore has failed.
lost_restore :
    ((restore_backup false over_orders).deletes ≡ true)
    × (is_ok (restore_backup false over_orders).result ≡ false)
unfolding restore_backup
lost_restore = (refl, refl)

-- A paused consumer with metadata.
abbrev paused_consumer : ApiConsumer
paused_consumer = record {
  config = record {
    durable = "worker";
    name = "worker";
    description = "";
    deliver_policy = deliver_all;
    opt_start_seq = 0;
    opt_start_time = none;
    ack_policy = ack_explicit;
    ack_wait = pos (30 * Duration.second);
    max_deliver = negsuc 0;
    max_waiting = pos 512;
    max_ack_pending = pos 1000;
    max_request_batch = pos 0;
    max_request_expires = pos 0;
    max_request_max_bytes = pos 0;
    backoff = [];
    replay_policy = replay_instant;
    filter_subjects = [];
    deliver_subject = "";
    deliver_group = "";
    headers_only = false;
    replicas = pos 1;
    memory_storage = false;
    inactive_threshold = pos 0;
  };
  filter_subject = "orders.new";
  priority_groups = [];
  other = record no_other { metadata = ("team", "sales") ∷ []; pause_until = some (pos 99) };
}

paused_consumer-Shown : Shown paused_consumer
unfolding Duration.times Duration.whole
paused_consumer-Shown = record {
  named = refl;
  ack_wait = refl;
  expires = refl;
  threshold = refl;
  backoff = tt;
  group = λ e. refl;
  filters = λ n. absurd (n refl);
}

update_consumer-consumer_config_to_form_example :
    update_consumer
      (consumer_config_to_form "ORDERS" paused_consumer)
      (record { handles = done; current = inr paused_consumer; answer = none })
    ≡ submits
        (record {
          config = record paused_consumer.config {
            max_deliver = pos 0;
            filter_subjects = "orders.new" ∷ [];
          };
          filter_subject = "";
          priority_groups = [];
          other = no_other;
        })
        done
unfolding shown_filters shown_max_deliver ack_policy_from_api classify_error consumer_config_to_form
    validate_consumer_form is_blank_text all_chars is_space valid_durable_name check_mode
    replay_policy_from_api check_deliver_policy deliver_policy_from_api check_limits Duration.whole
    any_below any_blank_filter
update_consumer-consumer_config_to_form_example =
    update_consumer-consumer_config_to_form "ORDERS" paused_consumer none paused_consumer-Shown refl
      refl

-- A consumer with a priority group is refused.
abbrev grouped_consumer : ApiConsumer
grouped_consumer = record paused_consumer { priority_groups = "jobs" ∷ [] }

grouped_refused :
    update_consumer
      (consumer_config_to_form "ORDERS" grouped_consumer)
      (record { handles = done; current = inr grouped_consumer; answer = none })
    ≡ refused needs_server_211
unfolding update_consumer consumer_config_to_form validate_consumer_form is_blank_text all_chars
    is_space valid_durable_name
grouped_refused = refl

abbrev fetched_message : ℕ → Option ℕ → Fetched
fetched_message id seq = record {
  id = id;
  message = record {
    subject = "orders.new";
    headers = [];
    payload = [];
    stream_seq = seq;
    timestamp_ms = pos 0;
  };
  num_delivered = 1;
  num_pending = 0;
}

abbrev two_fetched : Preview
two_fetched = record {
  batch = pos 2;
  auto_ack = true;
  handles = done;
  stream = none;
  consumer = none;
  info = inr false;
  fetch = inr (fetched_message 7 (some 1) ∷ fetched_message 8 none ∷ []);
  batch_error = none;
}

preview_next_lem_example :
    ((preview_next two_fetched).acked ≡ 7 ∷ [])
    × (length (preview_next two_fetched).messages ≡ 1)
    × (((preview_next two_fetched).requested && false) ≡ false)
    × (((preview_next two_fetched).requested && false) ≡ false)
unfolding preview_next readable
preview_next_lem_example = preview_next_lem two_fetched
