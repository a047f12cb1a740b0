-- ===== src/JsAdmin/Streams/Config.antt =====
-- A stream form and the configuration of the client library: the translations of
-- internal/jsadmin/forms.go. Of `api.StreamConfig` the record has the fields that the form edits,
-- and four of those that only the server manages.
use text.Mathlib.Text.{◌==◌ as str_eq}
use nats_desktop.Base.{Bool, List, Option, String, [], false, if◌then◌else◌, none, some, ℕ, ◌∷◌}
use nats_desktop.Base.Int.{ltb_ℤ, pos, ℤ}
use nats_desktop.Base.Duration
use nats_desktop.JsAdmin.Streams.{StreamForm, StreamSourceForm, default_replicas}

pub data StorageType : Type 0 where
  file_storage memory_storage : StorageType

pub data RetentionPolicy : Type 0 where
  limits_policy interest_policy work_queue_policy : RetentionPolicy

-- A start time is in nanoseconds; an external stream has an API prefix and a delivery prefix; a
-- transform of subjects has a source and a destination.
pub record StreamSource : Type 0 where
  pub name : String
  pub filter_subject : String
  pub opt_start_seq : ℕ
  pub opt_start_time : Option ℤ
  pub external : Option (String × String)
  pub subject_transforms : List (String × String)

pub record Placement : Type 0 where
  pub cluster : String
  pub tags : List String

-- `max_age` is a duration in nanoseconds. A source is a pointer, which can be nil.
pub record StreamConfig : Type 0 where
  pub name : String
  pub description : String
  pub subjects : List String
  pub storage : StorageType
  pub retention : RetentionPolicy
  pub max_msgs : ℤ
  pub max_bytes : ℤ
  pub max_age : ℤ
  pub max_msgs_per : ℤ
  pub replicas : ℤ
  pub placement : Option Placement
  pub mirror : Option StreamSource
  pub sources : List (Option StreamSource)
  pub max_consumers : ℤ
  pub duplicates : ℤ
  pub metadata : List (String × String)
  pub sealed : Bool

unfoldable pub storage_to_api : String → StorageType
storage_to_api s = if str_eq s "memory" then memory_storage else file_storage

unfoldable pub storage_from_api : StorageType → String
storage_from_api memory_storage = "memory"
storage_from_api file_storage = "file"

unfoldable pub retention_to_api : String → RetentionPolicy
retention_to_api r =
    if str_eq r "interest"
    then interest_policy
    else if str_eq r "workqueue"
    then work_queue_policy
    else limits_policy

unfoldable pub retention_from_api : RetentionPolicy → String
retention_from_api interest_policy = "interest"
retention_from_api work_queue_policy = "workqueue"
retention_from_api limits_policy = "limits"

source_to_api : StreamSourceForm → StreamSource
source_to_api s = record {
  name = s.name;
  filter_subject = s.filter_subject;
  opt_start_seq = s.opt_start_seq;
  opt_start_time = none;
  external = none;
  subject_transforms = [];
}

source_from_api : StreamSource → StreamSourceForm
source_from_api s = record {
  name = s.name;
  filter_subject = s.filter_subject;
  opt_start_seq = s.opt_start_seq;
}

unfoldable pub source_forms_to_api : List StreamSourceForm → List (Option StreamSource)
unfolding source_to_api
source_forms_to_api [] = []
source_forms_to_api (s ∷ l) = some (source_to_api s) ∷ source_forms_to_api l

-- The last loop of `configToForm`, which skips the nil sources.
unfoldable pub source_forms_from_api : List (Option StreamSource) → List StreamSourceForm
unfolding source_from_api
source_forms_from_api [] = []
source_forms_from_api (none ∷ l) = source_forms_from_api l
source_forms_from_api (some s ∷ l) = source_from_api s ∷ source_forms_from_api l

unfoldable pub mirror_to_api : Option StreamSourceForm → Option StreamSource
unfolding source_to_api
mirror_to_api none = none
mirror_to_api (some s) = some (source_to_api s)

unfoldable pub mirror_from_api : Option StreamSource → Option StreamSourceForm
unfolding source_from_api
mirror_from_api none = none
mirror_from_api (some s) = some (source_from_api s)

unfoldable pub placement_of : String → List String → Option Placement
placement_of cluster [] =
    if str_eq cluster "" then none else some (record { cluster = cluster; tags = [] })
placement_of cluster (t ∷ tags) = some (record { cluster = cluster; tags = t ∷ tags })

unfoldable pub cluster_of : Option Placement → String
cluster_of none = ""
cluster_of (some p) = p.cluster

unfoldable pub tags_of : Option Placement → List String
tags_of none = []
tags_of (some p) = p.tags

unfoldable pub stream_form_to_config : StreamForm → StreamConfig
stream_form_to_config f = record {
  name = f.name;
  description = f.description;
  subjects = f.subjects;
  storage = storage_to_api f.storage;
  retention = retention_to_api f.retention;
  max_msgs = f.max_msgs;
  max_bytes = f.max_bytes;
  max_age = Duration.times f.max_age_seconds Duration.second;
  max_msgs_per = f.max_msgs_per_subject;
  replicas = default_replicas f.replicas;
  placement = placement_of f.placement_cluster f.placement_tags;
  mirror = mirror_to_api f.mirror;
  sources = source_forms_to_api f.sources;
  max_consumers = pos 0;
  duplicates = pos 0;
  metadata = [];
  sealed = false;
}

unfoldable pub merge_stream_update : StreamConfig → StreamForm → StreamConfig
merge_stream_update existing f = record existing {
  description = f.description;
  subjects = f.subjects;
  storage = storage_to_api f.storage;
  retention = retention_to_api f.retention;
  max_msgs = f.max_msgs;
  max_bytes = f.max_bytes;
  max_age = Duration.times f.max_age_seconds Duration.second;
  max_msgs_per = f.max_msgs_per_subject;
  replicas = if ltb_ℤ (pos 0) f.replicas then f.replicas else existing.replicas;
  placement = placement_of f.placement_cluster f.placement_tags;
  mirror = mirror_to_api f.mirror;
  sources = source_forms_to_api f.sources;
}

unfoldable pub config_to_form : StreamConfig → StreamForm
config_to_form cfg = record {
  name = cfg.name;
  description = cfg.description;
  subjects = cfg.subjects;
  storage = storage_from_api cfg.storage;
  retention = retention_from_api cfg.retention;
  max_msgs = cfg.max_msgs;
  max_bytes = cfg.max_bytes;
  max_age_seconds = Duration.whole cfg.max_age Duration.second;
  max_msgs_per_subject = cfg.max_msgs_per;
  replicas = cfg.replicas;
  placement_cluster = cluster_of cfg.placement;
  placement_tags = tags_of cfg.placement;
  mirror = mirror_from_api cfg.mirror;
  sources = source_forms_from_api cfg.sources;
}
