-- ===== src/Buckets/Edits.antt =====
-- The forms of existing buckets and what an edit submits: `GetKvBucketDetail`, `kvConfigFromForm`
-- and `UpdateKvBucket` of desktop/internal/buckets/kv.go, and `GetObjBucketDetail`,
-- `objConfigFromForm` and `UpdateObjBucket` of objects.go.
pub mod Unchanged
use nats_desktop.Base.{Bool, List, Option, String, [], false, none, some, ℕ}
use nats_desktop.Base.Int.{pos, ℤ}
use nats_desktop.Base.Duration
use nats_desktop.Buckets.Forms.{
  KvBucketForm, ObjBucketForm, validate_kv_bucket_form, validate_obj_bucket_form,
}

-- Of the configurations of the client library, what no form has.
pub record Rest : Type 0 where
  pub memory_storage : Bool
  pub compression : Bool
  pub placement : Option String
  pub republish : Option String
  pub mirror : Option String
  pub sources : List String
  pub metadata : List (String × String)

abbrev pub no_rest : Rest
no_rest = record {
  memory_storage = false;
  compression = false;
  placement = none;
  republish = none;
  mirror = none;
  sources = [];
  metadata = [];
}

-- `jetstream.KeyValueConfig`
pub record KvConfig : Type 0 where
  pub bucket : List ℕ
  pub description : String
  pub history : ℕ
  pub ttl : ℤ
  pub max_bytes : ℤ
  pub replicas : ℤ
  pub max_value_size : ℤ
  pub rest : Rest

-- The form that the detail of a bucket shows.
unfoldable pub kv_detail_form : KvConfig → KvBucketForm
kv_detail_form cfg = record {
  name = cfg.bucket;
  description = cfg.description;
  history = cfg.history;
  ttl_seconds = Duration.whole cfg.ttl Duration.second;
  max_bytes = cfg.max_bytes;
  replicas = cfg.replicas;
  max_value_size = cfg.max_value_size;
}

unfoldable pub kv_config_from_form : KvBucketForm → KvConfig
kv_config_from_form f = record {
  bucket = f.name;
  description = f.description;
  history = f.history;
  ttl = Duration.times f.ttl_seconds Duration.second;
  max_bytes = f.max_bytes;
  replicas = f.replicas;
  max_value_size = f.max_value_size;
  rest = no_rest;
}

pub submit {ℓ κ ρ} : {A : Type ℓ} {B : Type κ} {C : Type ρ} → (A → B) → A × Option C → Option B
submit config (f, some e) = none
submit config (f, none) = some (config f)

-- The configuration that an update submits, if the form passes.
unfoldable pub update_kv_bucket : KvBucketForm → Option KvConfig
unfolding submit
update_kv_bucket f = submit kv_config_from_form (validate_kv_bucket_form f)

-- `jetstream.ObjectStoreConfig`
pub record ObjConfig : Type 0 where
  pub bucket : List ℕ
  pub description : String
  pub ttl : ℤ
  pub max_bytes : ℤ
  pub replicas : ℤ
  pub rest : Rest

unfoldable pub obj_detail_form : ObjConfig → ObjBucketForm
obj_detail_form cfg = record {
  name = cfg.bucket;
  description = cfg.description;
  max_bytes = cfg.max_bytes;
  replicas = cfg.replicas;
}

unfoldable pub obj_config_from_form : ObjBucketForm → ObjConfig
obj_config_from_form f = record {
  bucket = f.name;
  description = f.description;
  ttl = pos 0;
  max_bytes = f.max_bytes;
  replicas = f.replicas;
  rest = no_rest;
}

unfoldable pub update_obj_bucket : ObjBucketForm → Option ObjConfig
unfolding submit
update_obj_bucket f = submit obj_config_from_form (validate_obj_bucket_form f)
