-- ===== src/Buckets/Edits/Unchanged.antt =====
-- What an edit of a bucket submits when nothing in its form is changed.
use nats_desktop.Base.{none, refl, some, ◌≡◌, ◌≢◌}
use nats_desktop.Base.Int.{pos}
use nats_desktop.Base.Duration
use nats_desktop.Buckets.Forms.{validate_kv_bucket_form, validate_obj_bucket_form}
use nats_desktop.Buckets.Forms.Accepted.{accepted, accepted_obj, default_replicas_same}
use nats_desktop.Buckets.Edits.{
  KvConfig, ObjConfig, kv_config_from_form, kv_detail_form, no_rest, obj_config_from_form,
  obj_detail_form, submit, update_kv_bucket, update_obj_bucket,
}

-- When the form of a key-value bucket, as its detail shows it, passes the validation and is
-- submitted as it is, the replicas are not 0 and the time to live is a whole number of seconds:
-- the update submits the configuration of the bucket with everything that no form has (the storage,
-- the compression, the placement, the republishing, the mirror, the sources, the metadata) at its
-- zero value.
pub update_kv_bucket-kv_detail_form :
    (cfg : KvConfig)
    → (validate_kv_bucket_form (kv_detail_form cfg)).1 ≡ none
    → cfg.replicas ≢ pos 0
    → Duration.times (Duration.whole cfg.ttl Duration.second) Duration.second ≡ cfg.ttl
    → update_kv_bucket (kv_detail_form cfg) ≡ some (record cfg { rest = no_rest })
unfolding update_kv_bucket submit kv_detail_form kv_config_from_form
update_kv_bucket-kv_detail_form cfg h r w =
    let (a, b) = accepted (kv_detail_form cfg) h in
    rw a (rw (default_replicas_same cfg.replicas r, w) refl)

-- When the form of an object bucket, as its detail shows it, passes the validation and is submitted
-- as it is, and the replicas are not 0: the update submits the configuration of the bucket with the
-- time to live, and everything else that no form has, at its zero value.
pub update_obj_bucket-obj_detail_form :
    (cfg : ObjConfig)
    → (validate_obj_bucket_form (obj_detail_form cfg)).1 ≡ none
    → cfg.replicas ≢ pos 0
    → update_obj_bucket (obj_detail_form cfg) ≡ some (record cfg { ttl = pos 0; rest = no_rest })
unfolding update_obj_bucket submit obj_detail_form obj_config_from_form
update_obj_bucket-obj_detail_form cfg h r =
    rw (accepted_obj (obj_detail_form cfg) h) (rw (default_replicas_same cfg.replicas r) refl)
