-- ===== src/JsAdmin/Streams/RoundTrip.antt =====
-- Stream forms through the client library's configuration and back.
use nats_desktop.Base.Int.{ℤ}
use text.Mathlib.Text.{◌==◌ as str_eq}
use text.Mathlib.TextEquality.{eq_iff}
use nats_desktop.Base.{
  List, Option, String, [], ap, arith, map, none, refl, some, true, ◌||◌, ◌∷◌, ◌≡◌, ◌≢◌, ◌⊎◌,
}
use nats_desktop.Base.Duration
use nats_desktop.JsAdmin.Streams.{StreamForm, StreamSourceForm, default_replicas}
use nats_desktop.JsAdmin.Streams.Config.{
  Placement, RetentionPolicy, StorageType, StreamConfig, StreamSource, cluster_of, config_to_form,
  file_storage, interest_policy, limits_policy, memory_storage, merge_stream_update,
  mirror_from_api, mirror_to_api, placement_of, retention_from_api, retention_to_api,
  source_forms_from_api, source_forms_to_api, storage_from_api, storage_to_api,
  stream_form_to_config, tags_of, work_queue_policy,
}

storage_back :
    (s : String)
    → (str_eq s "file" || str_eq s "memory") ≡ true
    → storage_from_api (storage_to_api s) ≡ s
unfolding storage_from_api storage_to_api
storage_back s h = ground (arith, eq_iff s "memory", eq_iff s "file")

retention_back :
    (s : String)
    → (str_eq s "limits" || str_eq s "interest" || str_eq s "workqueue") ≡ true
    → retention_from_api (retention_to_api s) ≡ s
unfolding retention_from_api retention_to_api
retention_back s h = ground (arith, eq_iff s "limits", eq_iff s "interest", eq_iff s "workqueue")

sources_back : (l : List StreamSourceForm) → source_forms_from_api (source_forms_to_api l) ≡ l
unfolding source_forms_from_api source_forms_to_api
sources_back [] = refl
sources_back (s ∷ l) = ap (λ r. s ∷ r) (sources_back l)

mirror_back : (m : Option StreamSourceForm) → mirror_from_api (mirror_to_api m) ≡ m
unfolding mirror_from_api mirror_to_api
mirror_back none = refl
mirror_back (some s) = refl

cluster_back : (c : String) (tags : List String) → cluster_of (placement_of c tags) ≡ c
unfolding cluster_of placement_of
cluster_back c [] = ground (arith, eq_iff c "")
cluster_back c (t ∷ tags) = refl

tags_back : (c : String) (tags : List String) → tags_of (placement_of c tags) ≡ tags
unfolding tags_of placement_of
tags_back c [] = ground arith
tags_back c (t ∷ tags) = refl

-- A storage and a retention that the validation lets pass.
abbrev pub Named : StreamForm → Type 0
Named f =
    ((str_eq f.storage "file" || str_eq f.storage "memory") ≡ true)
    × ((str_eq f.retention "limits"
          || str_eq f.retention "interest"
          || str_eq f.retention "workqueue")
        ≡ true)

-- A form with a known storage and retention, whose age in seconds fits a 64-bit duration, comes back
-- from the configuration as it was, with 0 replicas as 1.
pub config_to_form-stream_form_to_config :
    (f : StreamForm)
    → Named f
    → Duration.Fits f.max_age_seconds
    → config_to_form (stream_form_to_config f) ≡ record f { replicas = default_replicas f.replicas }
unfolding config_to_form stream_form_to_config
config_to_form-stream_form_to_config f (a, b) h =
    rw
      (
        storage_back f.storage a,
        retention_back f.retention b,
        Duration.whole-times f.max_age_seconds h,
        cluster_back f.placement_cluster f.placement_tags,
        tags_back f.placement_cluster f.placement_tags,
        mirror_back f.mirror,
        sources_back f.sources,
      )
      refl

-- The other way.
storage_forth : (t : StorageType) → storage_to_api (storage_from_api t) ≡ t
unfolding storage_from_api storage_to_api
storage_forth file_storage = refl
storage_forth memory_storage = refl

retention_forth : (t : RetentionPolicy) → retention_to_api (retention_from_api t) ≡ t
unfolding retention_from_api retention_to_api
retention_forth limits_policy = refl
retention_forth interest_policy = refl
retention_forth work_queue_policy = refl

-- A source as an edit leaves it: its name, its filter and its start sequence.
abbrev pub reduced : StreamSource → StreamSource
reduced s = record s { opt_start_time = none; external = none; subject_transforms = [] }

abbrev pub reduced_mirror : Option StreamSource → Option StreamSource
reduced_mirror none = none
reduced_mirror (some s) = some (reduced s)

-- The sources of a configuration that are not nil.
abbrev pub given : List (Option StreamSource) → List StreamSource
given [] = []
given (none ∷ l) = given l
given (some s ∷ l) = s ∷ given l

sources_forth :
    (l : List (Option StreamSource))
    → source_forms_to_api (source_forms_from_api l) ≡ map (λ s. some (reduced s)) (given l)
unfolding source_forms_from_api source_forms_to_api
sources_forth [] = refl
sources_forth (none ∷ l) = sources_forth l
sources_forth (some s ∷ l) = ap (λ r. some (reduced s) ∷ r) (sources_forth l)

mirror_forth : (m : Option StreamSource) → mirror_to_api (mirror_from_api m) ≡ reduced_mirror m
unfolding mirror_from_api mirror_to_api
mirror_forth none = refl
mirror_forth (some s) = refl

-- A placement, if there is one, names a cluster or a tag.
unfoldable pub IsPlaced : Option Placement → Type 0
IsPlaced none = Unit
IsPlaced (some p) = (p.cluster ≢ "") ⊎ (p.tags ≢ [])

placement_parts :
    (c : String) (tags : List String)
    → (c ≢ "") ⊎ (tags ≢ [])
    → placement_of c tags ≡ some (record { cluster = c; tags = tags })
unfolding placement_of
placement_parts c [] h = ground (arith, eq_iff c "")
placement_parts c (t ∷ l) h = refl

placement_forth : (p : Option Placement) → IsPlaced p → placement_of (cluster_of p) (tags_of p) ≡ p
unfolding cluster_of tags_of placement_of IsPlaced
placement_forth none h = refl
placement_forth (some p) h = placement_parts p.cluster p.tags h

-- An edit that changes nothing in the form leaves the live configuration as it is, with what only
-- the server manages, but for its mirror and its sources: each is reduced to its name, its filter
-- and its start sequence, so that a start time, an external stream and the transforms of subjects
-- are lost, and nil sources are left out. The age is a whole number of seconds, and a placement
-- names a cluster or a tag.
pub merge_stream_update-config_to_form :
    (cfg : StreamConfig) (seconds : ℤ)
    → Duration.Fits seconds
    → cfg.max_age ≡ Duration.times seconds Duration.second
    → IsPlaced cfg.placement
    → merge_stream_update cfg (config_to_form cfg) ≡ record cfg {
      mirror = reduced_mirror cfg.mirror;
      sources = map (λ s. some (reduced s)) (given cfg.sources);
    }
unfolding config_to_form merge_stream_update
merge_stream_update-config_to_form cfg seconds h e p =
    rw
      (
        storage_forth cfg.storage,
        retention_forth cfg.retention,
        e,
        Duration.whole-times seconds h,
        sources_forth cfg.sources,
        placement_forth cfg.placement p,
        mirror_forth cfg.mirror,
      )
      (ground arith)
