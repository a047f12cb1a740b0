-- ===== src/Tests/KeyValue.antt =====
-- The keys of desktop/internal/buckets/kv.go on concrete inputs, with a client library of one key.
use nats_desktop.Base.{
  List, Option, [], ap, arith, false, if◌then◌else◌, inr, none, refl, some, suc, true, ℕ, ◌*◌, ◌++◌,
  ◌+◌, ◌<◌, ◌==◌, ◌∙◌, ◌∷◌, ◌≡◌, ◌≢◌,
}
use nats_desktop.Base.Int.{negsuc, pos}
use nats_desktop.Buckets.Errors.{KvFailure, call_ok, conflict, is_ok}
use nats_desktop.Buckets.Checks.{js}
use nats_desktop.Base.Duration
use nats_desktop.Buckets.Edits.{
  KvConfig, ObjConfig, Rest, kv_config_from_form, kv_detail_form, no_rest, obj_detail_form,
  update_kv_bucket, update_obj_bucket,
}
use nats_desktop.Buckets.Edits.Unchanged.{
  update_kv_bucket-kv_detail_form, update_obj_bucket-obj_detail_form,
}
use nats_desktop.Buckets.Kv.{
  Answer, KvClient, KvEntry, Operation, answered, delete_key, delete_op, failed, is_marker,
  purge_op, put_key, put_op, revert_key, revert_target,
}
use nats_desktop.Buckets.Kv.Documented.{Documented, current, kept, last_revision, latest}
use nats_desktop.Buckets.Forms.{
  valid_bucket, validate_key_name, validate_kv_bucket_form, validate_obj_bucket_form,
  validate_payload_size,
}
use nats_desktop.Buckets.Kv.Targets.{last_valid, revert_target_lem}
use nats_desktop.Buckets.Kv.Reverts.{delete_key-revert_key, revert_key_twice}
use nats_desktop.Buckets.Kv.Conflicts.{put_key_again}
use nats_desktop.Buckets.Kv.Lists.{build_key_meta, encode_value, get_key_values, list_keys, missing}
use nats_desktop.Buckets.Kv.Lists.Complete.{list_keys_lem, snapshot}
use nats_desktop.Buckets.Kv.Lists.Orders.{get_key_values_lem, is_fine, occurs}
use nats_desktop.Tests.Buckets.{no_sentinel}

-- The revisions of the key, and the last sequence of the bucket.
record Shelf : Type 0 where
  pub items : List KvEntry
  pub seq : ℕ

abbrev entry_of : Operation → List ℕ → List ℕ → ℕ → KvEntry
entry_of op key v seq = record {
  key = key;
  value = v;
  revision = seq + 1;
  created_ms = pos 0;
  operation = op;
}

abbrev store : Operation → List ℕ → List ℕ → Shelf → Shelf
store op key v s = record {
  items = kept 5 (s.items ++ entry_of op key v s.seq ∷ []);
  seq = s.seq + 1;
}

abbrev mismatch : KvFailure
mismatch = record no_sentinel { key_revision_mismatch = true }

abbrev not_there : KvFailure
not_there = record no_sentinel { key_not_found = true }

abbrev get_from : Option KvEntry → Answer KvEntry
get_from none = failed not_there
get_from (some e) = if is_marker e then failed not_there else answered e

abbrev history_of : List KvEntry → Answer (List KvEntry)
history_of [] = failed not_there
history_of (e ∷ es) = answered (e ∷ es)

abbrev shelf_client : KvClient
shelf_client = record {
  Store = Shelf;
  connected = λ s. true;
  js_params = λ s. true;
  built = λ s. none;
  open_bucket = λ b s. none;
  create = λ b key v s. (store put_op key v s, answered (s.seq + 1));
  update = λ b key v r s.
      if r == last_revision s.items
      then (store put_op key v s, answered (s.seq + 1))
      else (s, failed mismatch);
  put = λ b key v s. (store put_op key v s, answered (s.seq + 1));
  delete = λ b key s. (store delete_op key [] s, none);
  purge =
      λ b key s. (record { items = entry_of purge_op key [] s.seq ∷ []; seq = s.seq + 1 }, none);
  get = λ b key s. get_from (latest s.items);
  history = λ b key s. history_of s.items;
}

histories_lem :
    (es : List KvEntry) (e : KvEntry) → history_of (es ++ e ∷ []) ≡ answered (es ++ e ∷ [])
histories_lem [] e = refl
histories_lem (x ∷ es) e = refl

same : (n : ℕ) → (n == n) ≡ true
same n = ground arith

differs : (m n : ℕ) → m ≢ n → (m == n) ≡ false
differs m n h = ground (arith, h)

shelf_documented : (bucket key : List ℕ) → Documented shelf_client bucket key
unfolding js is_marker
shelf_documented bucket key = record {
  depth = 5;
  Online = λ s. Unit;
  entries = λ s. s.items;
  opens = λ s o. (refl, refl);
  puts = λ v s o. (entry_of put_op key v s.seq, refl, tt, refl, refl, refl);
  deletes = λ s o. (entry_of delete_op key [] s.seq, refl, tt, refl, refl);
  purges = λ s o. (entry_of purge_op key [] s.seq, refl, tt, refl, refl);
  histories = λ s es e o h. ap history_of h ∙ histories_lem es e;
  gets = λ s e o h m. ap get_from h ∙ rw m refl;
  updates = λ v s o. (
    entry_of put_op key v s.seq,
    rw (same (last_revision s.items)) refl,
    tt,
    rw (same (last_revision s.items)) refl,
    refl,
    refl,
  );
  mismatches = λ v r s o h. (mismatch, rw (differs r (last_revision s.items) h) refl, refl);
}

abbrev bucket : List ℕ
bucket = 98 ∷ []

abbrev key : List ℕ
key = 107 ∷ []

-- A key with two values.
abbrev first : KvEntry
first = entry_of put_op key (1 ∷ []) 0

abbrev second : KvEntry
second = entry_of put_op key (2 ∷ []) 1

abbrev shelf : Shelf
shelf = record { items = first ∷ second ∷ []; seq = 2 }

revert_target_lem_example : revert_target (first ∷ second ∷ []) ≡ last_valid (first ∷ [])
revert_target_lem_example = revert_target_lem (first ∷ []) second

delete_key-revert_key_example :
    let (t, r) = delete_key shelf_client bucket key "delete" shelf in
    let (u, q) = revert_key shelf_client bucket key t in
    (is_ok r ≡ true)
    × (current t.items ≡ none)
    × (is_ok q.result ≡ true)
    × (current u.items ≡ some (2 ∷ []))
unfolding shelf_documented validate_key_name current is_marker
delete_key-revert_key_example =
    delete_key-revert_key shelf_client bucket key (shelf_documented bucket key) shelf (2 ∷ [])
      (omega arith) tt refl refl

revert_key_twice_example :
    let (u, r) = revert_key shelf_client bucket key shelf in
    let (w, q) = revert_key shelf_client bucket key u in
    (is_ok r.result ≡ true)
    × (current u.items ≡ some (1 ∷ []))
    × (is_ok q.result ≡ true)
    × (current w.items ≡ some (2 ∷ []))
unfolding shelf_documented validate_key_name last_valid is_marker
revert_key_twice_example =
    revert_key_twice shelf_client bucket key (shelf_documented bucket key) (first ∷ []) second first
      shelf (omega arith) tt refl refl refl refl

put_key_again_example :
    let (t, q) = put_key shelf_client (λ n. "") bucket key (inr (3 ∷ [])) "update" 1 shelf in
    let (u, p) =
      put_key shelf_client (λ n. "") bucket key (inr (3 ∷ [])) "update" q.current_revision t in
    (t ≡ shelf)
    × (q.result.error_code ≡ conflict)
    × (is_ok p.result ≡ true)
    × (current u.items ≡ some (3 ∷ []))
unfolding shelf_documented validate_key_name validate_payload_size is_marker
put_key_again_example =
    put_key_again (λ n. "") shelf_client bucket key (shelf_documented bucket key) (first ∷ [])
      second (3 ∷ []) 1 shelf (omega arith) tt refl refl refl refl (omega arith)

list_keys_lem_example :
    list_keys 1 call_ok none (answered (snapshot (first ∷ second ∷ []) [])) none
    ≡ record { result = call_ok; keys = build_key_meta first ∷ []; total = 1; truncated = true }
list_keys_lem_example = list_keys_lem 1 (first ∷ second ∷ []) []

-- The second of two keys is not there, and its worker ends first.
abbrev answers : ℕ → Answer KvEntry
answers ℕ.zero = answered first
answers n = failed not_there

answers_fine : (i : ℕ) → i < 2 → is_fine (answers i) ≡ true
answers_fine ℕ.zero h = refl
answers_fine (suc n) h = refl

abbrev backwards : List ℕ
backwards = 1 ∷ 0 ∷ []

both_occur : (j : ℕ) → j < 2 → occurs j backwards ≡ true
both_occur j h = ground (arith, h)

get_key_values_lem_example :
    get_key_values call_ok none (key ∷ bucket ∷ []) answers backwards
    ≡ record { result = call_ok; values = encode_value first ∷ missing bucket ∷ [] }
get_key_values_lem_example =
    get_key_values_lem (key ∷ bucket ∷ []) answers answers_fine backwards
      (omega arith, (omega arith, tt)) both_occur

-- Compressed buckets in memory, with a time to live of an hour.
abbrev hidden : Rest
hidden = record no_rest { memory_storage = true; compression = true }

abbrev kv_config : KvConfig
kv_config = record {
  bucket = bucket;
  description = "settings";
  history = 5;
  ttl = pos (3600 * Duration.second);
  max_bytes = negsuc 0;
  replicas = pos 3;
  max_value_size = negsuc 0;
  rest = hidden;
}

abbrev obj_config : ObjConfig
obj_config = record {
  bucket = bucket;
  description = "files";
  ttl = pos (3600 * Duration.second);
  max_bytes = negsuc 0;
  replicas = pos 3;
  rest = hidden;
}

update_kv_bucket-kv_detail_form_example :
    update_kv_bucket (kv_detail_form kv_config) ≡ some (record kv_config { rest = no_rest })
unfolding validate_kv_bucket_form kv_detail_form Duration.times Duration.whole valid_bucket
update_kv_bucket-kv_detail_form_example =
    update_kv_bucket-kv_detail_form kv_config refl (λ e. cc) refl

update_obj_bucket-obj_detail_form_example :
    update_obj_bucket (obj_detail_form obj_config)
    ≡ some (record obj_config { ttl = pos 0; rest = no_rest })
unfolding validate_obj_bucket_form obj_detail_form valid_bucket
update_obj_bucket-obj_detail_form_example =
    update_obj_bucket-obj_detail_form obj_config refl (λ e. cc)

-- A time to live of 9223372037 seconds passes the validation and wraps around to a negative one.
wrapped_ttl :
    (kv_config_from_form (record (kv_detail_form kv_config) { ttl_seconds = pos 9223372037 })).ttl
    ≡ negsuc 9223372036709551615
unfolding kv_config_from_form Duration.times
wrapped_ttl = refl
