-- ===== src/Buckets/Kv/Lists/Complete.antt =====
-- The capped list of `ListKeys` of desktop/internal/buckets/kv.go.

use nats_desktop.Base.{
  List, Option, [], ap, append-nil, append_assoc, arith, false, leb, length, length-append,
  length-map, length-take, ltb, map, min, none, refl, some, suc, take, true, ℕ, ◌++◌, ◌+◌, ◌∷◌, ◌≡◌,
}
use nats_desktop.Buckets.Errors.{call_ok}
use nats_desktop.Buckets.Kv.{KvEntry, answered}
use nats_desktop.Buckets.Kv.Lists.{
  KeyMeta, build_key_meta, collect, list_checked, list_keys, listed, watched,
}

-- A snapshot: the entries, the sentinel, and updates that come later.
abbrev pub snapshot : List KvEntry → List (Option KvEntry) → List (Option KvEntry)
snapshot es late = map some es ++ none ∷ late

-- `r` is what is left of the limit.
collect-snapshot :
    (limit r : ℕ) (keys : List KeyMeta) (es : List KvEntry) (late : List (Option KvEntry))
    → length keys + r ≡ limit
    → collect limit keys (snapshot es late)
      ≡ (keys ++ take r (map build_key_meta es), ltb r (length es))
unfolding collect
collect-snapshot limit ℕ.zero keys [] late h = rw (append-nil keys) refl
collect-snapshot limit ℕ.zero keys (e ∷ es) late h =
    let full : leb limit (length keys) ≡ true = ground (arith, h) in
    let z : ltb 0 (suc (length es)) ≡ true = ground arith in rw (full, append-nil keys, z) refl
collect-snapshot limit (suc r) keys [] late h =
    let z : ltb (suc r) 0 ≡ false = ground arith in rw (append-nil keys, z) refl
collect-snapshot limit (suc r) keys (e ∷ es) late h =
    let m = build_key_meta e in
    let room : leb limit (length keys) ≡ false = ground (arith, h) in
    let l = length-append keys (m ∷ []) in
    let ih = collect-snapshot limit r (keys ++ m ∷ []) es late (omega (arith, h, l)) in
    let a = append_assoc keys (m ∷ []) (take r (map build_key_meta es)) in
    let b : ltb (suc r) (suc (length es)) ≡ ltb r (length es) = ground arith in
    rw (room, ih, b) (ap (λ x. (x, ltb r (length es))) a)

-- When the watcher delivers a snapshot and then the sentinel, with no error: the list is the
-- snapshot's first entries, as many as the limit allows, in their order and with their number, and it is
-- marked as truncated exactly if the snapshot has more entries than the limit. Updates after the
-- sentinel change nothing.
pub list_keys_lem :
    (limit : ℕ) (es : List KvEntry) (late : List (Option KvEntry))
    → list_keys limit call_ok none (answered (snapshot es late)) none ≡ record {
      result = call_ok;
      keys = take limit (map build_key_meta es);
      total = min limit (length es);
      truncated = ltb limit (length es);
    }
unfolding list_keys watched listed list_checked
list_keys_lem limit es late =
    let c = collect-snapshot limit limit [] es late (omega arith) in
    let n = length-take limit (map build_key_meta es) in
    let m = length-map es build_key_meta in rw (c, n, m) refl
