-- ===== src/Buckets/Kv/Documented.antt =====
-- What desktop/internal/buckets/kv.go relies on when the client library and the server are
-- reachable: how the calls read and extend the history of one key. A law, not part of the source.

use mathlib.Core.Option.{some-injective}
use nats_desktop.Base.{
  Bool, List, Option, [], ap, arith, drop, drop-append, false, if◌then◌else◌, length, length-append,
  none, refl, some, subst, true, ℕ, ◌++◌, ◌+◌, ◌-◌, ◌∙◌, ◌∷◌, ◌≡◌, ◌≢◌, ◌≤◌,
}
use nats_desktop.Buckets.Kv.{
  KvClient, KvEntry, answered, delete_op, failed, is_marker, purge_op, put_op,
}
use nats_desktop.Buckets.Checks.{js}
use nats_desktop.Buckets.Errors.{KvFailure, call_ok}

-- A bucket keeps so many of the last revisions of a key.
abbrev pub kept : ℕ → List KvEntry → List KvEntry
kept n es = drop (length es - n) es

abbrev pub latest : List KvEntry → Option KvEntry
latest [] = none
latest (e ∷ es) = elim (latest es) [ none ↦ some e | some l ↦ some l ]

-- The value that a history ends in, if it does not end in a marker.
abbrev live_value : Option KvEntry → Option (List ℕ)
live_value none = none
live_value (some e) = if is_marker e then none else some e.value

unfoldable pub current : List KvEntry → Option (List ℕ)
unfolding is_marker
current es = live_value (latest es)

abbrev revision_after : Option KvEntry → ℕ
revision_after none = 0
revision_after (some e) = e.revision

unfoldable pub last_revision : List KvEntry → ℕ
last_revision es = revision_after (latest es)

pub record Documented (c : KvClient) (bucket key : List ℕ) : Type 1 where
  pub depth : ℕ
  pub Online : c.Store → Type 0
  pub entries : c.Store → List KvEntry
  pub opens :
      (s : c.Store)
      → Online s
      → (js (c.connected s) (c.js_params s) (c.built s) ≡ call_ok) × (c.open_bucket bucket s ≡ none)
  pub puts :
      (v : List ℕ) (s : c.Store)
      → Online s
      → (e : KvEntry) × ((c.put bucket key v s).1 ≡ answered e.revision)
        × Online (c.put bucket key v s).0
        × (entries (c.put bucket key v s).0 ≡ kept depth (entries s ++ e ∷ []))
        × (e.value ≡ v)
        × (e.operation ≡ put_op)
  pub deletes :
      (s : c.Store)
      → Online s
      → (e : KvEntry) × ((c.delete bucket key s).1 ≡ none)
        × Online (c.delete bucket key s).0
        × (entries (c.delete bucket key s).0 ≡ kept depth (entries s ++ e ∷ []))
        × (e.operation ≡ delete_op)
  pub purges :
      (s : c.Store)
      → Online s
      → (e : KvEntry) × ((c.purge bucket key s).1 ≡ none)
        × Online (c.purge bucket key s).0
        × (entries (c.purge bucket key s).0 ≡ e ∷ [])
        × (e.operation ≡ purge_op)
  -- The revisions of a key that has any.
  pub histories :
      (s : c.Store) (es : List KvEntry) (e : KvEntry)
      → Online s
      → entries s ≡ es ++ e ∷ []
      → c.history bucket key s ≡ answered (es ++ e ∷ [])
  pub gets :
      (s : c.Store) (e : KvEntry)
      → Online s
      → latest (entries s) ≡ some e
      → is_marker e ≡ false
      → c.get bucket key s ≡ answered e
  pub updates :
      (v : List ℕ) (s : c.Store)
      → Online s
      → (e : KvEntry) × ((c.update bucket key v (last_revision (entries s)) s).1
          ≡ answered e.revision)
        × Online (c.update bucket key v (last_revision (entries s)) s).0
        × (entries (c.update bucket key v (last_revision (entries s)) s).0
            ≡ kept depth (entries s ++ e ∷ []))
        × (e.value ≡ v)
        × (e.operation ≡ put_op)
  pub mismatches :
      (v : List ℕ) (r : ℕ) (s : c.Store)
      → Online s
      → r ≢ last_revision (entries s)
      → (f : KvFailure) × (c.update bucket key v r s ≡ (s, failed f))
        × (f.key_revision_mismatch ≡ true)

-- Two more entries, of which a bucket of depth two or more keeps both.
pub kept_two :
    (n : ℕ) (es : List KvEntry) (a b : KvEntry)
    → 2 ≤ n
    → kept n ((es ++ a ∷ []) ++ b ∷ []) ≡ (drop (length es + 2 - n) es ++ a ∷ []) ++ b ∷ []
kept_two n es a b h =
    let l = length-append es (a ∷ []) in
    let k = length-append (es ++ a ∷ []) (b ∷ []) in
    let d : length ((es ++ a ∷ []) ++ b ∷ []) - n ≡ length es + 2 - n = omega arith in
    let p = drop-append (length es + 2 - n) (es ++ a ∷ []) (b ∷ []) (omega arith) in
    let q = drop-append (length es + 2 - n) es (a ∷ []) (omega arith) in rw (d, p, q) refl

pub latest-append : (es : List KvEntry) (e : KvEntry) → latest (es ++ e ∷ []) ≡ some e
latest-append [] e = refl
latest-append (x ∷ es) e = rw (latest-append es e) refl

-- A history that is not empty ends in an entry.
split_last :
    (x : KvEntry) (es : List KvEntry)
    → (xs : List KvEntry) × (e : KvEntry) × (x ∷ es ≡ xs ++ e ∷ [])
split_last x [] = ([], x, refl)
split_last x (y ∷ es) = let (xs, e, h) = split_last y es in (x ∷ xs, e, rw h refl)

live_parts :
    (b : Bool) (w v : List ℕ) → (if b then none else some w) ≡ some v → (b ≡ false) × (w ≡ v)
live_parts true w v h = cc
live_parts false w v h = (refl, some-injective w v h)

-- A history that ends in a value has entries before it, and that last entry.
pub current-some :
    (es : List KvEntry) (v : List ℕ)
    → current es ≡ some v
    → (xs : List KvEntry) × (e : KvEntry) × (es ≡ xs ++ e ∷ [])
      × (is_marker e ≡ false)
      × (e.value ≡ v)
unfolding current
current-some [] v h = cc
current-some (x ∷ es) v h =
    let (xs, e, eq) = split_last x es in
    let l : latest (x ∷ es) ≡ some e = ap latest eq ∙ latest-append xs e in
    let (m, w) = live_parts (is_marker e) e.value v (subst (λ o. live_value o ≡ some v) l h) in
    (xs, e, eq, m, w)

pub current-append :
    (es : List KvEntry) (e : KvEntry) → is_marker e ≡ false → current (es ++ e ∷ []) ≡ some e.value
unfolding current
current-append es e m = rw (latest-append es e) (simp m refl)
