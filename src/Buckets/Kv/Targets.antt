-- ===== src/Buckets/Kv/Targets.antt =====
-- The revision that `RevertKey` of desktop/internal/buckets/kv.go goes back to, described on the
-- history in its own order.

use mathlib.Core.List.{reverse, reverse-append, reverse-cons}
use nats_desktop.Base.{
  Bool-cases, List, Option, [], false, if◌then◌else◌, inl, inr, none, refl, some, ◌++◌, ◌∷◌, ◌≡◌,
}
use nats_desktop.Buckets.Kv.{
  KvEntry, first_valid, from_latest, is_marker, revert_target, second_valid,
}

abbrev pub or_else : Option KvEntry → Option KvEntry → Option KvEntry
or_else (some e) o = some e
or_else none o = o

-- The last entry of a history that is not a marker.
unfoldable pub last_valid : List KvEntry → Option KvEntry
last_valid [] = none
last_valid (e ∷ es) = or_else (last_valid es) (if is_marker e then none else some e)

first_valid-append :
    (xs ys : List KvEntry) → first_valid (xs ++ ys) ≡ or_else (first_valid xs) (first_valid ys)
unfolding first_valid
first_valid-append [] ys = refl
first_valid-append (e ∷ xs) ys = elim (Bool-cases (is_marker e)) [
  | inl m ↦ simp m (first_valid-append xs ys)
  | inr m ↦ simp m refl
]

first_valid-reverse : (es : List KvEntry) → first_valid (reverse es) ≡ last_valid es
unfolding last_valid first_valid
first_valid-reverse [] = refl
first_valid-reverse (e ∷ es) =
    rw (reverse-cons e es, first_valid-append (reverse es) (e ∷ []), first_valid-reverse es) refl

-- After one valid entry the search of a live key is that of a deleted one.
second_valid-first_valid : (es : List KvEntry) → second_valid 1 es ≡ first_valid es
unfolding second_valid first_valid
second_valid-first_valid [] = refl
second_valid-first_valid (e ∷ es) = elim (Bool-cases (is_marker e)) [
  | inl m ↦ simp m (second_valid-first_valid es)
  | inr m ↦ simp m refl
]

-- The target of a revert is the last valid entry before the latest one, whether the latest one is a
-- marker or a value, and there is none if no entry before the latest is valid.
pub revert_target_lem :
    (es : List KvEntry) (e : KvEntry) → revert_target (es ++ e ∷ []) ≡ last_valid es
unfolding revert_target from_latest second_valid first_valid
revert_target_lem es e =
    let r = reverse-append es (e ∷ []) in
    let f = first_valid-reverse es in
    elim (Bool-cases (is_marker e)) [
      | inl m ↦ rw r (simp m f)
      | inr m ↦ rw r (simp (m, second_valid-first_valid (reverse es)) f)
    ]

pub last_valid-append :
    (es : List KvEntry) (e : KvEntry) → is_marker e ≡ false → last_valid (es ++ e ∷ []) ≡ some e
unfolding last_valid
last_valid-append [] e h = simp h refl
last_valid-append (x ∷ es) e h = simp (last_valid-append es e h) refl
