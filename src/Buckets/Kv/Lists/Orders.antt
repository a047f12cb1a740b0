-- ===== src/Buckets/Kv/Lists/Orders.antt =====
-- The values of `GetKeyValues` of desktop/internal/buckets/kv.go, whatever the order in which its
-- workers end.

use mathlib.Core.Option.{some-injective}
use nats_desktop.Base.{
  Bool, List, [], ap, arith, false, get_elem?, get_elem?-set_ne, get_elem?-set_self, get_or, inl,
  inr, length, length-replicate, length-set, none, refl, replicate, set, some, subst, suc, sym,
  true, ℕ, ℕ_discrete, ◌+◌, ◌<◌, ◌==◌, ◌||◌, ◌∙◌, ◌∷◌, ◌≡◌, ◌⊎◌,
}
use nats_desktop.Buckets.Errors.{call_ok}
use nats_desktop.Buckets.Kv.{Answer, KvEntry, answered, failed}
use nats_desktop.Buckets.Kv.Lists.{
  Batch, KeyValueOut, batch_answer, encode_value, get_key_values, missing, no_value, settle,
  settle_all, values_checked,
}

-- Whether an index occurs in an order.
abbrev pub occurs : ℕ → List ℕ → Bool
occurs i [] = false
occurs i (j ∷ l) = i == j || occurs i l

-- An answer that does not fail the batch: an entry, or that the key is not there.
abbrev pub is_fine : Answer KvEntry → Bool
is_fine (answered e) = true
is_fine (failed f) = f.key_not_found

-- What the answer for a key comes to.
abbrev pub value_of : List ℕ → Answer KvEntry → KeyValueOut
value_of key (answered e) = encode_value e
value_of key (failed f) = missing key

-- The values in the order of the keys, from an index on.
abbrev pub values_from : (ℕ → Answer KvEntry) → ℕ → List (List ℕ) → List KeyValueOut
values_from get i [] = []
values_from get i (key ∷ keys) = value_of key (get i) ∷ values_from get (i + 1) keys

settle-fine :
    (i : ℕ) (key : List ℕ) (a : Answer KvEntry) (b : Batch)
    → is_fine a ≡ true
    → settle i key a b ≡ record b { out = set b.out i (value_of key a) }
unfolding settle
settle-fine i key (answered e) b h = refl
settle-fine i key (failed f) b h = simp h refl

-- Indices below a bound.
abbrev pub Within : ℕ → List ℕ → Type 0
Within n [] = Unit
Within n (i ∷ l) = (i < n) × Within n l

-- The writes alone.
writes : (ℕ → KeyValueOut) → List ℕ → List KeyValueOut → List KeyValueOut
writes v [] out = out
writes v (i ∷ order) out = writes v order (set out i (v i))

length-writes :
    (v : ℕ → KeyValueOut) (order : List ℕ) (out : List KeyValueOut)
    → length (writes v order out) ≡ length out
unfolding writes
length-writes v [] out = refl
length-writes v (i ∷ order) out = length-writes v order (set out i (v i)) ∙ length-set out i (v i)

-- A result that stands at its index, or whose worker is still to end, stands there at the end.
writes-get_elem? :
    (v : ℕ → KeyValueOut) (order : List ℕ) (out : List KeyValueOut) (j : ℕ)
    → j < length out
    → (occurs j order ≡ true) ⊎ (get_elem? out j ≡ some (v j))
    → get_elem? (writes v order out) j ≡ some (v j)
unfolding writes
writes-get_elem? v [] out j l (inl h) = cc
writes-get_elem? v [] out j l (inr h) = h
writes-get_elem? v (i ∷ order) out j l h =
    let n : j < length (set out i (v i)) = rw (length-set out i (v i)) l in
    elim (ℕ_discrete i j) [
      | yes e ↦
          let w = get_elem?-set_self out j (v j) l in
          writes-get_elem? v order (set out i (v i)) j n (inr (rw e w))
      | no e ↦ writes-get_elem? v order (set out i (v i)) j n (elim h [
        | inl o ↦ inl (ground (arith, o, e))
        | inr w ↦ inr (get_elem?-set_ne out (v i) e ∙ w)
      ])
    ]

same_items :
    (xs ys : List KeyValueOut)
    → length xs ≡ length ys
    → ((j : ℕ) → j < length ys → get_elem? xs j ≡ get_elem? ys j)
    → xs ≡ ys
same_items [] [] l h = refl
same_items [] (y ∷ ys) l h = absurd (omega (arith, l))
same_items (x ∷ xs) [] l h = absurd (omega (arith, l))
same_items (x ∷ xs) (y ∷ ys) l h =
    let e : x ≡ y = some-injective x y (h 0 (omega arith)) in
    rw (e, same_items xs ys (omega (arith, l)) (λ j n. h (suc j) (omega (arith, n)))) refl

length-values_from :
    (get : ℕ → Answer KvEntry) (i : ℕ) (keys : List (List ℕ))
    → length (values_from get i keys) ≡ length keys
length-values_from get i [] = refl
length-values_from get i (key ∷ keys) = ap suc (length-values_from get (i + 1) keys)

values_from-get_elem? :
    (get : ℕ → Answer KvEntry) (i : ℕ) (keys : List (List ℕ)) (j : ℕ)
    → j < length keys
    → get_elem? (values_from get i keys) j ≡ some (value_of (get_or keys j []) (get (i + j)))
values_from-get_elem? get i [] j h = absurd (omega arith)
values_from-get_elem? get i (key ∷ keys) ℕ.zero h = let e : i + 0 ≡ i = omega arith in rw e refl
values_from-get_elem? get i (key ∷ keys) (suc j) h =
    let e : i + suc j ≡ i + 1 + j = omega arith in
    rw e (values_from-get_elem? get (i + 1) keys j (omega arith))

values-get_elem? :
    (get : ℕ → Answer KvEntry) (keys : List (List ℕ)) (j : ℕ)
    → j < length keys
    → get_elem? (values_from get 0 keys) j ≡ some (value_of (get_or keys j []) (get j))
values-get_elem? get keys j h =
    let z : 0 + j ≡ j = omega arith in
    subst (λ x. get_elem? (values_from get 0 keys) j ≡ some (value_of (get_or keys j []) (get x))) z
      (values_from-get_elem? get 0 keys j h)

module _ (keys : List (List ℕ)) (get : ℕ → Answer KvEntry)
    (fine : (i : ℕ) → i < length keys → is_fine (get i) ≡ true) where
  value_at : ℕ → KeyValueOut
  value_at i = value_of (get_or keys i []) (get i)

  settle_all-writes :
      (order : List ℕ) (b : Batch)
      → Within (length keys) order
      → settle_all keys get order b ≡ record b { out = writes value_at order b.out }
  unfolding settle_all value_at writes
  settle_all-writes [] b r = refl
  settle_all-writes (i ∷ order) b (l, r) =
      let e = settle-fine i (get_or keys i []) (get i) b (fine i l) in
      rw e (settle_all-writes order (record b { out = set b.out i (value_at i) }) r)

  -- When the answer for each key is an entry or that the key is not there, and the worker of each key
  -- comes to its end: whatever the order of the workers, the call succeeds, and its values are those of
  -- the keys, in the order of the keys.
  pub get_key_values_lem :
      (order : List ℕ)
      → Within (length keys) order
      → ((j : ℕ) → j < length keys → occurs j order ≡ true)
      → get_key_values call_ok none keys get order
        ≡ record { result = call_ok; values = values_from get 0 keys }
  unfolding get_key_values values_checked batch_answer value_at
  get_key_values_lem order r all =
      let out = replicate (length keys) no_value in
      let e = settle_all-writes order (record { out = out; first_error = none }) r in
      let n = length-replicate (length keys) no_value in
      let l = length-writes value_at order out in
      let m = length-values_from get 0 keys in
      let same =
        same_items (writes value_at order out) (values_from get 0 keys) (omega arith) (λ j h.
          writes-get_elem? value_at order out j (omega arith) (inl (all j (omega arith)))
          ∙ sym (values-get_elem? get keys j (omega arith))) in
      rw (e, same) refl
