-- ===== src/Messaging/Ring/History.antt =====
-- A ring against the whole history of its messages.
use nats_desktop.Base.{
  List, [], append-nil, append_assoc, arith, drop, drop-append, drop-drop, drop_all, length,
  length-append, length-drop, length-replicate, min, refl, subst, sym, ℕ, ◌++◌, ◌+◌, ◌-◌, ◌∙◌, ◌∷◌,
  ◌≡◌,
}
use nats_desktop.Base.Int.{pos_part, ℤ}
use nats_desktop.Messaging.Ring.{Ring, add, new_ring, snapshot}
use nats_desktop.Messaging.Ring.Contents.{
  Contains, add-Contains, capacity-add, dropped-add, push_newest, snapshot-Contains,
}

module _ {ℓ} {A : Type ℓ} where
  -- The messages of a history that a ring of capacity `c` keeps: the newest `c`.
  abbrev pub newest : ℕ → List A → List A
  newest c ms = drop (length ms - c) ms

  pub add_all : List A → Ring A → Ring A
  add_all [] r = r
  add_all (m ∷ ms) r = add_all ms (add m r)

  pub length-newest : (c : ℕ) (ms : List A) → length (newest c ms) ≡ min (length ms) c
  length-newest c ms = omega (arith, length-drop (length ms - c) ms)

  pub push_newest-newest :
      (c : ℕ) (m : A) (past : List A) → push_newest c m (newest c past) ≡ newest c (past ++ m ∷ [])
  push_newest-newest c m past =
      let k = length past - c in
      let j = length (newest c past) + 1 - c in
      let e : k + j ≡ length (past ++ m ∷ []) - c =
        omega (arith, length-newest c past, length-append past (m ∷ [])) in
      rw (← drop-append k past (m ∷ []) (omega arith)) (drop-drop j k (past ++ m ∷ []) ∙ rw e)

  pub new_ring-Contains : (z : A) (capacity : ℤ) → Contains (new_ring z capacity) []
  unfolding new_ring
  new_ring-Contains z capacity = record {
    sized = refl;
    fits = omega arith;
    head_lt = λ ne. ground arith;
    slots = tt;
  }

  -- The account that a ring keeps of a history: its contents and its drop counter.
  pub record Accounts (c : ℕ) (past : List A) (r : Ring A) : Type ℓ where
    pub capacity : length r.buf ≡ c
    pub contents : Contains r (newest c past)
    pub dropped : r.dropped ≡ length past - c

  pub add-Accounts :
      (c : ℕ) (m : A) (past : List A) (r : Ring A)
      → Accounts c past r
      → Accounts c (past ++ m ∷ []) (add m r)
  add-Accounts c m past r h = record {
    capacity = capacity-add m r ∙ h.capacity;
    contents = subst (Contains (add m r)) (push_newest-newest c m past) (
        subst (λ k. Contains (add m r) (push_newest k m (newest c past))) h.capacity
          (add-Contains m r (newest c past) h.contents));
    dropped = omega (
      arith,
      dropped-add m r (newest c past) h.contents,
      h.dropped,
      h.capacity,
      length-newest c past,
      length-append past (m ∷ []),
      length-drop (length (newest c past) + 1 - length r.buf) (newest c past ++ m ∷ []),
      length-append (newest c past) (m ∷ []),
    );
  }

  pub add_all-Accounts :
      (c : ℕ) (ms past : List A) (r : Ring A)
      → Accounts c past r
      → Accounts c (past ++ ms) (add_all ms r)
  unfolding add_all
  add_all-Accounts c [] past r h = subst (λ t. Accounts c t r) (sym (append-nil past)) h
  add_all-Accounts c (m ∷ ms) past r h =
      subst (λ t. Accounts c t (add_all ms (add m r))) (append_assoc past (m ∷ []) ms)
        (add_all-Accounts c ms (past ++ m ∷ []) (add m r) (add-Accounts c m past r h))

  pub new_ring-Accounts :
      (z : A) (capacity : ℤ) → Accounts (pos_part capacity) [] (new_ring z capacity)
  unfolding new_ring
  new_ring-Accounts z capacity = record {
    capacity = length-replicate (pos_part capacity) z;
    contents =
        subst (Contains (new_ring z capacity))
          (sym (drop_all (0 - pos_part capacity) [] (omega arith))) (new_ring-Contains z capacity);
    dropped = omega arith;
  }

  -- Whatever the capacity, and whatever messages a new ring is given: it holds the newest messages
  -- that fit, counts every other one as dropped, and a snapshot is the newest `n` of those that it
  -- holds, oldest first.
  pub add_all-new_ring :
      (z : A) (capacity : ℤ) (ms : List A) (n : ℕ)
      → let c = pos_part capacity in
        let r = add_all ms (new_ring z capacity) in
        (snapshot z n r ≡ drop (length (newest c ms) - n) (newest c ms))
        × (r.size ≡ min (length ms) c)
        × (r.dropped ≡ length ms - c)
  add_all-new_ring z capacity ms n =
      let c = pos_part capacity in
      let a = add_all-Accounts c ms [] (new_ring z capacity) (new_ring-Accounts z capacity) in
      (
        snapshot-Contains z n (add_all ms (new_ring z capacity)) (newest c ms) a.contents,
        a.contents.sized ∙ length-newest c ms,
        a.dropped,
      )
