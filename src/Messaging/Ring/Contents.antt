-- ===== src/Messaging/Ring/Contents.antt =====
-- What a ring holds: the list of its messages, oldest first, and what `add` and `snapshot` do to it.
use nats_desktop.Base.{
  Bool-cases, List, [], ap, ap₂, arith, drop, drop_all, get_elem?, get_elem?-set_ne,
  get_elem?-set_self, get_or-some, if◌then◌else◌, inl, inr, length, length-append, length-drop,
  length-set, ltb, mod-add-mod, mod-eq_of_lt, mod-lt, refl, set, some, subst, suc, sym, zero, ℕ,
  ◌%◌, ◌++◌, ◌+◌, ◌-◌, ◌<◌, ◌==◌, ◌∙◌, ◌∷◌, ◌≡◌, ◌≢◌, ◌≤◌,
}
use native.Mathlib.Nat.{add-zero}
use nats_desktop.Base.Modulo.{mod-ne, suc_mod, wrap_mod}
use nats_desktop.Messaging.Ring.{Ring, add, gather, snapshot}

newest_index : (head size n len : ℕ) → size ≡ len → n ≤ len → head + (len - n) ≡ head + size - n + 0
newest_index head size n len e le = omega arith

module _ {ℓ} {A : Type ℓ} where
  -- The slots from index `i` on, modulo `c`, hold `xs`.
  abbrev pub Holds : List A → ℕ → ℕ → List A → Type ℓ
  Holds buf c i [] = Unit
  Holds buf c i (x ∷ xs) = (get_elem? buf (i % c) ≡ some x) × Holds buf c (suc i) xs

  -- `xs` is what the ring holds, oldest first.
  pub record Contains (r : Ring A) (xs : List A) : Type ℓ where
    pub sized : r.size ≡ length xs
    pub fits : length xs ≤ length r.buf
    pub head_lt : length r.buf ≢ 0 → r.head < length r.buf
    pub slots : Holds r.buf (length r.buf) r.head xs

module _ {ℓ} {A : Type ℓ} (buf : List A) (c : ℕ) where
  Holds-cong : (i j : ℕ) (xs : List A) → i % c ≡ j % c → Holds buf c i xs → Holds buf c j xs
  Holds-cong i j [] e h = tt
  Holds-cong i j (x ∷ xs) e h =
      (rw (sym e) h.0, Holds-cong (suc i) (suc j) xs (suc_mod i j c e) h.1)

  Holds-drop : (k i : ℕ) (xs : List A) → Holds buf c i xs → Holds buf c (i + k) (drop k xs)
  Holds-drop zero i xs h = subst (λ k. Holds buf c k xs) (sym (add-zero i)) h
  Holds-drop (suc k) i [] h = tt
  Holds-drop (suc k) i (x ∷ xs) h =
      subst (λ t. Holds buf c t (drop k xs)) (omega arith) (Holds-drop k (suc i) xs h.1)

  Holds-snoc :
      (i : ℕ) (xs : List A) (m : A)
      → Holds buf c i xs
      → get_elem? buf ((i + length xs) % c) ≡ some m
      → Holds buf c i (xs ++ m ∷ [])
  Holds-snoc i [] m h e = (subst (λ t. get_elem? buf (t % c) ≡ some m) (add-zero i) e, tt)
  Holds-snoc i (x ∷ xs) m h e = (
    h.0,
    Holds-snoc (suc i) xs m h.1 (subst (λ t. get_elem? buf (t % c) ≡ some m) (omega arith) e),
  )

  Holds-set :
      (i j : ℕ) (xs : List A) (m : A)
      → i + length xs ≤ j
      → j < i + c
      → Holds buf c i xs
      → Holds (set buf (j % c) m) c i xs
  Holds-set i j [] m l u h = tt
  Holds-set i j (x ∷ xs) m l u h = (
    get_elem?-set_ne buf m (mod-ne i j c (omega arith) u) ∙ h.0,
    Holds-set (suc i) j xs m (omega arith) (omega arith) h.1,
  )

  gather-Holds :
      (z : A) (start i n : ℕ) (xs : List A)
      → n ≡ length xs
      → c ≡ length buf
      → Holds buf c (start + i) xs
      → gather z buf start i n ≡ xs
  unfolding gather
  gather-Holds z start i zero [] e l h = refl
  gather-Holds z start i (suc n) [] e l h = absurd (omega arith)
  gather-Holds z start i zero (x ∷ xs) e l h = absurd (omega arith)
  gather-Holds z start i (suc n) (x ∷ xs) e l h = ap₂ ◌∷◌ (rw (← l) (get_or-some buf _ z h.0)) (
      gather-Holds z start (suc i) n xs (omega arith) l
        (subst (λ t. Holds buf c t xs) (omega arith) h.1))

module _ {ℓ} {A : Type ℓ} where
  -- The list that a ring of capacity `c` holds after one more message.
  abbrev pub push_newest : ℕ → A → List A → List A
  push_newest c m xs = drop (length xs + 1 - c) (xs ++ m ∷ [])

  push_newest-room :
      (c : ℕ) (m : A) (xs : List A) → length xs < c → push_newest c m xs ≡ xs ++ m ∷ []
  push_newest-room c m xs h = let e : length xs + 1 - c ≡ 0 = omega arith in rw e

  push_newest-full :
      (c : ℕ) (m x : A) (xs : List A)
      → length (x ∷ xs) ≡ c
      → push_newest c m (x ∷ xs) ≡ xs ++ m ∷ []
  push_newest-full c m x xs h = let e : suc (length xs) + 1 - c ≡ 1 = omega arith in rw e

  push_newest-none : (m : A) → push_newest 0 m [] ≡ []
  push_newest-none m = refl

  -- A message that finds room goes to the slot behind the newest.
  room-Contains :
      (m : A) (r : Ring A) (xs : List A)
      → length xs < length r.buf
      → Contains r xs
      → Contains
          (record r { buf = set r.buf ((r.head + r.size) % length r.buf) m; size = r.size + 1 })
          (xs ++ m ∷ [])
  room-Contains m r xs l h =
      let at = (r.head + r.size) % length r.buf in
      let same : length (set r.buf at m) ≡ length r.buf = length-set r.buf at m in
      record {
        sized = omega (arith, h.sized, length-append xs (m ∷ []));
        fits = omega (arith, length-append xs (m ∷ []), same);
        head_lt = λ ne. omega (arith, same, h.head_lt (omega arith));
        slots = rw same (
            Holds-snoc (set r.buf at m) (length r.buf) r.head xs m
              (Holds-set r.buf (length r.buf) r.head (r.head + r.size) xs m (omega (arith, h.sized))
                (omega (arith, h.sized)) h.slots)
              (rw (← h.sized)
                (get_elem?-set_self r.buf at m (mod-lt (r.head + r.size) (omega arith)))));
      }

  -- A message that finds the ring full takes the slot of the oldest.
  full-Contains :
      (m x : A) (r : Ring A) (xs : List A)
      → length (x ∷ xs) ≡ length r.buf
      → Contains r (x ∷ xs)
      → Contains
          (record r {
            buf = set r.buf r.head m;
            head = (r.head + 1) % length r.buf;
            dropped = r.dropped + 1;
          })
          (xs ++ m ∷ [])
  full-Contains m x r xs l h =
      let c = length r.buf in
      let same : length (set r.buf r.head m) ≡ c = length-set r.buf r.head m in
      let lt : r.head < c = h.head_lt (omega arith) in
      let back : (r.head + c) % c ≡ r.head = wrap_mod r.head c ∙ mod-eq_of_lt lt in
      record {
        sized = omega (arith, h.sized, length-append xs (m ∷ []));
        fits = omega (arith, length-append xs (m ∷ []), same);
        head_lt = λ ne. rw same (mod-lt (r.head + 1) (omega arith));
        slots = rw same (
            Holds-cong (set r.buf r.head m) c (suc r.head) ((r.head + 1) % c) (xs ++ m ∷ [])
              (ap (λ (k : ℕ). k % c) {x = suc r.head} (omega arith)
                ∙ sym (mod-eq_of_lt (mod-lt (r.head + 1) (omega arith))))
              (Holds-snoc (set r.buf r.head m) c (suc r.head) xs m
                (subst (λ k. Holds (set r.buf k m) c (suc r.head) xs) back
                  (Holds-set r.buf c (suc r.head) (r.head + c) xs m (omega arith) (omega arith)
                    h.slots.1))
                (subst (λ k. get_elem? (set r.buf r.head m) k ≡ some m)
                  ((sym back) ∙ ap (λ (k : ℕ). k % c) {x = r.head + c} (omega arith))
                  (get_elem?-set_self r.buf r.head m lt))));
      }

  add_full-Contains :
      (m : A) (r : Ring A) (xs : List A)
      → length r.buf ≢ 0
      → length r.buf ≤ length xs
      → Contains r xs
      → Contains
          (record r {
            buf = set r.buf r.head m;
            head = (r.head + 1) % length r.buf;
            dropped = r.dropped + 1;
          })
          (push_newest (length r.buf) m xs)
  add_full-Contains m r [] ne l h = absurd (omega arith)
  add_full-Contains m r (x ∷ xs) ne l h =
      let e : length (x ∷ xs) ≡ length r.buf = omega (arith, h.fits) in
      subst (Contains _) (sym (push_newest-full (length r.buf) m x xs e))
        (full-Contains m x r xs e h)

  add_none-Contains :
      (m : A) (r : Ring A) (xs : List A)
      → length r.buf ≡ 0
      → Contains r xs
      → Contains (record r { dropped = r.dropped + 1 }) (push_newest (length r.buf) m xs)
  add_none-Contains m r [] e h =
      subst (λ k. Contains (record r { dropped = r.dropped + 1 }) (push_newest k m [])) (sym e)
        (record { sized = h.sized; fits = h.fits; head_lt = h.head_lt; slots = tt })
  add_none-Contains m r (x ∷ xs) e h = absurd (omega (arith, h.fits))

  -- `add` keeps the newest messages that fit, in order.
  pub add-Contains :
      (m : A) (r : Ring A) (xs : List A)
      → Contains r xs
      → Contains (add m r) (push_newest (length r.buf) m xs)
  unfolding add
  add-Contains m r xs h = elim (Bool-cases (length r.buf == 0)) [
    | inl e ↦ rw (e, add) (add_none-Contains m r xs (ground arith) h)
    | inr e ↦ elim (Bool-cases (ltb r.size (length r.buf))) [
      | inl l ↦
          let room : length xs < length r.buf = ground (arith, h.sized) in
          rw (e, l, add)
            (subst (Contains _) (sym (push_newest-room (length r.buf) m xs room))
              (room-Contains m r xs room h))
      | inr l ↦ rw (e, l, add) (add_full-Contains m r xs (ground arith) (ground (arith, h.sized)) h)
    ]
  ]

  pub dropped-add :
      (m : A) (r : Ring A) (xs : List A)
      → Contains r xs
      → (add m r).dropped + length r.buf + length (push_newest (length r.buf) m xs)
        ≡ r.dropped + length r.buf + length xs + 1
  unfolding add
  dropped-add m r xs h = ground (
    arith,
    h.sized,
    h.fits,
    length-drop (length xs + 1 - length r.buf) (xs ++ m ∷ []),
    length-append xs (m ∷ []),
  )

  pub capacity-add : (m : A) (r : Ring A) → length (add m r).buf ≡ length r.buf
  unfolding add
  capacity-add m r =
      ground
        (arith, length-set r.buf ((r.head + r.size) % length r.buf) m, length-set r.buf r.head m)

  newest-Contains :
      (z : A) (n : ℕ) (r : Ring A) (xs : List A)
      → n ≤ length xs
      → n ≢ 0
      → Contains r xs
      → gather z r.buf ((r.head + r.size - n) % length r.buf) 0 n ≡ drop (length xs - n) xs
  newest-Contains z n r xs le ne h =
      let c = length r.buf in
      let at : r.head + r.size - n ≡ r.head + (length xs - n) = omega (arith, h.sized) in
      gather-Holds r.buf c z ((r.head + r.size - n) % c) 0 n (drop (length xs - n) xs)
        (omega (arith, length-drop (length xs - n) xs)) refl
        (Holds-cong r.buf c (r.head + (length xs - n)) ((r.head + r.size - n) % c + 0)
          (drop (length xs - n) xs)
          (ap (λ (k : ℕ). k % c) (newest_index r.head r.size n (length xs) h.sized le)
            ∙ sym (mod-add-mod (r.head + r.size - n) c 0))
          (Holds-drop r.buf c (length xs - n) r.head xs h.slots))

  -- `snapshot n` is the newest `n` messages that the ring holds, oldest first; all of them if it
  -- holds fewer.
  pub snapshot-Contains :
      (z : A) (n : ℕ) (r : Ring A) (xs : List A)
      → Contains r xs
      → snapshot z n r ≡ drop (length xs - n) xs
  unfolding snapshot
  snapshot-Contains z n r xs h =
      let n' = if ltb r.size n then r.size else n in
      let cut : length xs - n ≡ length xs - n' = ground (arith, h.sized) in
      let le : n' ≤ length xs = ground (arith, h.sized) in
      elim (Bool-cases (n' == 0)) [
        | inl e ↦ rw (e, snapshot) (sym (drop_all (length xs - n) xs (ground arith)))
        | inr e ↦ rw (e, snapshot, cut) (newest-Contains z n' r xs le (ground arith) h)
      ]
