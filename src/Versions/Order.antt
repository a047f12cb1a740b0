-- ===== src/Versions/Order.antt =====
-- The comparison of versions, swapped and chained.
use nats_desktop.Base.{
  Bool-cases, List, [], ap, arith, inl, inr, length, refl, subst, suc, sym, ℕ, ◌+◌, ◌<◌, ◌∙◌, ◌∷◌,
  ◌≡◌, ◌≢◌, ◌≤◌, ◌⊎◌,
}
use nats_desktop.Base.Int.{ltb_ℤ, neg_part, negsuc, pos, pos_part, ℤ}
use nats_desktop.Versions.{
  Sign, compare_segments, compare_versions, greater, less, pick, same, split_segments,
}

abbrev pub opposite : Sign → Sign
opposite less = greater
opposite same = same
opposite greater = less

-- a < b
unfoldable pub Below : ℤ → ℤ → Type 0
Below a b = pos_part a + neg_part b < pos_part b + neg_part a

-- One of three.
pub data Three (a b : ℤ) : Type 0 where
  is_below : Below a b → Three a b
  is_above : Below b a → Three a b
  is_same : a ≡ b → Three a b

alike : (a b : ℤ) → pos_part a + neg_part b ≡ pos_part b + neg_part a → a ≡ b
alike (pos m) (pos n) h = ap pos (omega arith)
alike (pos m) (negsuc n) h = absurd (omega arith)
alike (negsuc m) (pos n) h = absurd (omega arith)
alike (negsuc m) (negsuc n) h = ap negsuc (omega arith)

pub three : (a b : ℤ) → Three a b
unfolding Below
three a b = elim (Bool-cases (ltb_ℤ a b)) [
  | inl e ↦ is_below (ground arith)
  | inr e ↦ elim (Bool-cases (ltb_ℤ b a)) [
    | inl f ↦ is_above (ground arith)
    | inr f ↦ is_same (alike a b (ground arith))
  ]
]

pub pick-Below : (a b : ℤ) (r : Sign) → Below a b → pick a b r ≡ less
unfolding pick Below
pick-Below a b r h = ground arith

pub pick-above : (a b : ℤ) (r : Sign) → Below b a → pick a b r ≡ greater
unfolding pick Below
pick-above a b r h = ground arith

pub pick-same : (a : ℤ) (r : Sign) → pick a a r ≡ r
unfolding pick
pick-same a r = ground arith

hd : List ℤ → ℤ
hd [] = pos 0
hd (a ∷ xs) = a

tl : List ℤ → List ℤ
tl [] = []
tl (a ∷ xs) = xs

compare-step :
    (xs ys : List ℤ)
    → compare_segments xs ys ≡ pick (hd xs) (hd ys) (compare_segments (tl xs) (tl ys))
unfolding compare_segments hd tl
compare-step [] [] = sym (pick-same (pos 0) same)
compare-step (a ∷ xs) [] = refl
compare-step [] (b ∷ ys) = refl
compare-step (a ∷ xs) (b ∷ ys) = refl

pick-twice : (a b : ℤ) (r s : Sign) → a ≡ b → s ≡ opposite r → pick b a s ≡ opposite (pick a b r)
pick-twice a b r s e h = rw (e, h, pick-same b r) (pick-same b (opposite r))

pick-opposite : (a b : ℤ) (r s : Sign) → s ≡ opposite r → pick b a s ≡ opposite (pick a b r)
pick-opposite a b r s h = elim (three a b) [
  | is_below e ↦ simp (pick-Below a b r e, pick-above b a s e) refl
  | is_above e ↦ simp (pick-above a b r e, pick-Below b a s e) refl
  | is_same e ↦ pick-twice a b r s e h
]

compare-opposite : (xs ys : List ℤ) → compare_segments ys xs ≡ opposite (compare_segments xs ys)
unfolding compare_segments
compare-opposite [] [] = refl
compare-opposite (a ∷ xs) [] =
    pick-opposite a (pos 0) (compare_segments xs []) (compare_segments [] xs)
      (compare-opposite xs [])
compare-opposite [] (b ∷ ys) =
    pick-opposite (pos 0) b (compare_segments [] ys) (compare_segments ys [])
      (compare-opposite [] ys)
compare-opposite (a ∷ xs) (b ∷ ys) =
    pick-opposite a b (compare_segments xs ys) (compare_segments ys xs) (compare-opposite xs ys)

pub same-pick : (a b : ℤ) (r : Sign) → a ≡ b → pick a b r ≡ r
same-pick a b r e = rw e (pick-same b r)

same-greater : (a b : ℤ) (r : Sign) → a ≡ b → r ≡ greater → pick a b r ≡ greater
same-greater a b r e q = same-pick a b r e ∙ q

less_trans : (a b c : ℤ) → Below a b → Below b c → Below a c
unfolding Below
less_trans a b c h k = omega arith

-- Not greater: below, or the same and the rest is not greater.
not_greater : (a b : ℤ) (r : Sign) → pick a b r ≢ greater → Below a b ⊎ ((a ≡ b) × (r ≢ greater))
not_greater a b r h = elim (three a b) [
  | is_below e ↦ inl e
  | is_above e ↦ absurd (h (pick-above a b r e))
  | is_same e ↦ inr (e, λ q. h (same-greater a b r e q))
]

less_not : (a b : ℤ) (r : Sign) → Below a b → pick a b r ≢ greater
less_not a b r h q = let e = pick-Below a b r h in cc

same_not : (a b : ℤ) (r : Sign) → a ≡ b → r ≢ greater → pick a b r ≢ greater
same_not a b r e h q = h (sym (same-pick a b r e) ∙ q)

pick_trans :
    (a b c : ℤ) (r s t : Sign)
    → pick a b r ≢ greater
    → pick b c s ≢ greater
    → (r ≢ greater → s ≢ greater → t ≢ greater)
    → pick a c t ≢ greater
pick_trans a b c r s t h k f = elim (not_greater a b r h) [
  | inl e ↦ elim (not_greater b c s k) [
    | inl g ↦ less_not a c t (less_trans a b c e g)
    | inr (g, q) ↦ less_not a c t (subst (λ (x : ℤ). Below a x) g e)
  ]
  | inr (e, p) ↦ elim (not_greater b c s k) [
    | inl g ↦ less_not a c t (subst (λ (x : ℤ). Below x c) (sym e) g)
    | inr (g, q) ↦ same_not a c t (e ∙ g) (f p q)
  ]
]

tl-length : (n : ℕ) (xs : List ℤ) → length xs ≤ suc n → length (tl xs) ≤ n
unfolding tl
tl-length n [] h = omega arith
tl-length n (a ∷ xs) h = omega arith

no_greater : (xs ys : List ℤ) → length xs ≤ 0 → length ys ≤ 0 → compare_segments xs ys ≢ greater
unfolding compare_segments
no_greater [] [] h k q = cc
no_greater (a ∷ xs) ys h k q = absurd (omega arith)
no_greater [] (b ∷ ys) h k q = absurd (omega arith)

compare_trans :
    (n : ℕ) (xs ys zs : List ℤ)
    → length xs ≤ n
    → length ys ≤ n
    → length zs ≤ n
    → compare_segments xs ys ≢ greater
    → compare_segments ys zs ≢ greater
    → compare_segments xs zs ≢ greater
compare_trans ℕ.zero xs ys zs a b c h k = no_greater xs zs a c
compare_trans (suc n) xs ys zs a b c h k =
    let go =
      compare_trans n (tl xs) (tl ys) (tl zs) (tl-length n xs a) (tl-length n ys b)
        (tl-length n zs c) in
    simp (compare-step xs zs) (
      pick_trans (hd xs) (hd ys) (hd zs) (compare_segments (tl xs) (tl ys))
        (compare_segments (tl ys) (tl zs)) (compare_segments (tl xs) (tl zs))
        (λ q. h (compare-step xs ys ∙ q)) (λ q. k (compare-step ys zs ∙ q)) go)

most : (m n k : ℕ) → (m ≤ m + n + k) × (n ≤ m + n + k) × (k ≤ m + n + k)
most m n k = (omega arith, omega arith, omega arith)

-- `CompareVersions` is a total preorder of all texts: if the first version is not greater than the
-- second and the second not greater than the third, then the first is not greater than the third;
-- and swapping the two versions turns the answer round.
pub compare_versions_trans :
    (a b c : List ℕ)
    → compare_versions a b ≢ greater
    → compare_versions b c ≢ greater
    → (compare_versions a c ≢ greater) × (compare_versions c a ≡ opposite (compare_versions a c))
unfolding compare_versions
compare_versions_trans a b c h k =
    let xs = split_segments a in
    let ys = split_segments b in
    let zs = split_segments c in
    let (p, q, r) = most (length xs) (length ys) (length zs) in
    (compare_trans (length xs + length ys + length zs) xs ys zs p q r h k, compare-opposite xs zs)
