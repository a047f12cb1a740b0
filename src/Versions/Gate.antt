-- ===== src/Versions/Gate.antt =====
-- `ServerAtLeast` beside `CompareVersions`.
use nats_desktop.Base.{
  Bool, List, [], arith, false, if◌then◌else◌, not, refl, some, true, ℕ, ◌&&◌, ◌||◌, ◌∙◌, ◌∷◌, ◌≡◌,
}
use nats_desktop.Base.Int.{ltb_ℤ, ℤ}
use nats_desktop.Versions.{
  Sign, compare_segments, greater, less, meets, pick, same, same_ℤ, server_at_least,
  version_components,
}
use nats_desktop.Versions.Order.{
  Below, is_above, is_below, is_same, pick-above, pick-Below, pick-same, three,
}

abbrev pub not_less : Sign → Bool
not_less less = false
not_less same = true
not_less greater = true

ltb-Below : (a b : ℤ) → Below a b → ltb_ℤ a b ≡ true
unfolding Below
ltb-Below a b h = ground arith

ltb-above : (a b : ℤ) → Below b a → ltb_ℤ a b ≡ false
unfolding Below
ltb-above a b h = ground arith

ltb_self : (a : ℤ) → ltb_ℤ a a ≡ false
ltb_self a = ground arith

first_same :
    (a m : ℤ) (rest : Bool) (r : Sign)
    → a ≡ m
    → rest ≡ not (not_less r)
    → ltb_ℤ a m || same_ℤ a m && rest ≡ not (not_less (pick a m r))
unfolding same_ℤ
first_same a m rest r e h = rw e (simp (ltb_self m, pick-same m r) h)

-- One component, before the decision on the rest.
first :
    (a m : ℤ) (rest : Bool) (r : Sign)
    → rest ≡ not (not_less r)
    → ltb_ℤ a m || same_ℤ a m && rest ≡ not (not_less (pick a m r))
unfolding same_ℤ
first a m rest r h = elim (three a m) [
  | is_below e ↦ simp (ltb-Below a m e, pick-Below a m r e) refl
  | is_above e ↦ simp (ltb-above a m e, ltb-Below m a e, pick-above a m r e) refl
  | is_same e ↦ first_same a m rest r e h
]

gather : (x y u v w : Bool) → x || y && u || y && v && w ≡ x || y && (u || v && w)
gather true y u v w = refl
gather false true u v w = refl
gather false false u v w = refl

last_one : (c p : ℤ) → ltb_ℤ c p ≡ not (not_less (pick c p same))
last_one c p = elim (three c p) [
  | is_below e ↦ simp (ltb-Below c p e, pick-Below c p same e) refl
  | is_above e ↦ simp (ltb-above c p e, pick-above c p same e) refl
  | is_same e ↦ rw e (simp (ltb_self p, pick-same p same) refl)
]

decided : (x y : Bool) → x ≡ not y → (if x then some false else some true) ≡ some y
decided x true h = rw h refl
decided x false h = rw h refl

meets-agrees :
    (a b c major minor patch : ℤ)
    → meets (some (a, b, c)) major minor patch
      ≡ some (not_less (compare_segments (a ∷ b ∷ c ∷ []) (major ∷ minor ∷ patch ∷ [])))
unfolding meets compare_segments
meets-agrees a b c major minor patch =
    let s = pick c patch same in
    let r = pick b minor s in
    let l = last_one c patch in
    let m = first b minor (ltb_ℤ c patch) s l in
    let f = first a major (ltb_ℤ b minor || same_ℤ b minor && ltb_ℤ c patch) r m in
    decided _ (not_less (pick a major r))
      (gather (ltb_ℤ a major) (same_ℤ a major) (ltb_ℤ b minor) (same_ℤ b minor) (ltb_ℤ c patch) ∙ f)

-- `ServerAtLeast` answers as the comparison of `CompareVersions` does on three numbers: if the
-- server's version has three components, it meets the minimum exactly if it does not compare as less.
pub server_at_least-agrees :
    (version : List ℕ) (a b c major minor patch : ℤ)
    → version_components version ≡ some (a, b, c)
    → server_at_least version major minor patch
      ≡ some (not_less (compare_segments (a ∷ b ∷ c ∷ []) (major ∷ minor ∷ patch ∷ [])))
unfolding server_at_least
server_at_least-agrees version a b c major minor patch h =
    rw h (meets-agrees a b c major minor patch)
