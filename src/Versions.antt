-- ===== src/Versions.antt =====
-- Versions: `CompareVersions` of desktop/internal/version/version.go and `ServerAtLeast` of
-- desktop/internal/natsver/natsver.go. A text is the list of its code points.
pub mod Order
pub mod Gate
use nats_desktop.Base.{
  Bool, List, Option, [], false, if◌then◌else◌, leb, ltb, none, not, some, suc, true, zero, ℕ, ◌&&◌,
  ◌*◌, ◌+◌, ◌-◌, ◌==◌, ◌^◌, ◌||◌, ◌∷◌,
}
use nats_desktop.Base.Int.{ltb_ℤ, negsuc, pos, ℤ}
use nats_desktop.Base.Text.{is_space}

-- `strings.TrimSpace`.
drop_space : List ℕ → List ℕ
drop_space [] = []
drop_space (c ∷ cs) = let rest = drop_space cs in if is_space c then rest else c ∷ cs

backwards : List ℕ → List ℕ → List ℕ
backwards [] done = done
backwards (c ∷ cs) done = backwards cs (c ∷ done)

trim_space : List ℕ → List ℕ
unfolding drop_space backwards
trim_space s = backwards (drop_space (backwards (drop_space s) [])) []

-- `strings.TrimPrefix` of one character.
trim_prefix : ℕ → List ℕ → List ℕ
trim_prefix p [] = []
trim_prefix p (c ∷ cs) = if c == p then cs else c ∷ cs

onto_first : ℕ → List (List ℕ) → List (List ℕ)
onto_first c [] = (c ∷ []) ∷ []
onto_first c (s ∷ l) = (c ∷ s) ∷ l

-- `strings.Split(v, ".")`.
split_dots : List ℕ → List (List ℕ)
unfolding onto_first
split_dots [] = [] ∷ []
split_dots (c ∷ cs) = let rest = split_dots cs in if c == 46 then [] ∷ rest else onto_first c rest

is_digit : ℕ → Bool
is_digit c = leb 48 c && leb c 57

-- The number that decimal digits write, after a number before them.
digits_from : ℕ → List ℕ → Option ℕ
unfolding is_digit
digits_from n [] = some n
digits_from n (c ∷ cs) =
    let rest = digits_from (n * 10 + (c - 48)) cs in if is_digit c then rest else none

digits : List ℕ → Option ℕ
unfolding digits_from
digits [] = none
digits (c ∷ cs) = digits_from 0 (c ∷ cs)

-- In the range of an int64.
positive : Option ℕ → Option ℤ
positive none = none
positive (some n) = if ltb n (2 ^ 63) then some (pos n) else none

negative : Option ℕ → Option ℤ
negative none = none
negative (some ℕ.zero) = some (pos 0)
negative (some (suc n)) = if ltb n (2 ^ 63) then some (negsuc n) else none

-- `strconv.Atoi`.
unfoldable pub atoi : List ℕ → Option ℤ
unfolding digits positive negative
atoi [] = none
atoi (c ∷ cs) =
    if c == 45
    then negative (digits cs)
    else if c == 43
    then positive (digits cs)
    else positive (digits (c ∷ cs))

or_zero : Option ℤ → ℤ
or_zero none = pos 0
or_zero (some z) = z

numbers : List (List ℕ) → List ℤ
unfolding or_zero atoi
numbers [] = []
numbers (p ∷ l) = or_zero (atoi p) ∷ numbers l

parts : List ℕ → List ℤ
unfolding numbers split_dots
parts [] = []
parts (c ∷ cs) = numbers (split_dots (c ∷ cs))

unfoldable pub split_segments : List ℕ → List ℤ
unfolding parts trim_prefix trim_space
split_segments v = parts (trim_prefix 86 (trim_prefix 118 (trim_space v)))

pub data Sign : Type 0 where
  less same greater : Sign

unfoldable pub pick : ℤ → ℤ → Sign → Sign
pick a b rest = if ltb_ℤ a b then less else if ltb_ℤ b a then greater else rest

-- The loop, with 0 for a segment that is missing.
unfoldable pub compare_segments : List ℤ → List ℤ → Sign
unfolding pick
compare_segments [] [] = same
compare_segments (a ∷ xs) [] = pick a (pos 0) (compare_segments xs [])
compare_segments [] (b ∷ ys) = pick (pos 0) b (compare_segments [] ys)
compare_segments (a ∷ xs) (b ∷ ys) = pick a b (compare_segments xs ys)

unfoldable pub compare_versions : List ℕ → List ℕ → Sign
unfolding compare_segments split_segments
compare_versions a b = compare_segments (split_segments a) (split_segments b)

-- `semVerRe`: the digits at the start, and what follows.
span_digits : List ℕ → List ℕ × List ℕ
unfolding is_digit
span_digits [] = ([], [])
span_digits (c ∷ cs) =
    let (ds, rest) = span_digits cs in if is_digit c then (c ∷ ds, rest) else ([], c ∷ cs)

-- An optional group: absent is 0.
component : List ℕ → Option ℤ
unfolding atoi
component [] = some (pos 0)
component (c ∷ cs) = atoi (c ∷ cs)

all_three : Option ℤ → Option ℤ → Option ℤ → Option (ℤ × ℤ × ℤ)
all_three (some a) (some b) (some c) = some (a, b, c)
all_three a b c = none

major_digits : List ℕ → Option ℤ → Option ℤ → Option (ℤ × ℤ × ℤ)
unfolding all_three atoi
major_digits [] minor patch = none
major_digits (c ∷ cs) minor patch = all_three (atoi (c ∷ cs)) minor patch

-- None for a text that does not match, and for a number out of range.
unfoldable pub version_components : List ℕ → Option (ℤ × ℤ × ℤ)
unfolding trim_prefix span_digits component major_digits
version_components version =
    let (a, r) = span_digits (trim_prefix 118 version) in
    let (b, s) = span_digits (trim_prefix 46 r) in
    let (c, t) = span_digits (trim_prefix 46 s) in major_digits a (component b) (component c)

same_ℤ : ℤ → ℤ → Bool
same_ℤ a b = not (ltb_ℤ a b) && not (ltb_ℤ b a)

meets : Option (ℤ × ℤ × ℤ) → ℤ → ℤ → ℤ → Option Bool
unfolding same_ℤ
meets none major minor patch = none
meets (some (a, b, c)) major minor patch =
    if ltb_ℤ a major
      || same_ℤ a major && ltb_ℤ b minor
      || same_ℤ a major && same_ℤ b minor && ltb_ℤ c patch
    then some false
    else some true

-- None is the error.
unfoldable pub server_at_least : List ℕ → ℤ → ℤ → ℤ → Option Bool
unfolding meets version_components
server_at_least version major minor patch = meets (version_components version) major minor patch

-- `pauseGate` of desktop/internal/jsadmin/consumers.go, on its error.
gate_from : Option Bool → Bool
gate_from none = false
gate_from (some at_least) = at_least

unfoldable pub pause_gate : List ℕ → Bool
unfolding gate_from server_at_least
pause_gate version = gate_from (server_at_least version (pos 2) (pos 11) (pos 0))
