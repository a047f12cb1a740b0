-- ===== src/Buckets/Names.antt =====
-- Object names as targets of downloads: `hasDotDotSegment` and `safeObjectName` of
-- desktop/internal/buckets/transfer.go, on the bytes of a name, and where `filepath.Join` puts a
-- name below a directory.

use nats_desktop.Base.{
  Bool, Bool-cases, List, [], append-nil, append_assoc, arith, false, if◌then◌else◌, inl, inr, leb,
  not, refl, true, ℕ, ◌&&◌, ◌++◌, ◌==◌, ◌||◌, ◌∙◌, ◌∷◌, ◌≡◌,
}

abbrev pub Segment : Type 0
Segment = List ℕ

pub is_separator : ℕ → Bool
is_separator c = c == 47 || c == 92

-- A character before the segments of the rest.
onto : ℕ → List Segment → List Segment
onto c [] = (c ∷ []) ∷ []
onto c (s ∷ l) = (c ∷ s) ∷ l

-- The segments between the separators, empty ones included.
unfoldable pub segments : List ℕ → List Segment
unfolding onto is_separator
segments [] = [] ∷ []
segments (c ∷ cs) = let rest = segments cs in if is_separator c then [] ∷ rest else onto c rest

unfoldable pub is_dot_dot : Segment → Bool
is_dot_dot (a ∷ b ∷ []) = a == 46 && b == 46
is_dot_dot s = false

unfoldable pub is_dot : Segment → Bool
is_dot (a ∷ []) = a == 46
is_dot s = false

-- An empty segment is not one of `strings.FieldsFunc`, nor is it `..`.
unfoldable pub any_dot_dot : List Segment → Bool
unfolding is_dot_dot
any_dot_dot [] = false
any_dot_dot (s ∷ l) = is_dot_dot s || any_dot_dot l

unfoldable pub has_dot_dot_segment : List ℕ → Bool
unfolding any_dot_dot segments
has_dot_dot_segment name = any_dot_dot (segments name)

is_letter : ℕ → Bool
is_letter c = leb 65 c && leb c 90 || leb 97 c && leb c 122

-- `^[a-zA-Z]:`
unfoldable pub has_drive_prefix : List ℕ → Bool
unfolding is_letter
has_drive_prefix (a ∷ b ∷ cs) = is_letter a && b == 58
has_drive_prefix cs = false

-- An empty name, or one that starts with a separator.
unfoldable pub no_first : List ℕ → Bool
unfolding is_separator
no_first [] = true
no_first (c ∷ cs) = is_separator c

unfoldable pub safe_object_name : List ℕ → Bool
unfolding no_first has_drive_prefix has_dot_dot_segment
safe_object_name name =
    if no_first name || has_drive_prefix name then false else not (has_dot_dot_segment name)

-- `filepath.Join` of a clean directory, by its segments, and a name: empty and `.` segments are
-- skipped, and `..` goes up.
abbrev parent : List Segment → List Segment
parent [] = []
parent (s ∷ []) = []
parent (s ∷ t ∷ l) = s ∷ parent (t ∷ l)

abbrev is_nothing : Segment → Bool
is_nothing [] = true
is_nothing (c ∷ s) = false

unfoldable pub enter : List Segment → Segment → List Segment
unfolding is_dot is_dot_dot
enter dir s =
    if is_nothing s || is_dot s then dir else if is_dot_dot s then parent dir else dir ++ (s ∷ [])

unfoldable pub join : List Segment → List Segment → List Segment
unfolding enter
join dir [] = dir
join dir (s ∷ l) = join (enter dir s) l

-- The segments that remain of a name.
unfoldable pub plain : List Segment → List Segment
unfolding is_dot
plain [] = []
plain (s ∷ l) = let rest = plain l in if is_nothing s || is_dot s then rest else s ∷ rest

or-false : (a b : Bool) → a || b ≡ false → (a ≡ false) × (b ≡ false)
or-false true b h = cc
or-false false b h = (refl, h)

join-plain : (dir l : List Segment) → any_dot_dot l ≡ false → join dir l ≡ dir ++ plain l
unfolding join plain any_dot_dot
join-plain dir [] h = simp append-nil refl
join-plain dir (s ∷ l) h =
    let (d, r) = or-false (is_dot_dot s) (any_dot_dot l) h in
    elim (Bool-cases (is_nothing s || is_dot s)) [
      | inl b ↦ simp b (join-plain dir l r)
      | inr b ↦ simp (b, d) (join-plain (dir ++ (s ∷ [])) l r ∙ append_assoc dir (s ∷ []) (plain l))
    ]

-- A safe object name is joined to the download directory without leaving it: the target is the
-- directory followed by the segments of the name that are neither empty nor `.`, in their order.
pub safe-join :
    (dir : List Segment) (name : List ℕ)
    → safe_object_name name ≡ true
    → join dir (segments name) ≡ dir ++ plain (segments name)
unfolding safe_object_name has_dot_dot_segment
safe-join dir name h = join-plain dir (segments name) (ground arith)
