-- ===== src/Base/Utf8.antt =====
-- The Go library's `utf8.Valid`, over a list of bytes.

use nats_desktop.Base.{
  Bool, List, Option, [], false, if◌then◌else◌, leb, ltb, none, refl, some, true, ℕ, ◌&&◌, ◌-◌,
  ◌==◌, ◌∷◌, ◌≡◌,
}

-- How many continuation bytes are to come, and the range of the next one.
record Pending : Type 0 where
  left : ℕ
  low : ℕ
  high : ℕ

abbrev expect : ℕ → ℕ → ℕ → Option Pending
expect left low high = some (record { left = left; low = low; high = high })

lead : ℕ → Option Pending
lead b =
    if ltb b 0x80
    then expect 0 0 0
    else if ltb b 0xC2
    then none
    else if ltb b 0xE0
    then expect 1 0x80 0xBF
    else if b == 0xE0
    then expect 2 0xA0 0xBF
    else if b == 0xED
    then expect 2 0x80 0x9F
    else if ltb b 0xF0
    then expect 2 0x80 0xBF
    else if b == 0xF0
    then expect 3 0x90 0xBF
    else if ltb b 0xF4
    then expect 3 0x80 0xBF
    else if b == 0xF4
    then expect 3 0x80 0x8F
    else none

next : Pending → ℕ → Option Pending
unfolding lead
next p b =
    if p.left == 0
    then lead b
    else if leb p.low b && leb b p.high
    then expect (p.left - 1) 0x80 0xBF
    else none

valid_from : Pending → List ℕ → Bool
unfolding next
valid_from p [] = p.left == 0
valid_from p (b ∷ bs) = elim (next p b) [ none ↦ false | some q ↦ valid_from q bs ]

unfoldable pub is_utf8 : List ℕ → Bool
unfolding valid_from
is_utf8 bs = valid_from (record { left = 0; low = 0; high = 0 }) bs

euro_valid : is_utf8 (0xE2 ∷ 0x82 ∷ 0xAC ∷ 0x41 ∷ []) ≡ true
unfolding is_utf8
euro_valid = refl

surrogate_invalid : is_utf8 (0xED ∷ 0xA0 ∷ 0x80 ∷ []) ≡ false
unfolding is_utf8
surrogate_invalid = refl
