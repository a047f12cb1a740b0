-- ===== src/Messaging/Filter/Matches.antt =====
-- What the filters and the validation decide.

use Prim.Native.String.{len}
use text.Mathlib.Text.{◌==◌ as str_eq}
use text.Mathlib.TextEquality.{eq_iff}
use mathlib.Core.List.{Memᴰ}
use nats_desktop.Base.{
  Bool-cases, List, Option-cases, String, [], arith, false, inl, inr, length, none, refl, some, sym,
  true, ℕ, ◌↔◌, ◌∷◌, ◌≡◌, ◌≢◌, ◌≤◌,
}
use nats_desktop.Messaging.Wire.{Filters, Headers}
use nats_desktop.Messaging.Filter.{
  any_blank, codes, contains, headers_match_filters, is_blank, lookup, max_header_filter_bytes,
  max_header_filter_pairs, oversize, validate_header_filters, validate_subject,
}

-- The header map has the key, and the value wanted is among its values, exactly equal.
abbrev pub HasValue : Headers → String × String → Type 0
HasValue h (k, want) = (vs : List String) × (lookup k h ≡ some vs) × Memᴰ want vs

abbrev pub AllPairs {ℓ} : (String × String → Type ℓ) → Filters → Type ℓ
AllPairs P [] = Unit
AllPairs P (f ∷ fs) = P f × AllPairs P fs

contains→mem : (want : String) (vs : List String) → contains want vs ≡ true → Memᴰ want vs
unfolding contains
contains→mem want [] h = cc
contains→mem want (v ∷ vs) h = elim (Bool-cases (str_eq v want)) [
  | inl e ↦ Memᴰ.head (sym ((eq_iff v want).0 e))
  | inr e ↦ Memᴰ.tail (contains→mem want vs (ground arith))
]

mem→contains : (want : String) (vs : List String) → Memᴰ want vs → contains want vs ≡ true
unfolding contains
mem→contains want [] m = elim m [ ]
mem→contains want (v ∷ vs) (Memᴰ.head e) = ground (arith, eq_iff v want)
mem→contains want (v ∷ vs) (Memᴰ.tail m) = ground (arith, mem→contains want vs m)

match→all :
    (h : Headers) (fs : Filters) → headers_match_filters h fs ≡ true → AllPairs (HasValue h) fs
unfolding headers_match_filters
match→all h [] e = tt
match→all h ((k, want) ∷ fs) e = elim (Option-cases (lookup k h)) [
  | inl n ↦ absurd (ground arith)
  | inr (vs, l) ↦ ((vs, l, contains→mem want vs (ground arith)), match→all h fs (ground arith))
]

all→match :
    (h : Headers) (fs : Filters) → AllPairs (HasValue h) fs → headers_match_filters h fs ≡ true
unfolding headers_match_filters
all→match h [] e = refl
all→match h ((k, want) ∷ fs) ((vs, l, m), rest) =
    ground (arith, l, mem→contains want vs m, all→match h fs rest)

-- The filter passes a message exactly when, for every pair of the form, some value of that header
-- equals the wanted value; with no pair it passes every message.
pub headers_match_filters_iff :
    (h : Headers) (filters : Filters)
    → (headers_match_filters h filters ≡ true) ↔ AllPairs (HasValue h) filters
headers_match_filters_iff h filters = (match→all h filters, all→match h filters)

abbrev pub IsSmall : String × String → Type 0
IsSmall (k, v) = (len k ≤ max_header_filter_bytes) × (len v ≤ max_header_filter_bytes)

fits→all : (fs : Filters) → oversize fs ≡ false → AllPairs IsSmall fs
unfolding oversize
fits→all [] e = tt
fits→all ((k, v) ∷ fs) e = ((ground arith, ground arith), fits→all fs (ground arith))

all→fits : (fs : Filters) → AllPairs IsSmall fs → oversize fs ≡ false
unfolding oversize
all→fits [] e = refl
all→fits ((k, v) ∷ fs) ((a, b), rest) = ground (arith, all→fits fs rest)

-- A filter form is accepted exactly when it has at most 8 pairs, each key and each value of at most
-- 256 bytes.
pub validate_header_filters_iff :
    (fs : Filters)
    → (validate_header_filters fs ≡ none)
      ↔ ((length fs ≤ max_header_filter_pairs) × AllPairs IsSmall fs)
unfolding validate_header_filters
validate_header_filters_iff fs =
    (λ e. (ground arith, fits→all fs (ground arith)), λ h. ground (arith, all→fits fs h.1))

abbrev pub NoBlank : List ℕ → Type 0
NoBlank [] = Unit
NoBlank (c ∷ cs) = (c ≢ 32) × (c ≢ 9) × (c ≢ 13) × (c ≢ 10) × NoBlank cs

clean→all : (cs : List ℕ) → any_blank cs ≡ false → NoBlank cs
unfolding any_blank is_blank
clean→all [] e = tt
clean→all (c ∷ cs) e =
    (ground arith, ground arith, ground arith, ground arith, clean→all cs (ground arith))

all→clean : (cs : List ℕ) → NoBlank cs → any_blank cs ≡ false
unfolding any_blank is_blank
all→clean [] e = refl
all→clean (c ∷ cs) (a, b, d, e, rest) = ground (arith, all→clean cs rest)

-- A subject is accepted exactly when it is not empty and has no space, tab, return or line feed.
pub validate_subject_iff :
    (subject : String)
    → (validate_subject subject ≡ none) ↔ ((subject ≢ "") × NoBlank (codes subject))
unfolding validate_subject
validate_subject_iff subject = (
  λ e. (ground (arith, eq_iff subject ""), clean→all (codes subject) (ground arith)),
  λ h. ground (arith, eq_iff subject "", all→clean (codes subject) h.1),
)
