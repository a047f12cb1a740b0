-- ===== src/Messaging/Filter.antt =====
-- Header filters: `HeadersMatchFilters` of desktop/internal/messaging/pipeline.go, and the local
-- validation of a session form in sessions.go (`validateSubject`, `validateHeaderFilters`).
pub mod Matches
use Prim.Native.Char.{code}
use Prim.Native.String.{len}
use text.Mathlib.Text.{◌==◌ as str_eq}
use nats_desktop.Base.{
  Bool, List, Option, String, [], false, if◌then◌else◌, length, ltb, none, some, true, ℕ, ◌&&◌,
  ◌==◌, ◌||◌, ◌∷◌,
}
use nats_desktop.Messaging.Wire.{Filters, Headers}

pub lookup : String → Headers → Option (List String)
lookup k [] = none
lookup k ((j, vs) ∷ h) = if str_eq j k then some vs else lookup k h

-- The inner loop, `goto next` on a hit.
pub contains : String → List String → Bool
contains want [] = false
contains want (v ∷ vs) = str_eq v want || contains want vs

matches_one : String → Option (List String) → Bool
matches_one want none = false
matches_one want (some got) = contains want got

pub headers_match_filters : Headers → Filters → Bool
unfolding matches_one
headers_match_filters h [] = true
headers_match_filters h ((k, want) ∷ filters) =
    matches_one want (lookup k h) && headers_match_filters h filters

pub data ValidationError : Type 0 where
  invalid_subject invalid_header_filter : ValidationError

-- The code points of a text.
abbrev pub codes : String → List ℕ
codes String.[] = []
codes (String.◌∷◌ c s) = code c ∷ codes s

unfoldable pub is_blank : ℕ → Bool
is_blank c = c == 32 || c == 9 || c == 13 || c == 10

-- `strings.ContainsAny(subject, " \t\r\n")`
unfoldable pub any_blank : List ℕ → Bool
any_blank [] = false
any_blank (c ∷ cs) = is_blank c || any_blank cs

unfoldable pub validate_subject : String → Option ValidationError
validate_subject subject =
    if str_eq subject "" || any_blank (codes subject) then some invalid_subject else none

abbrev pub max_header_filter_pairs : ℕ
max_header_filter_pairs = 8

abbrev pub max_header_filter_bytes : ℕ
max_header_filter_bytes = 256

-- The loop over the pairs: a key or a value that is too long stops it.
unfoldable pub oversize : Filters → Bool
oversize [] = false
oversize ((k, v) ∷ filters) =
    if ltb max_header_filter_bytes (len k)
    then true
    else if ltb max_header_filter_bytes (len v)
    then true
    else oversize filters

unfoldable pub validate_header_filters : Filters → Option ValidationError
validate_header_filters filters =
    if ltb max_header_filter_pairs (length filters)
    then some invalid_header_filter
    else if oversize filters
    then some invalid_header_filter
    else none
