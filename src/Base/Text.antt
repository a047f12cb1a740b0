-- ===== src/Base/Text.antt =====
-- Texts as the Go library reads them: white space, and tests on every character.

use Prim.Native.Char.{code}
use text.Mathlib.Text.{◌==◌ as str_eq}
use text.Mathlib.TextEquality.{eq_iff}
use nats_desktop.Base.{Bool, String, arith, false, leb, refl, true, ℕ, ◌&&◌, ◌==◌, ◌||◌, ◌≡◌, ◌≢◌}

-- `unicode.IsSpace`.
unfoldable pub is_space : ℕ → Bool
is_space c =
    leb 9 c && leb c 13
    || c == 32
    || c == 133
    || c == 160
    || c == 5760
    || leb 8192 c && leb c 8202
    || c == 8232
    || c == 8233
    || c == 8239
    || c == 8287
    || c == 12288

-- Whether every character passes.
unfoldable pub all_chars : (ℕ → Bool) → String → Bool
all_chars test String.[] = true
all_chars test (String.◌∷◌ c s) = test (code c) && all_chars test s

-- `strings.TrimSpace(s) == ""`.
unfoldable pub is_blank_text : String → Bool
is_blank_text s = all_chars is_space s

pub blank_empty : is_blank_text "" ≡ true
unfolding is_blank_text all_chars
blank_empty = refl

pub differ : (a b : String) → str_eq a b ≡ false → a ≢ b
differ a b h = ground (arith, eq_iff a b)
