-- ===== src/Base/Text.antt =====
-- Texts character by character.
use Prim.Native.Char.{code}
use Prim.Native.String.{String, ◌++◌ as string_append}
use mathlib.Core.Path.{◌≡◌, refl}
use mathlib.Core.Bool.{Bool, true, ◌&&◌}
use Prim.Native.Nat.{ℕ}
use native.Mathlib.Omega.{arith}

-- A test holds of every character, by its code.
unfoldable pub all_chars : (ℕ → Bool) → String → Bool
all_chars p String.[] = true
all_chars p (String.◌∷◌ c s) = p (code c) && all_chars p s

pub all_chars_mono :
    (p q : ℕ → Bool)
    → ((c : ℕ) → p c ≡ true → q c ≡ true)
    → (s : String) → all_chars p s ≡ true
    → all_chars q s ≡ true
unfolding all_chars
all_chars_mono p q h String.[] a = refl
all_chars_mono p q h (String.◌∷◌ c s) a = ground (arith, h (code c), all_chars_mono p q h s)

abbrev pub str_cat : String → String → String
str_cat s t = string_append s t
