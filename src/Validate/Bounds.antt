-- ===== src/Validate/Bounds.antt =====
-- The names that validate.c lets pass: lengths and characters.
use Prim.Native.Char.{Char, char, code}
use vcd.Base.{
  Bool-cases, str_equal→eq, ap, ℕ, ◌≤◌, ◌<◌, Bool, true, false, ◌||◌, String, ◌≡◌, ◌↔◌, inl, inr,
  refl, arith, len, all_chars, ◌==◌,
}
use vcd.Platform.{is_alnum}
use vcd.Validate.{validate_name, str_isalnumextended, is_alnumextended, str_isempty}

-- A letter, a digit, a dash or an underscore.
abbrev pub is_name_char : ℕ → Bool
is_name_char c = is_alnum c || c == b'-' || c == b'_'

name_char_same : (c : ℕ) → c < 1114112 → is_alnumextended c ≡ is_name_char c
unfolding is_alnumextended
name_char_same c small = ground arith

code-lt : (c : Char) → code c < 1114112
code-lt (char n h) = ground arith

nonempty : (s : String) → 3 ≤ len s → str_isempty s ≡ false
nonempty s h = elim (Bool-cases (str_isempty s)) [
  | inr e ↦ e
  | inl e ↦ absurd (let none_left = ap len (str_equal→eq s "" e) in ground (arith, none_left))
]

is_name_char-all : (s : String) → all_chars is_alnumextended s ≡ all_chars is_name_char s
unfolding all_chars
is_name_char-all String.[] = refl
is_name_char-all (String.◌∷◌ c s) =
    ground (arith, name_char_same (code c) (code-lt c), is_name_char-all s)

-- validate_name lets exactly the names of 3 to 32 bytes pass that have letters, digits, dashes and
-- underscores only.
pub validate_name_iff :
    (s : String)
    → (validate_name s ≡ true) ↔ ((3 ≤ len s) × (len s ≤ 32) × (all_chars is_name_char s ≡ true))
unfolding validate_name str_isalnumextended
validate_name_iff s = (
  λ e. (ground arith, ground arith, ground (arith, is_name_char-all s)),
  λ (least, most, chars). ground (arith, least, most, chars, is_name_char-all s, nonempty s least),
)
