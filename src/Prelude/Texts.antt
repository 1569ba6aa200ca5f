-- ===== src/Prelude/Texts.antt =====
-- Text whose characters matter: a list of code points. Names that are only compared are `String`s.
use Prim.Native.Nat.{ℕ}
use Prim.Native.Char.{code}
use Prim.Native.String.{String}
use mathlib.Core.Path.{◌≡◌, refl}
use mathlib.Core.Bool.{Bool, true, false, ◌&&◌, ◌||◌}
use mathlib.Core.Option.{Option, none, some}
use mathlib.Core.List.{List, [], ◌∷◌}
use native.Mathlib.Omega.{arith}
use text.Mathlib.Text.{◌==◌ as str_eq}
use ai_platform_mini.Prelude.Tests.{◌==◌, leb, if◌then◌else◌}
use ai_platform_mini.Prelude.Lists.{all}

abbrev pub Text : Type 0
Text = List ℕ

-- The code points of a literal.
abbrev pub codes : String → Text
codes String.[] = []
codes (String.◌∷◌ c s) = code c ∷ codes s

unfoldable pub text_eq : Text → Text → Bool
text_eq [] [] = true
text_eq [] (_ ∷ _) = false
text_eq (_ ∷ _) [] = false
text_eq (c ∷ s) (d ∷ t) = c == d && text_eq s t

pub text_eq_refl : (s : Text) → text_eq s s ≡ true
unfolding text_eq
text_eq_refl [] = refl
text_eq_refl (c ∷ s) = ground (arith, text_eq_refl s)

pub text_eq_sound : (s t : Text) → text_eq s t ≡ true → s ≡ t
unfolding text_eq
text_eq_sound [] [] h = refl
text_eq_sound [] (_ ∷ _) h = cc
text_eq_sound (_ ∷ _) [] h = cc
text_eq_sound (c ∷ s) (d ∷ t) h = ground (arith, text_eq_sound s t)

-- `s.startswith(prefix)`
unfoldable pub starts_with : Text → Text → Bool
starts_with [] s = true
starts_with (c ∷ p) [] = false
starts_with (c ∷ p) (d ∷ s) = c == d && starts_with p s

-- `a == b` for values that may be `None`
abbrev pub same_option : Option String → Option String → Bool
same_option none none = true
same_option none (some _) = false
same_option (some _) none = false
same_option (some a) (some b) = str_eq a b

-- A character of "0123456789abcdef"
abbrev pub is_hex : ℕ → Bool
is_hex c = (leb 48 c && leb c 57) || (leb 97 c && leb c 102)

-- The characters that `str.strip` takes off.
unfoldable pub is_space : ℕ → Bool
is_space c =
    (leb 9 c && leb c 13)
    || (leb 28 c && leb c 32)
    || c == 133
    || c == 160
    || c == 5760
    || (leb 8192 c && leb c 8202)
    || c == 8232
    || c == 8233
    || c == 8239
    || c == 8287
    || c == 12288

-- `not s.strip()`
unfoldable pub is_blank : Text → Bool
unfolding is_space
is_blank s = all is_space s

-- `s.strip()`
unfoldable pub skip_space : Text → Text
unfolding is_space
skip_space [] = []
skip_space (c ∷ s) = let rest = skip_space s in if is_space c then rest else c ∷ s

abbrev pub reverse_onto : Text → Text → Text
reverse_onto [] t = t
reverse_onto (c ∷ s) t = reverse_onto s (c ∷ t)

unfoldable pub strip : Text → Text
unfolding skip_space
strip s = reverse_onto (skip_space (reverse_onto (skip_space s) [])) []

-- `s.rstrip()`
unfoldable pub rstrip : Text → Text
unfolding skip_space
rstrip s = reverse_onto (skip_space (reverse_onto s [])) []
