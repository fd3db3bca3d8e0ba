-- ===== src/Common/Text.antt =====
-- Go strings. A string is the sequence of code points that `range` yields over it; the number
-- 0x110000 + b stands for a byte b that is no part of valid UTF-8. An ASCII string is its bytes.
use Prim.Native.Char.{code}
use Prim.Native.String.{String}
use Prim.Native.Nat.{ℕ}
use mathlib.Core.Path.{◌≡◌, refl}
use mathlib.Core.Bool.{Bool, true, false, ◌&&◌}
use mathlib.Core.List.{List, [], ◌∷◌}
use native.Mathlib.Omega.{arith}
use sms_gateway.Common.Tests.{◌==◌}

abbrev pub Text : Type 0
Text = List ℕ

-- The text of a literal.
abbrev pub codes : String → Text
codes String.[] = []
codes (String.◌∷◌ c s) = code c ∷ codes s

abbrev pub text_eq : Text → Text → Bool
text_eq [] [] = true
text_eq [] (y ∷ ys) = false
text_eq (x ∷ xs) [] = false
text_eq (x ∷ xs) (y ∷ ys) = x == y && text_eq xs ys

pub text_eq_refl : (s : Text) → text_eq s s ≡ true
text_eq_refl [] = refl
text_eq_refl (x ∷ xs) = ground (arith, text_eq_refl xs)

pub eq_of-text_eq : (s t : Text) → text_eq s t ≡ true → s ≡ t
eq_of-text_eq [] [] h = refl
eq_of-text_eq [] (y ∷ ys) h = cc
eq_of-text_eq (x ∷ xs) [] h = cc
eq_of-text_eq (x ∷ xs) (y ∷ ys) h = ground (arith, eq_of-text_eq xs ys)
