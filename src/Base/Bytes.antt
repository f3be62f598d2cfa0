-- ===== src/Base/Bytes.antt =====
-- Go strings and byte slices are lists of bytes. `text` gives the bytes of an ASCII literal; it
-- is shut, so that a literal stays short in a goal, and the tests unfold it.
use Prim.Native.Nat.{ℕ, zero, suc, ◌+◌, ◌/◌, ◌%◌}
use Prim.Native.Char.{code}
use Prim.Native.String.{String}
use mathlib.Core.Bool.{Bool, true, false, ◌&&◌}
use mathlib.Core.Path.{◌≡◌, refl}
use mathlib.Core.Logic.{◌↔◌, ◌≢◌, inl, inr}
use mathlib.Core.List.{List, [], ◌∷◌}
use native.Mathlib.Omega.{arith}
use distributed_systems_go.Base.Tests.{◌==◌, ltb, Bool-cases, if◌then◌else◌}

abbrev pub Text : Type 0
Text = List ℕ

codes : String → Text
codes String.[] = []
codes (String.◌∷◌ c s) = code c ∷ codes s

unfoldable pub text : String → Text
unfolding codes
text s = codes s

-- `a == b` on strings
unfoldable pub eq_text : Text → Text → Bool
eq_text [] [] = true
eq_text (x ∷ xs) (y ∷ ys) = x == y && eq_text xs ys
eq_text _ _ = false

pub eq_text_iff : (a b : Text) → (eq_text a b ≡ true) ↔ (a ≡ b)
unfolding eq_text
eq_text_iff (x ∷ a) (y ∷ b) = ground (arith, eq_text_iff a b)
eq_text_iff _ _ = ground arith

pub eq_text_refl : (a : Text) → eq_text a a ≡ true
eq_text_refl a = (eq_text_iff a a).1 refl

pub eq_text_ne : (a b : Text) → a ≢ b → eq_text a b ≡ false
eq_text_ne a b h = elim (Bool-cases (eq_text a b)) [
  | inl same ↦ absurd (h ((eq_text_iff a b).0 same))
  | inr other ↦ other
]

-- `s == ""`
abbrev pub is_empty : Text → Bool
is_empty [] = true
is_empty (_ ∷ _) = false

-- the decimal digits of a number in front of `rest`; the fuel is one more than the number, which
-- has at most as many digits
unfoldable pub digits_onto : ℕ → ℕ → Text → Text
digits_onto zero n rest = rest
digits_onto (suc f) n rest =
    let more = digits_onto f (n / 10) ((b'0' + n % 10) ∷ rest) in
    if ltb n 10 then (b'0' + n) ∷ rest else more

-- `%d` of a number that is not negative
unfoldable pub decimal : ℕ → Text
unfolding digits_onto
decimal n = digits_onto (suc n) n []
