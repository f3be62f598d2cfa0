-- ===== src/Types/Floats.antt =====
-- Comparison of float64 values by their bit patterns: the sign, and the exponent and fraction as one
-- number, which is above that of the infinities for a NaN. The rounding arithmetic is the language's:
-- `Arithmetic` is what the program uses of it.
use distributed_systems_go.Base.{
  ℕ, ◌%◌, ◌^◌, ◌-◌, ◌+◌, ◌≡◌, refl, Bool, true, false, not, ◌&&◌, ltb, arith,
}
use distributed_systems_go.Types.{Float}

pub record Arithmetic : Type 0 where
  pub add : Float → Float → Float
  pub sub : Float → Float → Float
  pub mul : Float → Float → Float

abbrev pub is_negative : Float → Bool
is_negative x = ltb (2 ^ 63 - 1) x

-- exponent and fraction
abbrev pub magnitude : Float → ℕ
magnitude x = x % 2 ^ 63

unfoldable pub is_nan : Float → Bool
is_nan x = ltb 0x7FF0_0000_0000_0000 (magnitude x)

-- `x < y` of two values by sign and magnitude; the two zeros are equal
abbrev pub lt_signed : Bool → Bool → ℕ → ℕ → Bool
lt_signed true true a b = ltb b a
lt_signed true false a b = ltb 0 (a + b)
lt_signed false true a b = false
lt_signed false false a b = ltb a b

-- `x < y`
unfoldable pub lt : Float → Float → Bool
unfolding is_nan
lt x y =
    (not (is_nan x) && not (is_nan y))
    && lt_signed (is_negative x) (is_negative y) (magnitude x) (magnitude y)

lt_signed-irreflexive : (s : Bool) (a : ℕ) → lt_signed s s a a ≡ false
lt_signed-irreflexive true a = ground arith
lt_signed-irreflexive false a = ground arith

and-false : (b c : Bool) → c ≡ false → (b && c) ≡ false
and-false true c h = h
and-false false c h = refl

-- No value is below itself.
pub lt-irreflexive : (x : Float) → lt x x ≡ false
unfolding lt
lt-irreflexive x =
    and-false (not (is_nan x) && not (is_nan x)) _
      (lt_signed-irreflexive (is_negative x) (magnitude x))
