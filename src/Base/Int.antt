-- ===== src/Base/Int.antt =====
-- Go's int where it may be negative. `negsuc n` is -(n + 1).
use Prim.Native.Nat.{ℕ, suc}
use mathlib.Core.Bool.{Bool, false}
use mathlib.Core.List.{◌∷◌}
use distributed_systems_go.Base.Tests.{ltb}
use distributed_systems_go.Base.Bytes.{Text, decimal}

pub data ℤ : Type 0 where
  pos : ℕ → ℤ
  negsuc : ℕ → ℤ

-- `%d`
unfoldable pub show_int : ℤ → Text
show_int (pos n) = decimal n
show_int (negsuc n) = b'-' ∷ decimal (suc n)

-- `z > 0`
abbrev pub is_positive : ℤ → Bool
is_positive (pos n) = ltb 0 n
is_positive (negsuc n) = false
