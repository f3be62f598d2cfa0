-- ===== src/Database/Coordinator/Ids.antt =====
-- The ids of `generateTransactionID`.
use distributed_systems_go.Base.{
  ℕ, ◌/◌, ◌%◌, ◌<◌, ◌≡◌, refl, ap₂, false, List, [], ◌∷◌, ◌++◌, Option, none, some, arith, Text,
  text, is_empty, All,
}
use distributed_systems_go.Database.Coordinator.{hex_digit, hex_encode, generate_transaction_id}

hex_digit-injective : (a b : ℕ) → a < 16 → b < 16 → hex_digit a ≡ hex_digit b → a ≡ b
unfolding hex_digit
hex_digit-injective a b ha hb h = ground arith

abbrev pub IsByte : ℕ → Type 0
IsByte b = b < 256

pub hex_encode-injective :
    (xs ys : List ℕ) → All IsByte xs → All IsByte ys → hex_encode xs ≡ hex_encode ys → xs ≡ ys
unfolding hex_encode
hex_encode-injective [] [] hx hy h = refl
hex_encode-injective [] (y ∷ ys) hx hy h = cc
hex_encode-injective (x ∷ xs) [] hx hy h = cc
hex_encode-injective (x ∷ xs) (y ∷ ys) hx hy h =
    let high : x / 16 ≡ y / 16 =
      hex_digit-injective (x / 16) (y / 16) (omega arith) (omega arith) cc in
    let low : x % 16 ≡ y % 16 =
      hex_digit-injective (x % 16) (y % 16) (omega arith) (omega arith) cc in
    let same : x ≡ y = omega arith in ap₂ ◌∷◌ same (hex_encode-injective xs ys hx.1 hy.1 cc)

append-injective : (p xs ys : Text) → p ++ xs ≡ p ++ ys → xs ≡ ys
append-injective [] xs ys h = h
append-injective (c ∷ p) xs ys h = append-injective p xs ys cc

-- Different random bytes give different transaction ids.
pub generate_transaction_id-injective :
    (xs ys : List ℕ) (t u : ℕ)
    → All IsByte xs
    → All IsByte ys
    → generate_transaction_id (some xs) t ≡ generate_transaction_id (some ys) u
    → xs ≡ ys
unfolding generate_transaction_id
generate_transaction_id-injective xs ys t u hx hy h =
    hex_encode-injective xs ys hx hy (append-injective (text "txn_") _ _ h)

-- No generated id is empty.
pub generate_transaction_id-named :
    (bytes : Option (List ℕ)) (t : ℕ) → is_empty (generate_transaction_id bytes t) ≡ false
unfolding generate_transaction_id text
generate_transaction_id-named none t = refl
generate_transaction_id-named (some bytes) t = refl
