-- ===== src/Database/Service/Window.antt =====
-- The FIFO limit of `addDataPointInternal`: cutting at every step is cutting once at the end.
use distributed_systems_go.Base.{
  ℕ, zero, suc, min, refl, [], ◌∷◌, ◌+◌, ◌-◌, ◌≤◌, ◌≡◌, ◌∙◌, ap, List, ◌++◌, arith, ltb, ltb→le,
  inl, inr, Bool-cases, length, drop, length-drop, length-append, drop-append, drop-drop, All,
  All-drop,
}
use distributed_systems_go.Types.{SensorData}
use distributed_systems_go.Database.Service.{trim}

trim-drop : (n : ℕ) (xs : List SensorData) → trim n xs ≡ drop (length xs - n) xs
unfolding trim
trim-drop n xs = elim (Bool-cases (ltb n (length xs))) [
  | inl over ↦ rw over
  | inr within ↦
      let e : length xs - n ≡ 0 = omega (arith, ltb→le n (length xs) within) in rw (within, e)
]

pub length-trim : (n : ℕ) (xs : List SensorData) → length (trim n xs) ≤ n
length-trim n xs = rw trim-drop (omega (arith, length-drop (length xs - n) xs))

pub trim-All :
    (P : SensorData → Type 0) (n : ℕ) (xs : List SensorData) → All P xs → All P (trim n xs)
trim-All P n xs h = rw trim-drop (All-drop P (length xs - n) xs h)

take_back : (n : ℕ) (xs : List SensorData) → (before : List SensorData) × (before ++ drop n xs ≡ xs)
take_back zero xs = ([], refl)
take_back (suc n) [] = ([], refl)
take_back (suc n) (x ∷ xs) = let (before, e) = take_back n xs in (x ∷ before, ap (λ ys. x ∷ ys) e)

-- What is left is the end of the list, as long as the limit allows.
pub trim-end :
    (n : ℕ) (xs : List SensorData)
    → (length (trim n xs) ≡ min n (length xs))
      × (before : List SensorData) × (before ++ trim n xs ≡ xs)
trim-end n xs =
    let (before, e) = take_back (length xs - n) xs in
    rw trim-drop (omega (arith, length-drop (length xs - n) xs), before, e)

-- A list within the limit is left alone.
pub trim_within : (n : ℕ) (xs : List SensorData) → length xs ≤ n → trim n xs ≡ xs
unfolding trim
trim_within n xs h = ground arith

pub trim-append : (n : ℕ) (xs ys : List SensorData) → trim n (trim n xs ++ ys) ≡ trim n (xs ++ ys)
trim-append n xs ys =
    let a : ℕ = length xs - n in
    let cut : trim n xs ++ ys ≡ drop a (xs ++ ys) =
      rw (trim-drop n xs, drop-append a xs ys (omega arith)) in
    let sizes : a + (length (drop a (xs ++ ys)) - n) ≡ length (xs ++ ys) - n =
      omega (arith, length-drop a (xs ++ ys), length-append xs ys) in
    ap (trim n) cut
    ∙ trim-drop n (drop a (xs ++ ys))
    ∙ drop-drop (length (drop a (xs ++ ys)) - n) a (xs ++ ys)
    ∙ rw (trim-drop n (xs ++ ys), sizes)
