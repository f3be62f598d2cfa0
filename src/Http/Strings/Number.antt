-- ===== src/Http/Strings/Number.antt =====
-- `Atoi` reads back what `%d` writes.
use distributed_systems_go.Base.{
  ℕ, zero, suc, ◌+◌, ◌*◌, ◌/◌, ◌%◌, ◌^◌, ◌≤◌, ◌<◌, ◌≡◌, refl, ◌∙◌, false, inl, inr, Bool-cases, [],
  ◌∷◌, arith, some, ltb, All, ltb→lt, ltb→le, ap, sym, Text, decimal, digits_onto,
}
use distributed_systems_go.Base.Int.{pos}
use distributed_systems_go.Http.Strings.Split.{Without}
use distributed_systems_go.Http.Strings.{value, scan, scan_digits, signed, atoi}

scan-digit :
    (d n : ℕ) (rest : Text)
    → d < 10
    → n * 10 + d < 2 ^ 64
    → scan n ((b'0' + d) ∷ rest) ≡ scan (n * 10 + d) rest
unfolding scan
scan-digit d n rest small fits = ground arith

scan-digits_onto :
    (f n : ℕ) (rest : Text) → n < f → n < 2 ^ 64 → scan 0 (digits_onto f n rest) ≡ scan n rest
unfolding digits_onto
scan-digits_onto zero n rest fuel fits = absurd (omega arith)
scan-digits_onto (suc f) n rest fuel fits = elim (Bool-cases (ltb n 10)) [
  | inl e ↦
      let small : n < 10 = ltb→lt n 10 e in
      let same : 0 * 10 + n ≡ n = omega arith in
      rw e (scan-digit n 0 rest small (omega arith) ∙ ap (λ m. scan m rest) same)
  | inr e ↦
      let large : 10 ≤ n = ltb→le n 10 e in
      let back : n / 10 * 10 + n % 10 ≡ n = omega arith in
      rw e (
        scan-digits_onto f (n / 10) ((b'0' + n % 10) ∷ rest) (omega arith) (omega arith)
        ∙ scan-digit (n % 10) (n / 10) rest (omega arith) (omega arith)
        ∙ ap (λ m. scan m rest) back)
]

scan-end : (n : ℕ) → scan n [] ≡ value n
unfolding scan
scan-end n = refl

in_range : (n : ℕ) → n < 2 ^ 63 → signed false (value n) ≡ some (some (pos n))
unfolding signed
in_range n fits = ground arith

digit-first :
    (f n : ℕ) (rest : Text)
    → n < f
    → (d : ℕ) × (ds : Text) × (d < 10) × (digits_onto f n rest ≡ (b'0' + d) ∷ ds)
unfolding digits_onto
digit-first zero n rest fuel = absurd (omega arith)
digit-first (suc f) n rest fuel = elim (Bool-cases (ltb n 10)) [
  | inl e ↦ (n, rest, ltb→lt n 10 e, rw e)
  | inr e ↦
      let large : 10 ≤ n = ltb→le n 10 e in
      let (d, ds, small, found) = digit-first f (n / 10) ((b'0' + n % 10) ∷ rest) (omega arith) in
      (d, ds, small, rw e found)
]

atoi-digit :
    (d : ℕ) (ds : Text) → d < 10 → atoi ((b'0' + d) ∷ ds) ≡ signed false (scan 0 ((b'0' + d) ∷ ds))
unfolding atoi scan_digits
atoi-digit d ds h = ground arith

-- `Atoi` reads back every number that is not negative and that an int holds, as `%d` writes it.
pub atoi-decimal : (n : ℕ) → n < 2 ^ 63 → atoi (decimal n) ≡ some (some (pos n))
unfolding decimal
atoi-decimal n fits =
    let (d, ds, small, found) = digit-first (suc n) n [] (omega arith) in
    let value_n : scan 0 ((b'0' + d) ∷ ds) ≡ value n =
      ap (scan 0) (sym found)
      ∙ (scan-digits_onto (suc n) n [] (omega arith) (omega arith) ∙ scan-end n) in
    ap atoi found ∙ (atoi-digit d ds small ∙ (ap (signed false) value_n ∙ in_range n fits))

abbrev pub IsDigit : ℕ → Type 0
IsDigit c = (47 < c) × (c < 58)

digits_onto-All :
    (f n : ℕ) (rest : Text) → n < f → All IsDigit rest → All IsDigit (digits_onto f n rest)
unfolding digits_onto
digits_onto-All zero n rest fuel h = absurd (omega arith)
digits_onto-All (suc f) n rest fuel h = elim (Bool-cases (ltb n 10)) [
  | inl e ↦ let small : n < 10 = ltb→lt n 10 e in rw e ((omega arith, omega arith), h)
  | inr e ↦
      let large : 10 ≤ n = ltb→le n 10 e in
      rw e (
        digits_onto-All f (n / 10) ((b'0' + n % 10) ∷ rest) (omega arith)
          ((omega arith, omega arith), h))
]

-- A number is written with at least one digit, and digits only.
pub decimal-digits : (n : ℕ) → (c : ℕ) × (cs : Text) × (decimal n ≡ c ∷ cs) × All IsDigit (c ∷ cs)
unfolding decimal
decimal-digits n =
    let (d, ds, small, found) = digit-first (suc n) n [] (omega arith) in
    (b'0' + d, ds, found, rw found at (digits_onto-All (suc n) n [] (omega arith) tt))

-- The digits hold no byte below them.
pub Without-digits : (b : ℕ) (t : Text) → b ≤ 47 → All IsDigit t → Without b t
Without-digits b [] h hd = tt
Without-digits b (c ∷ t) h hd = ((λ e. omega (arith, hd.0, e)), Without-digits b t h hd.1)

pub Without-decimal : (b n : ℕ) → b ≤ 47 → Without b (decimal n)
Without-decimal b n h =
    let (c, cs, found, digits) = decimal-digits n in rw found (Without-digits b (c ∷ cs) h digits)
