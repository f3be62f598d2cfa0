-- ===== src/Http/Strings/Sscanf.antt =====
-- `fmt.Sscanf` with the format `%d`: white space, a sign and digits at the start of a text. Callers
-- drop the error, so it is `none`; the text after the digits is not looked at.
use distributed_systems_go.Base.{
  ℕ, ◌^◌, ◌<◌, ◌≡◌, refl, Bool, true, false, [], ◌∷◌, Option, none, some, arith, if◌then◌else◌, ltb,
  ◌==◌, ◌&&◌, ◌||◌, All, Text, decimal,
}
use distributed_systems_go.Base.Int.{ℤ, pos}
use distributed_systems_go.Http.Strings.{is_space, is_space2, is_space3, atoi}
use distributed_systems_go.Http.Strings.Trim.{
  IsPlain, is_space-plain, is_space2-plain_first, is_space3-plain_first,
}
use distributed_systems_go.Http.Strings.Number.{IsDigit, decimal-digits, atoi-decimal}

-- `SkipSpace`, which fails at a newline
unfoldable pub skip_space : Text → Option Text
skip_space [] = some []
skip_space (a ∷ []) = if a == b'\n' then none else if is_space a then some [] else some (a ∷ [])
skip_space (a ∷ b ∷ []) = elim (is_space a) [
  | true ↦ if a == b'\n' then none else skip_space (b ∷ [])
  | false ↦ if is_space2 a b then some [] else some (a ∷ b ∷ [])
]
skip_space (a ∷ b ∷ c ∷ cs) = elim (is_space a) [
  | true ↦ elim (a == b'\n') [ true ↦ none | false ↦ skip_space (b ∷ c ∷ cs) ]
  | false ↦ elim (is_space2 a b) [
    | true ↦ skip_space (c ∷ cs)
    | false ↦ elim (is_space3 a b c) [ true ↦ skip_space cs | false ↦ some (a ∷ b ∷ c ∷ cs) ]
  ]
]

abbrev pub is_digit : ℕ → Bool
is_digit c = ltb 47 c && ltb c 58

-- the digits at the start
unfoldable pub take_digits : Text → Text
take_digits [] = []
take_digits (c ∷ t) = let rest = take_digits t in if is_digit c then c ∷ rest else []

-- the token: a sign, which may be missing, and digits
unfoldable pub number_token : Text → Text
unfolding take_digits
number_token [] = []
number_token (c ∷ t) = if c == b'-' || c == b'+' then c ∷ take_digits t else take_digits (c ∷ t)

-- without digits the token is no number for `strconv.ParseInt` either
unfoldable pub scan_int : Text → Option ℤ
scan_int t = elim (skip_space t) [
  | none ↦ none
  | some rest ↦ elim (atoi (number_token rest)) [ some (some n) ↦ some n | _ ↦ none ]
]

digit-IsPlain : (c : ℕ) → IsDigit c → IsPlain c
digit-IsPlain c h = (omega arith, omega arith)

skip_space-digit : (c : ℕ) (t : Text) → IsDigit c → skip_space (c ∷ t) ≡ some (c ∷ t)
unfolding skip_space
skip_space-digit c [] h =
    let e : (c == b'\n') ≡ false = ground arith in rw (e, is_space-plain c (digit-IsPlain c h))
skip_space-digit c (b ∷ []) h =
    let p : IsPlain c = digit-IsPlain c h in
    rw (is_space-plain c p, is_space2-plain_first c b p, skip_space)
skip_space-digit c (b ∷ d ∷ t) h =
    let p : IsPlain c = digit-IsPlain c h in
    rw (is_space-plain c p, is_space2-plain_first c b p, is_space3-plain_first c b d p, skip_space)

take_digits-All : (t : Text) → All IsDigit t → take_digits t ≡ t
unfolding take_digits
take_digits-All [] h = refl
take_digits-All (c ∷ t) h =
    let e : is_digit c ≡ true = ground arith in rw (e, take_digits-All t h.1)

number_token-digits : (c : ℕ) (t : Text) → All IsDigit (c ∷ t) → number_token (c ∷ t) ≡ c ∷ t
unfolding number_token
number_token-digits c t h =
    let e : (c == b'-' || c == b'+') ≡ false = ground arith in rw e (take_digits-All (c ∷ t) h)

-- `%d` reads back what `%d` writes of a number that is not negative and that an int holds.
pub scan_int-decimal : (n : ℕ) → n < 2 ^ 63 → scan_int (decimal n) ≡ some (pos n)
unfolding scan_int
scan_int-decimal n fits =
    let (c, cs, found, digits) = decimal-digits n in
    let skipped : skip_space (decimal n) ≡ some (decimal n) =
      rw found (skip_space-digit c cs digits.0) in
    let token : number_token (decimal n) ≡ decimal n = rw found (number_token-digits c cs digits) in
    rw (skipped, token, atoi-decimal n fits, scan_int)
