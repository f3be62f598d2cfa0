-- ===== src/Http/Strings.antt =====
-- What pkg/http uses of Go's strings, bytes and strconv: TrimSpace, Split, Index, ToLower, Atoi.

pub mod Trim
pub mod Number
pub mod Split
pub mod Search
pub mod Sscanf
use distributed_systems_go.Base.{
  ℕ, zero, suc, ◌+◌, ◌-◌, ◌*◌, ◌^◌, Bool, true, false, not, ◌&&◌, ◌||◌, List, [], ◌∷◌, ◌++◌, Option,
  none, some, if◌then◌else◌, ltb, ◌==◌, map, Text, text, is_empty, Result, ok, err,
}
use distributed_systems_go.Base.Int.{ℤ, pos, negsuc}

-- the white space of Unicode, by the number of bytes of its UTF-8 encoding
unfoldable pub is_space : ℕ → Bool
is_space c = (ltb 8 c && ltb c 14) || c == 32

unfoldable pub is_space2 : ℕ → ℕ → Bool
is_space2 a b = a == 0xC2 && (b == 0x85 || b == 0xA0)

unfoldable pub is_space3 : ℕ → ℕ → ℕ → Bool
is_space3 a b c =
    (a == 0xE1 && (b == 0x9A && c == 0x80))
    || ((a == 0xE2
          && ((b == 0x80 && ((ltb 0x7F c && ltb c 0x8B) || (c == 0xA8 || (c == 0xA9 || c == 0xAF))))
              || (b == 0x81 && c == 0x9F)))
        || (a == 0xE3 && (b == 0x80 && c == 0x80)))

-- `strings.TrimSpace` at the start
unfoldable pub trim_left : Text → Text
trim_left [] = []
trim_left (a ∷ []) = if is_space a then [] else a ∷ []
trim_left (a ∷ b ∷ []) = elim (is_space a) [
  | true ↦ trim_left (b ∷ [])
  | false ↦ if is_space2 a b then [] else a ∷ b ∷ []
]
trim_left (a ∷ b ∷ c ∷ cs) = elim (is_space a) [
  | true ↦ trim_left (b ∷ c ∷ cs)
  | false ↦ elim (is_space2 a b) [
    | true ↦ trim_left (c ∷ cs)
    | false ↦ elim (is_space3 a b c) [ true ↦ trim_left cs | false ↦ a ∷ b ∷ c ∷ cs ]
  ]
]

-- whether a text is white space only
unfoldable pub all_spaces : Text → Bool
all_spaces [] = true
all_spaces (a ∷ []) = is_space a
all_spaces (a ∷ b ∷ []) = elim (is_space a) [ true ↦ is_space b | false ↦ is_space2 a b ]
all_spaces (a ∷ b ∷ c ∷ cs) = elim (is_space a) [
  | true ↦ all_spaces (b ∷ c ∷ cs)
  | false ↦ elim (is_space2 a b) [
    | true ↦ all_spaces (c ∷ cs)
    | false ↦ elim (is_space3 a b c) [ true ↦ all_spaces cs | false ↦ false ]
  ]
]

-- `strings.TrimSpace` at the end: cut off the longest suffix of white space
unfoldable pub trim_right : Text → Text
trim_right [] = []
trim_right (c ∷ cs) = elim (all_spaces (c ∷ cs)) [ true ↦ [] | false ↦ c ∷ trim_right cs ]

-- `strings.TrimSpace`
unfoldable pub trim_space : Text → Text
trim_space t = trim_right (trim_left t)

-- a byte in front of the first part
abbrev pub into_first : ℕ → List Text → List Text
into_first x [] = (x ∷ []) ∷ []
into_first x (w ∷ ws) = (x ∷ w) ∷ ws

-- `strings.Split` at a one-byte separator
unfoldable pub split : ℕ → Text → List Text
split sep [] = [] ∷ []
split sep (x ∷ xs) = let rest = split sep xs in if x == sep then [] ∷ rest else into_first x rest

abbrev pub cons_first : ℕ → Option (Text × Text) → Option (Text × Text)
cons_first x none = none
cons_first x (some (before, after)) = some (x ∷ before, after)

-- `strings.Index` of a byte, as the texts before and after it
unfoldable pub cut : ℕ → Text → Option (Text × Text)
cut sep [] = none
cut sep (x ∷ xs) = let rest = cons_first x (cut sep xs) in if x == sep then some ([], xs) else rest

-- `strings.ToLower`, compared with ASCII texts of which no letter is the lower case of a letter
-- outside ASCII
unfoldable pub to_lower : Text → Text
to_lower t = map (λ c. if ltb 64 c && ltb c 91 then c + 32 else c) t

-- what reading the digits of a `uint64` yields
pub data Scan : Type 0 where
  value : ℕ → Scan
  bad_syntax : Scan
  out_of_range : Scan

-- the loop of `strconv.ParseUint` in base 10, with the value so far
unfoldable pub scan : ℕ → Text → Scan
scan n [] = value n
scan n (c ∷ cs) = elim (ltb 47 c && ltb c 58) [
  | true ↦ elim (ltb (n * 10 + (c - 48)) (2 ^ 64)) [
    | true ↦ scan (n * 10 + (c - 48)) cs
    | false ↦ out_of_range
  ]
  | false ↦ bad_syntax
]

-- the sign of `strconv.Atoi`
unfoldable pub signed : Bool → Scan → Option (Option ℤ)
signed negative bad_syntax = none
signed negative out_of_range = some none
signed false (value n) = some (if ltb n (2 ^ 63) then some (pos n) else none)
signed true (value zero) = some (some (pos 0))
signed true (value (suc n)) = some (if ltb n (2 ^ 63) then some (negsuc n) else none)

-- digits after a sign; there must be one
unfoldable pub scan_digits : Text → Scan
scan_digits [] = bad_syntax
scan_digits (c ∷ cs) = scan 0 (c ∷ cs)

-- `strconv.Atoi`: `none` is a syntax error, `some none` one of range
unfoldable pub atoi : Text → Option (Option ℤ)
unfolding signed scan_digits
atoi [] = none
atoi (c ∷ cs) =
    if c == b'-'
    then signed true (scan_digits cs)
    else if c == b'+'
    then signed false (scan_digits cs)
    else signed false (scan_digits (c ∷ cs))
