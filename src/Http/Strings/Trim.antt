-- ===== src/Http/Strings/Trim.antt =====
-- What `TrimSpace` leaves of a text between white space.
use distributed_systems_go.Base.{
  ℕ, ◌<◌, ◌≡◌, refl, true, false, inl, inr, Bool-cases, [], ◌∷◌, ◌++◌, append-nil, ap, sym, ◌∙◌,
  arith, Text,
}
use distributed_systems_go.Http.Strings.{
  is_space, is_space2, is_space3, trim_left, trim_right, trim_space, all_spaces,
}

-- a printable byte of ASCII other than the blank
abbrev pub IsPlain : ℕ → Type 0
IsPlain c = (32 < c) × (c < 127)

pub is_space-plain : (c : ℕ) → IsPlain c → is_space c ≡ false
unfolding is_space
is_space-plain c h = ground arith

pub is_space2-plain_first : (c b : ℕ) → IsPlain c → is_space2 c b ≡ false
unfolding is_space2
is_space2-plain_first c b h = ground arith

is_space2-plain_last : (a c : ℕ) → IsPlain c → is_space2 a c ≡ false
unfolding is_space2
is_space2-plain_last a c h = ground arith

pub is_space3-plain_first : (c a b : ℕ) → IsPlain c → is_space3 c a b ≡ false
unfolding is_space3
is_space3-plain_first c a b h = ground arith

is_space3-plain_second : (a c b : ℕ) → IsPlain c → is_space3 a c b ≡ false
unfolding is_space3
is_space3-plain_second a c b h = ground arith

is_space3-plain_last : (a b c : ℕ) → IsPlain c → is_space3 a b c ≡ false
unfolding is_space3
is_space3-plain_last a b c h = ground arith

-- A text whose first byte is plain keeps its start.
trim_left-plain : (c : ℕ) (t : Text) → IsPlain c → trim_left (c ∷ t) ≡ c ∷ t
unfolding trim_left
trim_left-plain c [] h = rw (is_space-plain c h)
trim_left-plain c (b ∷ []) h = rw (is_space-plain c h, is_space2-plain_first c b h, trim_left)
trim_left-plain c (b ∷ d ∷ t) h =
    rw (is_space-plain c h, is_space2-plain_first c b h, is_space3-plain_first c b d h, trim_left)

trim_left-blank : (c : ℕ) (t : Text) → IsPlain c → trim_left (32 ∷ c ∷ t) ≡ c ∷ t
unfolding trim_left is_space
trim_left-blank c [] h = trim_left-plain c [] h
trim_left-blank c (b ∷ t) h = trim_left-plain c (b ∷ t) h

-- The last byte is plain.
abbrev pub EndsPlain : Text → Type 0
EndsPlain [] = ⊥
EndsPlain (c ∷ []) = IsPlain c
EndsPlain (c ∷ d ∷ t) = EndsPlain (d ∷ t)

all_spaces-plain : (c : ℕ) (t : Text) → IsPlain c → all_spaces (c ∷ t) ≡ false
unfolding all_spaces
all_spaces-plain c [] h = is_space-plain c h
all_spaces-plain c (b ∷ []) h = rw (is_space-plain c h, is_space2-plain_first c b h, all_spaces)
all_spaces-plain c (b ∷ d ∷ t) h =
    rw (is_space-plain c h, is_space2-plain_first c b h, is_space3-plain_first c b d h, all_spaces)

all_spaces-ends : (t s : Text) → EndsPlain t → all_spaces (t ++ s) ≡ false
unfolding all_spaces
all_spaces-ends [] s h = absurd h
all_spaces-ends (c ∷ []) s h = all_spaces-plain c s h
all_spaces-ends (a ∷ c ∷ []) [] h = elim (Bool-cases (is_space a)) [
  | inl e ↦ rw (e, is_space-plain c h, all_spaces)
  | inr e ↦ rw (e, is_space2-plain_last a c h, all_spaces)
]
all_spaces-ends (a ∷ c ∷ []) (x ∷ s) h = elim (Bool-cases (is_space a)) [
  | inl e ↦ rw (e, all_spaces-plain c (x ∷ s) h, all_spaces)
  | inr e ↦ rw (e, is_space2-plain_last a c h, is_space3-plain_second a c x h, all_spaces)
]
all_spaces-ends (a ∷ b ∷ c ∷ []) s h = elim (Bool-cases (is_space a)) [
  | inl e ↦ rw (e, all_spaces-ends (b ∷ c ∷ []) s h, all_spaces)
  | inr e ↦ elim (Bool-cases (is_space2 a b)) [
    | inl e2 ↦ rw (e, e2, all_spaces-plain c s h, all_spaces)
    | inr e2 ↦ rw (e, e2, is_space3-plain_last a b c h, all_spaces)
  ]
]
all_spaces-ends (a ∷ b ∷ c ∷ d ∷ t) s h = elim (Bool-cases (is_space a)) [
  | inl e ↦ rw (e, all_spaces-ends (b ∷ c ∷ d ∷ t) s h, all_spaces)
  | inr e ↦ elim (Bool-cases (is_space2 a b)) [
    | inl e2 ↦ rw (e, e2, all_spaces-ends (c ∷ d ∷ t) s h, all_spaces)
    | inr e2 ↦ elim (Bool-cases (is_space3 a b c)) [
      | inl e3 ↦ rw (e, e2, e3, all_spaces-ends (d ∷ t) s h, all_spaces)
      | inr e3 ↦ rw (e, e2, e3, all_spaces)
    ]
  ]
]

-- White space after a plain byte is cut off.
trim_right-ends : (t s : Text) → EndsPlain t → all_spaces s ≡ true → trim_right (t ++ s) ≡ t
unfolding trim_right
trim_right-ends [] s h e = absurd h
trim_right-ends (c ∷ []) [] h e = rw (all_spaces-plain c [] h, trim_right)
trim_right-ends (c ∷ []) (x ∷ s) h e = rw (all_spaces-plain c (x ∷ s) h, e, trim_right)
trim_right-ends (c ∷ d ∷ t) s h e =
    rw (all_spaces-ends (c ∷ d ∷ t) s h, trim_right-ends (d ∷ t) s h e, trim_right)

-- The first and the last byte are plain.
abbrev pub IsTrimmed : Text → Type 0
IsTrimmed [] = ⊥
IsTrimmed (c ∷ t) = IsPlain c × EndsPlain (c ∷ t)

pub trim_space-after : (t s : Text) → IsTrimmed t → all_spaces s ≡ true → trim_space (t ++ s) ≡ t
unfolding trim_space
trim_space-after [] s h e = absurd h
trim_space-after (c ∷ t) s h e =
    rw (trim_left-plain c (t ++ s) h.0) (trim_right-ends (c ∷ t) s h.1 e)

pub trim_space-blank : (t : Text) → IsTrimmed t → trim_space (32 ∷ t) ≡ t
unfolding trim_space all_spaces
trim_space-blank [] h = absurd h
trim_space-blank (c ∷ t) h =
    rw (trim_left-blank c t h.0)
      (ap trim_right (sym (append-nil (c ∷ t))) ∙ trim_right-ends (c ∷ t) [] h.1 refl)
