-- ===== src/Http/Strings/Split.antt =====
-- Splitting a text in front of which a part without the separator stands.
use distributed_systems_go.Base.{
  ℕ, ◌≡◌, ◌≢◌, refl, true, false, [], ◌∷◌, ◌++◌, some, none, arith, ◌==◌, ==_iff, All, Text,
}
use distributed_systems_go.Http.Strings.{split, cut}

-- The text holds no byte `c`.
abbrev pub Without : ℕ → Text → Type 0
Without c t = All (λ x. x ≢ c) t

pub ==_ne : (a b : ℕ) → a ≢ b → (a == b) ≡ false
==_ne a b h = ground arith

pub split-part : (c : ℕ) (t rest : Text) → Without c t → split c (t ++ c ∷ rest) ≡ t ∷ split c rest
unfolding split
split-part c [] rest h = let e : (c == c) ≡ true = (==_iff c c).1 refl in rw e
split-part c (x ∷ t) rest h = rw (==_ne x c h.0, split-part c t rest h.1)

pub split-last : (c : ℕ) (t : Text) → Without c t → split c t ≡ t ∷ []
unfolding split
split-last c [] h = refl
split-last c (x ∷ t) h = rw (==_ne x c h.0, split-last c t h.1)

pub cut-part : (c : ℕ) (t rest : Text) → Without c t → cut c (t ++ c ∷ rest) ≡ some (t, rest)
unfolding cut
cut-part c [] rest h = let e : (c == c) ≡ true = (==_iff c c).1 refl in rw e
cut-part c (x ∷ t) rest h = rw (==_ne x c h.0, cut-part c t rest h.1)

pub cut-none : (c : ℕ) (t : Text) → Without c t → cut c t ≡ none
unfolding cut
cut-none c [] h = refl
cut-none c (x ∷ t) h = rw (==_ne x c h.0, cut-none c t h.1)

pub Without-append : (c : ℕ) (xs ys : Text) → Without c xs → Without c ys → Without c (xs ++ ys)
Without-append c [] ys hx hy = hy
Without-append c (x ∷ xs) ys hx hy = (hx.0, Without-append c xs ys hx.1 hy)
