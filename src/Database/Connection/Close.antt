-- ===== src/Database/Connection/Close.antt =====
-- Closing the connections that were opened last leaves the others open.
use distributed_systems_go.Base.{
  ℕ, ◌+◌, ◌==◌, ==_iff, ◌≤◌, ◌<◌, ◌≡◌, refl, ap, ap₂, ◌∙◌, arith, Bool, true, false, not, List, [],
  ◌∷◌, ◌++◌, map, append-nil, Option, keep, keep-append, length, All, Text,
}
use distributed_systems_go.Database.Connection.{
  Network, Connection, close, close_made, close_clients, or_last,
}

-- the numbers of the connections
abbrev pub numbers : List Connection → List ℕ
numbers cs = map (λ c. c.number) cs

abbrev pub targets : List Connection → List Text
targets cs = map (λ c. c.target) cs

-- The open connections have numbers below the next one.
abbrev pub IsNumbered : Network → Type 0
IsNumbered s = All (λ i. i < s.next) s.opened

-- numbered in order, from `n` on
abbrev pub IsFrom : ℕ → List Connection → Type 0
IsFrom n [] = Unit
IsFrom n (c ∷ cs) = (c.number ≡ n) × IsFrom (n + 1) cs

==-false : (a b : ℕ) → (a ≡ b → ⊥) → (a == b) ≡ false
==-false a b h = ground arith

keep-below :
    (n m : ℕ) (xs : List ℕ) → n ≤ m → All (λ i. i < n) xs → keep (λ i. not (i == m)) xs ≡ xs
keep-below n m [] le h = refl
keep-below n m (x ∷ xs) le h =
    let other : (x == m) ≡ false = ==-false x m (λ e. omega (arith, h.0)) in
    rw other (ap (λ ys. x ∷ ys) (keep-below n m xs le h.1))

keep-above :
    (n m : ℕ) (cs : List Connection)
    → n < m
    → IsFrom m cs
    → keep (λ i. not (i == n)) (numbers cs) ≡ numbers cs
keep-above n m [] less h = refl
keep-above n m (c ∷ cs) less h =
    let other : (c.number == n) ≡ false = ==-false c.number n (λ e. omega (arith, h.0)) in
    rw other (ap (λ ys. c.number ∷ ys) (keep-above n (m + 1) cs (omega arith) h.1))

below_more : (n : ℕ) (xs : List ℕ) → All (λ i. i < n) xs → All (λ i. i < n + 1) xs
below_more n [] h = tt
below_more n (x ∷ xs) h = (omega (arith, h.0), below_more n xs h.1)

pub IsFrom-append :
    (n : ℕ) (cs : List Connection) (c : Connection)
    → IsFrom n cs
    → c.number ≡ n + length cs
    → IsFrom n (cs ++ c ∷ [])
IsFrom-append n [] c h e = (omega arith, tt)
IsFrom-append n (d ∷ cs) c h e = (h.0, IsFrom-append (n + 1) cs c h.1 (omega arith))

-- The connections `base` were open before, and those of `cs` were opened since.
abbrev pub IsOver : List ℕ → ℕ → List Connection → Network → Type 0
IsOver base n cs s = All (λ i. i < n) base × IsFrom n cs × (s.opened ≡ base ++ numbers cs)

close-IsOver :
    (base : List ℕ) (n : ℕ) (c : Connection) (cs : List Connection) (s : Network)
    → IsOver base n (c ∷ cs) s
    → IsOver base (n + 1) cs (close c s)
unfolding close
close-IsOver base n c cs s (below, from, e) =
    let test : ℕ → Bool = λ i. not (i == c.number) in
    let same : (c.number == c.number) ≡ true = (==_iff c.number c.number).1 refl in
    let kept_base : keep test base ≡ base =
      keep-below n c.number base (omega (arith, from.0)) below in
    let kept_new : keep test (numbers (c ∷ cs)) ≡ numbers cs =
      rw same (keep-above c.number (n + 1) cs (omega (arith, from.0)) from.1) in
    (
      below_more n base below,
      from.1,
      ap (keep test) e
          ∙ keep-append test base (numbers (c ∷ cs))
          ∙ ap₂ (λ xs ys. xs ++ ys) kept_base kept_new,
    )

-- Closing the clients leaves the connections that were open before them.
pub close_made-opened :
    (base : List ℕ) (n : ℕ) (cs : List Connection) (s : Network)
    → IsOver base n cs s
    → (close_made cs s).opened ≡ base
unfolding close_made
close_made-opened base n [] s (below, from, e) = e ∙ append-nil base
close_made-opened base n (c ∷ cs) s h =
    close_made-opened base (n + 1) cs (close c s) (close-IsOver base n c cs s h)

pub close_clients-made :
    (errors : ℕ → Option Text) (i : ℕ) (cs : List Connection) (last : Option Text) (s : Network)
    → (close_clients errors i cs last s).0 ≡ close_made cs s
unfolding close_clients close_made
close_clients-made errors i [] last s = refl
close_clients-made errors i (c ∷ cs) last s =
    close_clients-made errors (i + 1) cs (or_last (errors i) last) (close c s)
