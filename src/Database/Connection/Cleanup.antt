-- ===== src/Database/Connection/Cleanup.antt =====
-- The clients of the coordinator are made all or none, and no connection is left open.
use distributed_systems_go.Base.{
  map-append, ℕ, suc, ◌+◌, ◌≤◌, ◌<◌, ◌≡◌, refl, sym, ap, ◌∙◌, arith, ltb, ltb→lt, ltb→le,
  Bool-cases, List, [], ◌∷◌, ◌++◌, append_assoc, append-nil, ◌⊎◌, inl, inr, Option, Option-cases,
  none, some, length, length-append, Text, text, Result, ok, err,
}
use distributed_systems_go.Database.Connection.{
  Network, Connection, TwoPhaseCommitClient, client_factory, connect_all, with_timeout,
  two_phase_commit_client_factory, close_all,
}
use distributed_systems_go.Database.Connection.Close.{
  numbers, targets, IsNumbered, IsOver, IsFrom-append, close_made-opened, close_clients-made,
}

-- One of the connections from `i` on, and before `last`, fails.
abbrev pub Fails : (ℕ → Option Text) → ℕ → ℕ → Type 0
Fails dials i last = (j : ℕ) × (error : Text) × (i ≤ j) × (j < last) × (dials j ≡ some error)

abbrev IsMade : List ℕ → ℕ → List Text → Type 0 → Network × Result (List Connection) → Type 0
IsMade base n wanted Failed (s, ok cs) = IsOver base n cs s × (targets cs ≡ wanted)
IsMade base n wanted Failed (s, err e) = (s.opened ≡ base) × Failed

-- a weaker reason of failing
IsMade-weaker :
    (base : List ℕ) (n : ℕ) (wanted : List Text) {P Q : Type 0}
    (r : Network × Result (List Connection))
    → (P → Q)
    → IsMade base n wanted P r
    → IsMade base n wanted Q r
IsMade-weaker base n wanted (s, ok cs) f h = h
IsMade-weaker base n wanted (s, err e) f h = (h.0, f h.1)

client_factory-IsOver :
    (base : List ℕ) (n : ℕ) (addr : Text) (made : List Connection) (s : Network)
    → IsOver base n made s
    → s.next ≡ n + length made
    → IsOver base n
        (made ++ record { number = s.next; target = addr } ∷ [])
        (client_factory none addr s).0
unfolding client_factory
client_factory-IsOver base n addr made s (below, from, e) next =
    let c : Connection = record { number = s.next; target = addr } in
    (
      below,
      IsFrom-append n made c from next,
      ap (λ xs. xs ++ s.next ∷ []) e
          ∙ append_assoc base (numbers made) (s.next ∷ [])
          ∙ ap (λ xs. base ++ xs) (sym (map-append (λ d. d.number) made (c ∷ []))),
    )

client_factory-none :
    (dial : Option Text) (addr : Text) (s : Network)
    → dial ≡ none
    → client_factory dial addr s
      ≡ ((client_factory none addr s).0, ok (record { number = s.next; target = addr }))
unfolding client_factory
client_factory-none dial addr s e = rw e refl

client_factory-some :
    (dial : Option Text) (error addr : Text) (s : Network)
    → dial ≡ some error
    → client_factory dial addr s ≡ (s, err (text "failed to connect to database server: " ++ error))
unfolding client_factory
client_factory-some dial error addr s e = rw e refl

client_factory-next : (addr : Text) (s : Network) → (client_factory none addr s).0.next ≡ s.next + 1
unfolding client_factory
client_factory-next addr s = refl

later-Fails :
    (dials : ℕ → Option Text) (i n : ℕ)
    → Fails dials (i + 1) (i + 1 + n)
    → Fails dials i (i + suc n)
later-Fails dials i n (j, error, low, high, e) = (j, error, omega arith, omega arith, e)

connect_all-IsMade :
    (base : List ℕ) (n : ℕ) (dials : ℕ → Option Text) (i : ℕ) (addrs : List Text)
    (made : List Connection) (s : Network)
    → IsOver base n made s
    → s.next ≡ n + length made
    → IsMade base n
        (targets made ++ addrs)
        (Fails dials i (i + length addrs))
        (connect_all dials i addrs made s)
unfolding connect_all
connect_all-IsMade base n dials i [] made s over next = (over, sym (append-nil (targets made)))
connect_all-IsMade base n dials i (addr ∷ addrs) made s over next = elim (Option-cases (dials i)) [
  | inl e ↦
      let c : Connection = record { number = s.next; target = addr } in
      let s' : Network = (client_factory none addr s).0 in
      let longer : s'.next ≡ n + length (made ++ c ∷ []) =
        omega (arith, length-append made (c ∷ []), client_factory-next addr s) in
      let wanted : targets (made ++ c ∷ []) ++ addrs ≡ targets made ++ addr ∷ addrs =
        ap (λ xs. xs ++ addrs) (map-append (λ d. d.target) made (c ∷ []))
        ∙ append_assoc (targets made) (addr ∷ []) addrs in
      let made_one : ◌≡◌ {A = Network × Result Connection} (client_factory (dials i) addr s)
          (s', ok c) =
        client_factory-none (dials i) addr s e in
      rw (made_one, connect_all, made_one, sym wanted)
        (IsMade-weaker base n _ (connect_all dials (i + 1) addrs (made ++ c ∷ []) s')
          (later-Fails dials i (length addrs))
          (connect_all-IsMade base n dials (i + 1) addrs (made ++ c ∷ []) s'
            (client_factory-IsOver base n addr made s over next) longer))
  | inr (error, e) ↦
      let failed : ◌≡◌ {A = Network × Result Connection} (client_factory (dials i) addr s)
          (s, err (text "failed to connect to database server: " ++ error)) =
        client_factory-some (dials i) error addr s e in
      rw (failed, connect_all, failed)
        (close_made-opened base n made s over, (i, error, omega arith, omega arith, e))
]

-- what the factory leaves, given the connections that were open before: on success one client for
-- each address, in order, each with a connection of its own that `Close` closes again, and on
-- failure, which has a reason, no further connection
abbrev pub IsClean :
    (ℕ → Option Text) → List ℕ → List Text → Network × Result TwoPhaseCommitClient → Type 0
IsClean dials base addrs (s, ok t) =
    (2 ≤ length addrs)
    × (targets t.clients ≡ addrs)
    × (s.opened ≡ base ++ numbers t.clients)
    × ((errors : ℕ → Option Text) → (close_all errors t s).0.opened ≡ base)
IsClean dials base addrs (s, err e) =
    (s.opened ≡ base) × ((length addrs < 2) ⊎ Fails dials 0 (length addrs))

connect_all-IsClean :
    (dials : ℕ → Option Text) (base : List ℕ) (n : ℕ) (addrs : List Text)
    (r : Network × Result (List Connection))
    → 2 ≤ length addrs
    → IsMade base n addrs (Fails dials 0 (0 + length addrs)) r
    → IsClean dials base addrs (r.0, with_timeout r.1)
unfolding close_all
connect_all-IsClean dials base n addrs (s, ok cs) two (over, made) = (
  two,
  made,
  over.2,
  λ errors.
      ap (λ t. t.opened) (close_clients-made errors 0 cs none s)
      ∙ close_made-opened base n cs s over,
)
connect_all-IsClean dials base n addrs (s, err e) two (same, (j, error, low, high, found)) =
    (same, inr (j, error, low, omega arith, found))

-- The factory either makes one client for each of at least two addresses, in their order, with a connection each
-- beside those that were open, which `Close` closes again whatever the single closings return; or it
-- returns an error, because there are fewer than two addresses or one of the connections fails, and
-- the open connections are the ones from before.
pub two_phase_commit_client_factory-IsClean :
    (dials : ℕ → Option Text) (addrs : List Text) (s : Network)
    → IsNumbered s
    → IsClean dials s.opened addrs (two_phase_commit_client_factory dials addrs s)
unfolding two_phase_commit_client_factory
two_phase_commit_client_factory-IsClean dials addrs s numbered =
    elim (Bool-cases (ltb (length addrs) 2)) [
      | inl e ↦ rw e (refl, inl (ltb→lt (length addrs) 2 e))
      | inr e ↦ rw e (
          connect_all-IsClean dials s.opened s.next addrs (connect_all dials 0 addrs [] s)
            (ltb→le (length addrs) 2 e)
            (connect_all-IsMade s.opened s.next dials 0 addrs [] s
              (numbered, tt, sym (append-nil s.opened)) (omega arith)))
    ]
