-- ===== src/Database/Service/Expiry.antt =====
-- What `cleanupExpiredTransactions` leaves of the prepared transactions.
use distributed_systems_go.Base.{
  ℕ, ◌≡◌, refl, ◌∙◌, Bool, false, ◌&&◌, ◌||◌, inl, inr, Bool-cases, [], ◌∷◌, Option, none, some,
  arith, if◌then◌else◌, Text, eq_text, eq_text_iff, All,
}
use distributed_systems_go.Base.Table.{
  Table, lookup, erase, lookup-erase, IsDistinct, erase-IsDistinct, erase-All,
}
use distributed_systems_go.Types.{Time}
use distributed_systems_go.Database.Service.{TransactionState, is_expired, remove_expired}

module _ (now : Time) (timeout : ℕ) where
  -- some entry under the key is expired
  expires : Text → Table TransactionState → Bool
  expires k [] = false
  expires k ((i, t) ∷ m) = (eq_text i k && is_expired now timeout t) || expires k m

  -- an entry that survives the clean-up
  abbrev pub fresh : Option TransactionState → Option TransactionState
  fresh none = none
  fresh (some t) = if is_expired now timeout t then none else some t

  lookup-remove_expired :
      (k : Text) (es m : Table TransactionState)
      → lookup k (remove_expired now timeout es m) ≡ (if expires k es then none else lookup k m)
  unfolding remove_expired expires
  lookup-remove_expired k [] m = refl
  lookup-remove_expired k ((i, t) ∷ es) m = elim (Bool-cases (is_expired now timeout t)) [
    | inl old ↦
        rw (old, lookup-remove_expired k es (erase i m)) (ground (arith, old, lookup-erase i k m))
    | inr young ↦ rw (young, lookup-remove_expired k es m) (ground (arith, young))
  ]

  expires-absent : (k : Text) (m : Table TransactionState) → lookup k m ≡ none → expires k m ≡ false
  unfolding expires lookup
  expires-absent k [] h = refl
  expires-absent k ((i, t) ∷ m) h = ground (arith, expires-absent k m)

  expires-lookup :
      (k : Text) (m : Table TransactionState)
      → IsDistinct m
      → (if expires k m then none else lookup k m) ≡ fresh (lookup k m)
  unfolding expires lookup
  expires-lookup k [] d = refl
  expires-lookup k ((i, t) ∷ m) d =
      ground (arith, eq_text_iff i k, expires-lookup k m d.1, expires-absent k m)

  -- With distinct keys the clean-up removes exactly the expired entries.
  pub lookup-remove_expired_self :
      (k : Text) (m : Table TransactionState)
      → IsDistinct m
      → lookup k (remove_expired now timeout m m) ≡ fresh (lookup k m)
  lookup-remove_expired_self k m d = lookup-remove_expired k m m ∙ expires-lookup k m d

  pub remove_expired-IsDistinct :
      (es m : Table TransactionState) → IsDistinct m → IsDistinct (remove_expired now timeout es m)
  unfolding remove_expired
  remove_expired-IsDistinct [] m d = d
  remove_expired-IsDistinct ((i, t) ∷ es) m d = elim (Bool-cases (is_expired now timeout t)) [
    | inl old ↦ rw old (remove_expired-IsDistinct es (erase i m) (erase-IsDistinct i m d))
    | inr young ↦ rw young (remove_expired-IsDistinct es m d)
  ]

  pub remove_expired-All :
      (P : Text × TransactionState → Type 0) (es m : Table TransactionState)
      → All P m
      → All P (remove_expired now timeout es m)
  unfolding remove_expired
  remove_expired-All P [] m h = h
  remove_expired-All P ((i, t) ∷ es) m h = elim (Bool-cases (is_expired now timeout t)) [
    | inl old ↦ rw old (remove_expired-All P es (erase i m) (erase-All P i m h))
    | inr young ↦ rw young (remove_expired-All P es m h)
  ]
