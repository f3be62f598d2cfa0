-- ===== src/Base/Table.antt =====
-- A Go map with string keys, as an association list.
pub mod Order
use mathlib.Core.Bool.{true, false}
use mathlib.Core.Path.{◌≡◌, refl}
use mathlib.Core.Logic.{inl, inr}
use mathlib.Core.List.{List, [], ◌∷◌}
use mathlib.Core.Option.{Option, none, some}
use native.Mathlib.Omega.{arith}
use distributed_systems_go.Base.Tests.{if◌then◌else◌, Bool-cases}
use distributed_systems_go.Base.Lists.{All}
use distributed_systems_go.Base.Bytes.{Text, eq_text, eq_text_iff}

abbrev pub Table {ℓ} : Type ℓ → Type ℓ
Table V = List (Text × V)

module _ {ℓ} {V : Type ℓ} where
  -- `v, ok := m[k]`
  unfoldable pub lookup : Text → Table V → Option V
  lookup k [] = none
  lookup k ((j, v) ∷ m) = if eq_text j k then some v else lookup k m

  -- `m[k] = v`
  unfoldable pub insert : Text → V → Table V → Table V
  insert k v [] = (k, v) ∷ []
  insert k v ((j, w) ∷ m) = if eq_text j k then (k, v) ∷ m else (j, w) ∷ insert k v m

  -- `delete(m, k)`
  unfoldable pub erase : Text → Table V → Table V
  erase k [] = []
  erase k ((j, w) ∷ m) = if eq_text j k then erase k m else (j, w) ∷ erase k m

  pub lookup-insert :
      (k j : Text) (v : V) (m : Table V)
      → lookup j (insert k v m) ≡ (if eq_text k j then some v else lookup j m)
  unfolding lookup insert
  lookup-insert k j v [] = refl
  lookup-insert k j v ((i, w) ∷ m) =
      ground (arith, eq_text_iff k j, eq_text_iff i k, eq_text_iff i j, lookup-insert k j v m)

  pub lookup-erase :
      (k j : Text) (m : Table V) → lookup j (erase k m) ≡ (if eq_text k j then none else lookup j m)
  unfolding lookup erase
  lookup-erase k j [] = ground arith
  lookup-erase k j ((i, w) ∷ m) =
      ground (arith, eq_text_iff k j, eq_text_iff i k, eq_text_iff i j, lookup-erase k j m)

  -- An absent key: deleting it changes nothing.
  pub erase-absent : (k : Text) (m : Table V) → lookup k m ≡ none → erase k m ≡ m
  unfolding lookup erase
  erase-absent k [] h = refl
  erase-absent k ((i, w) ∷ m) h = ground (arith, erase-absent k m)

  -- Storing under a new key and deleting it again gives the table back.
  pub erase-insert :
      (k : Text) (v : V) (m : Table V) → lookup k m ≡ none → erase k (insert k v m) ≡ m
  unfolding lookup erase insert
  erase-insert k v [] h = ground (arith, eq_text_iff k k)
  erase-insert k v ((i, w) ∷ m) h = ground (arith, eq_text_iff k k, erase-insert k v m)

  -- No key is listed twice.
  abbrev pub IsDistinct : Table V → Type ℓ
  IsDistinct [] = Unit
  IsDistinct ((k, v) ∷ m) = (lookup k m ≡ none) × IsDistinct m

  pub insert-IsDistinct :
      (k : Text) (v : V) (m : Table V) → IsDistinct m → IsDistinct (insert k v m)
  unfolding lookup insert
  insert-IsDistinct k v [] h = (refl, tt)
  insert-IsDistinct k v ((i, w) ∷ m) h =
      ground (
        arith,
        eq_text_iff i k,
        eq_text_iff k i,
        insert-IsDistinct k v m h.1,
        lookup-insert k i v m,
      )

  pub erase-IsDistinct : (k : Text) (m : Table V) → IsDistinct m → IsDistinct (erase k m)
  unfolding erase
  erase-IsDistinct k [] h = h
  erase-IsDistinct k ((i, w) ∷ m) h = ground (arith, erase-IsDistinct k m h.1, lookup-erase k i m)

module _ {ℓ κ} {V : Type ℓ} (P : Text × V → Type κ) where
  pub insert-All : (k : Text) (v : V) (m : Table V) → P (k, v) → All P m → All P (insert k v m)
  unfolding insert
  insert-All k v [] p h = (p, h)
  insert-All k v ((i, w) ∷ m) p h =
      elim (eq_text i k) as (λ b. All P (if b then (k, v) ∷ m else (i, w) ∷ insert k v m)) [
        | true ↦ (p, h.1)
        | false ↦ (h.0, insert-All k v m p h.1)
      ]

  pub erase-All : (k : Text) (m : Table V) → All P m → All P (erase k m)
  unfolding erase
  erase-All k [] h = h
  erase-All k ((i, w) ∷ m) h =
      elim (eq_text i k) as (λ b. All P (if b then erase k m else (i, w) ∷ erase k m)) [
        | true ↦ erase-All k m h.1
        | false ↦ (h.0, erase-All k m h.1)
      ]

  pub lookup-All : (k : Text) {v : V} (m : Table V) → All P m → lookup k m ≡ some v → P (k, v)
  unfolding lookup
  lookup-All k [] h e = cc
  lookup-All k {v} ((i, w) ∷ m) h e = elim (Bool-cases (eq_text i k)) [
    | inl same ↦
        let key : i ≡ k = (eq_text_iff i k).0 same in
        let found : some w ≡ some v = rw same at e in
        let val : w ≡ v = cc in rw (← key) (rw (← val) h.0)
    | inr other ↦ lookup-All k m h.1 (rw other at e)
  ]
