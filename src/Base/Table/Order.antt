-- ===== src/Base/Table/Order.antt =====
-- The order in which a Go program's `range` visits a map: any order of its entries.
use mathlib.Core.Bool.{false}
use mathlib.Core.Path.{◌≡◌, refl, sym, ap, ◌∙◌}
use mathlib.Core.List.{List, [], ◌∷◌, ◌++◌, append-nil, append_assoc}
use mathlib.Core.Option.{none, some}
use native.Mathlib.Omega.{arith}
use distributed_systems_go.Base.Tests.{if◌then◌else◌}
use distributed_systems_go.Base.Lists.{All}
use distributed_systems_go.Base.Bytes.{Text, eq_text, eq_text_iff}
use distributed_systems_go.Base.Table.{Table, lookup, insert, IsDistinct}

-- The same entries in another order.
pub data IsReordering {ℓ} {A : Type ℓ} : List A → List A → Type ℓ where
  nothing : IsReordering [] []
  first_same : (x : A) {xs ys : List A} → IsReordering xs ys → IsReordering (x ∷ xs) (x ∷ ys)
  swapped : (x y : A) (xs : List A) → IsReordering (x ∷ y ∷ xs) (y ∷ x ∷ xs)
  then_also : {xs ys zs : List A} → IsReordering xs ys → IsReordering ys zs → IsReordering xs zs

-- Every list is an order of itself.
pub IsReordering-refl {ℓ} : {A : Type ℓ} (xs : List A) → IsReordering xs xs
IsReordering-refl [] = nothing
IsReordering-refl (x ∷ xs) = first_same x (IsReordering-refl xs)

pub All-IsReordering {ℓ κ} :
    {A : Type ℓ} (P : A → Type κ) {xs ys : List A} → IsReordering xs ys → All P ys → All P xs
All-IsReordering P nothing h = h
All-IsReordering P (first_same x r) h = (h.0, All-IsReordering P r h.1)
All-IsReordering P (swapped x y xs) h = (h.1.0, (h.0, h.1.1))
All-IsReordering P (then_also r s) h = All-IsReordering P r (All-IsReordering P s h)

module _ {ℓ} {V : Type ℓ} where
  lookup-swapped :
      (k : Text) (x y : Text × V) (m : Table V)
      → lookup y.0 (x ∷ m) ≡ none
      → lookup k (x ∷ y ∷ m) ≡ lookup k (y ∷ x ∷ m)
  unfolding lookup
  lookup-swapped k (i, v) (j, w) m h =
      ground (arith, eq_text_iff i k, eq_text_iff j k, eq_text_iff i j)

  -- The order changes neither what is found nor that no key is listed twice.
  pub IsDistinct-IsReordering :
      {xs ys : Table V}
      → IsReordering xs ys
      → IsDistinct ys
      → IsDistinct xs × ((k : Text) → lookup k xs ≡ lookup k ys)
  unfolding lookup
  IsDistinct-IsReordering nothing d = (d, λ k. refl)
  IsDistinct-IsReordering (first_same (i, v) r) d =
      let (dx, same) = IsDistinct-IsReordering r d.1 in
      ((same i ∙ d.0, dx), λ k. ap (λ o. if eq_text i k then some v else o) (same k))
  IsDistinct-IsReordering (swapped (i, v) (j, w) xs) d =
      (ground (arith, eq_text_iff i j, eq_text_iff j i), λ k. lookup-swapped k (i, v) (j, w) xs d.0)
  IsDistinct-IsReordering (then_also r s) d =
      let (dy, same_y) = IsDistinct-IsReordering s d in
      let (dx, same_x) = IsDistinct-IsReordering r dy in (dx, λ k. same_x k ∙ same_y k)

  -- entries stored one after the other
  abbrev pub insert_all : Table V → Table V → Table V
  insert_all [] m = m
  insert_all ((k, v) ∷ hs) m = insert_all hs (insert k v m)

  insert-absent :
      (k : Text) (v : V) (m : Table V) → lookup k m ≡ none → insert k v m ≡ m ++ (k, v) ∷ []
  unfolding lookup insert
  insert-absent k v [] h = refl
  insert-absent k v ((i, w) ∷ m) h = ground (arith, insert-absent k v m)

  lookup-middle :
      (i k : Text) (v : V) (m hs : Table V)
      → lookup i (m ++ (k, v) ∷ hs) ≡ none
      → eq_text k i ≡ false
  unfolding lookup
  lookup-middle i k v [] hs h = ground arith
  lookup-middle i k v ((j, w) ∷ m) hs h = ground (arith, lookup-middle i k v m hs)

  lookup-before :
      (k : Text) (v : V) (m hs : Table V) → IsDistinct (m ++ (k, v) ∷ hs) → lookup k m ≡ none
  unfolding lookup
  lookup-before k v [] hs d = refl
  lookup-before k v ((j, w) ∷ m) hs d = ground (
    arith,
    eq_text_iff j k,
    eq_text_iff k j,
    lookup-middle j k v m hs d.0,
    lookup-before k v m hs d.1,
  )

  insert_all-append : (hs m : Table V) → IsDistinct (m ++ hs) → insert_all hs m ≡ m ++ hs
  insert_all-append [] m d = sym (append-nil m)
  insert_all-append ((k, v) ∷ hs) m d =
      let last : insert k v m ≡ m ++ (k, v) ∷ [] = insert-absent k v m (lookup-before k v m hs d) in
      let whole : (m ++ (k, v) ∷ []) ++ hs ≡ m ++ (k, v) ∷ hs = append_assoc m ((k, v) ∷ []) hs in
      ap (insert_all hs) last ∙ (insert_all-append hs (m ++ (k, v) ∷ []) (rw whole d) ∙ whole)

  -- Storing the entries of a map one after the other gives its entries, in their order.
  pub insert_all-distinct : (hs : Table V) → IsDistinct hs → insert_all hs [] ≡ hs
  insert_all-distinct hs d = insert_all-append hs [] d
