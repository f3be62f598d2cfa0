-- ===== src/Base/Bag.antt =====
-- Lists up to order: the abstract view of a store that promises only what it holds, and how often.
use mathlib.Core.Path.{◌≡◌, refl, ap, ◌∙◌, subst}
use mathlib.Core.List.{List, [], ◌∷◌, ◌++◌}
use mathlib.Core.Quot
use Prim.Native.Nat.{suc}
use distributed_systems_go.Base.Lists.{length}
use mathlib.Core.Quot.{Quot, Quot-set}
use distributed_systems_go.Base.Table.Order.{
  IsReordering, nothing, first_same, swapped, then_also, IsReordering-refl,
}

module _ {ℓ} {A : Type ℓ} where
  pub IsReordering-append :
      {xs ys : List A} (zs : List A) → IsReordering xs ys → IsReordering (xs ++ zs) (ys ++ zs)
  IsReordering-append zs nothing = IsReordering-refl zs
  IsReordering-append zs (first_same x r) = first_same x (IsReordering-append zs r)
  IsReordering-append zs (swapped x y xs) = swapped x y (xs ++ zs)
  IsReordering-append zs (then_also r s) =
      then_also (IsReordering-append zs r) (IsReordering-append zs s)

  pub append-IsReordering :
      (zs : List A) {xs ys : List A} → IsReordering xs ys → IsReordering (zs ++ xs) (zs ++ ys)
  append-IsReordering [] r = r
  append-IsReordering (z ∷ zs) r = first_same z (append-IsReordering zs r)

  pub length-IsReordering : {xs ys : List A} → IsReordering xs ys → length xs ≡ length ys
  length-IsReordering nothing = refl
  length-IsReordering (first_same x r) = ap suc (length-IsReordering r)
  length-IsReordering (swapped x y xs) = refl
  length-IsReordering (then_also r s) = length-IsReordering r ∙ length-IsReordering s

  pub of_path : {xs ys : List A} → xs ≡ ys → IsReordering xs ys
  of_path {xs} e = subst (λ ys. IsReordering xs ys) e (IsReordering-refl xs)

-- A bag: what a list holds, without its order.
abbrev pub Bag {ℓ} : Type ℓ → Type ℓ
Bag A = Quot (IsReordering {A = A})

module _ {ℓ} {A : Type ℓ} where
  abbrev pub of_list : List A → Bag A
  of_list = Quot.mk

  -- the items of a list put into a bag
  unfoldable pub put_all : List A → Bag A → Bag A
  put_all zs =
      Quot.lift Quot-set (λ xs. of_list (xs ++ zs))
        (λ xs ys r. Quot.sound (IsReordering-append zs r))

  -- Putting items in another order gives the same bag.
  pub put_all-IsReordering :
      {ys zs : List A} → IsReordering ys zs → (b : Bag A) → put_all ys b ≡ put_all zs b
  unfolding put_all
  put_all-IsReordering r =
      Quot.ind (λ b. Quot-set _ _) (λ xs. Quot.sound (append-IsReordering xs r))
