-- ===== src/Sorting/Insertion.antt =====
-- An insertion sort, which meets the contract of SortFunc: the contract can be met. (It is also what
-- Go's sort runs on short slices.)
use Prim.Native.Nat.{Ordering}
use mathlib.Core.List.{Permᴰ}
use mathlib.Core.List.Permᴰ
use omni_infra_provider_prox.Base.{◌≡◌, ◌≢◌, refl, List, [], ◌∷◌, arith}
use omni_infra_provider_prox.Sorting.{Comparison, IsWeakOrder, IsLeast, Ascending, SortFunc, IsSort}
use omni_infra_provider_prox.Sorting.Orders.{All-perm}

module _ {A : Type 0} where
  unfoldable pub insert_by : Comparison A → A → List A → List A
  insert_by cmp x [] = x ∷ []
  insert_by cmp x (y ∷ ys) =
      let rest = insert_by cmp x ys in elim (cmp y x) [ Ordering.gt ↦ x ∷ y ∷ ys | _ ↦ y ∷ rest ]

  unfoldable pub insertion_sort : SortFunc A
  unfolding insert_by
  insertion_sort cmp [] = []
  insertion_sort cmp (x ∷ xs) = insert_by cmp x (insertion_sort cmp xs)

  insert_by-perm : (cmp : Comparison A) (x : A) (xs : List A) → Permᴰ (insert_by cmp x xs) (x ∷ xs)
  unfolding insert_by
  insert_by-perm cmp x [] = Permᴰ.refl (x ∷ [])
  insert_by-perm cmp x (y ∷ ys) =
      step (cmp y x)
        (Permᴰ.trans (Permᴰ.cons refl (insert_by-perm cmp x ys)) (Permᴰ.swap refl refl))
    where
      step :
          (o : Ordering)
          → Permᴰ (y ∷ insert_by cmp x ys) (x ∷ y ∷ ys)
          → Permᴰ (elim o [ Ordering.gt ↦ x ∷ y ∷ ys | _ ↦ y ∷ insert_by cmp x ys ]) (x ∷ y ∷ ys)
      step Ordering.gt p = Permᴰ.refl (x ∷ y ∷ ys)
      step Ordering.eq p = p
      step Ordering.lt p = p

  insertion_sort-perm : (cmp : Comparison A) (xs : List A) → Permᴰ (insertion_sort cmp xs) xs
  unfolding insertion_sort
  insertion_sort-perm cmp [] = Permᴰ.nil
  insertion_sort-perm cmp (x ∷ xs) =
      Permᴰ.trans (insert_by-perm cmp x (insertion_sort cmp xs))
        (Permᴰ.cons refl (insertion_sort-perm cmp xs))

  module _ {cmp : Comparison A} (w : IsWeakOrder cmp) where
    below_head :
        (x y : A) (ys : List A) → cmp y x ≢ Ordering.lt → IsLeast cmp y ys → IsLeast cmp x ys
    below_head x y [] h hs = tt
    below_head x y (z ∷ zs) h hs = (
      λ e. ground (arith, w.mirror y x, w.mirror z y, w.mirror z x, w.trans x y z, hs.0, h),
      below_head x y zs h hs.1,
    )

    insert_by-Ascending :
        (x : A) (xs : List A) → Ascending cmp xs → Ascending cmp (insert_by cmp x xs)
    unfolding insert_by
    insert_by-Ascending x [] h = (tt, tt)
    insert_by-Ascending x (y ∷ ys) h = step (cmp y x) refl (insert_by-Ascending x ys h.1)
      where
        step :
            (o : Ordering)
            → cmp y x ≡ o
            → Ascending cmp (insert_by cmp x ys)
            → Ascending cmp (elim o [ Ordering.gt ↦ x ∷ y ∷ ys | _ ↦ y ∷ insert_by cmp x ys ])
        step Ordering.gt e p = ((λ q. cc, below_head x y ys (λ q. cc) h.0), h)
        step Ordering.eq e p = (
          All-perm (λ b. cmp b y ≢ Ordering.lt) (Permᴰ.symm (insert_by-perm cmp x ys))
              (λ q. ground (arith, w.mirror y x), h.0),
          p,
        )
        step Ordering.lt e p = (
          All-perm (λ b. cmp b y ≢ Ordering.lt) (Permᴰ.symm (insert_by-perm cmp x ys))
              (λ q. ground (arith, w.mirror y x), h.0),
          p,
        )

    insertion_sort-Ascending : (xs : List A) → Ascending cmp (insertion_sort cmp xs)
    unfolding insertion_sort
    insertion_sort-Ascending [] = tt
    insertion_sort-Ascending (x ∷ xs) =
        insert_by-Ascending x (insertion_sort cmp xs) (insertion_sort-Ascending xs)

  pub insertion_sort-IsSort : IsSort insertion_sort
  insertion_sort-IsSort = record {
    perm = insertion_sort-perm;
    ascending = λ cmp xs w. insertion_sort-Ascending w xs;
  }
