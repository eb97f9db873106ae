-- ===== src/Sorting.antt =====
-- Go's `cmp.Compare` and `slices.SortFunc`. A comparison answers with an `Ordering` in place of -1, 0
-- and 1. SortFunc is not stable, so its result is not a function of the comparison: the model takes the
-- sort as a parameter with the documented contract, a rearrangement in ascending order for every
-- comparison that is a strict weak order.
pub mod Orders
pub mod Insertion
use Prim.Native.Nat.{Ordering}
use mathlib.Core.List.{Permᴰ}
use omni_infra_provider_prox.Base.{◌≡◌, ◌≢◌, List, [], ◌∷◌, All}

abbrev pub Comparison : Type 0 → Type 0
Comparison A = A → A → Ordering

-- `-c` of a comparison's answer
abbrev pub negate : Ordering → Ordering
negate Ordering.lt = Ordering.gt
negate Ordering.eq = Ordering.eq
negate Ordering.gt = Ordering.lt

-- `if c := first; c != 0 { return c }; return second`
abbrev pub then_by : Ordering → Ordering → Ordering
then_by Ordering.lt o = Ordering.lt
then_by Ordering.eq o = o
then_by Ordering.gt o = Ordering.gt

-- A strict weak order, as the documentation of SortFunc asks for.
pub record IsWeakOrder {A : Type 0} (cmp : Comparison A) : Type 0 where
  pub mirror : (a b : A) → cmp b a ≡ negate (cmp a b)
  pub trans : (a b c : A) → cmp a b ≢ Ordering.gt → cmp b c ≢ Ordering.gt → cmp a c ≢ Ordering.gt

-- Nothing in the list comes before `a`.
abbrev pub IsLeast : {A : Type 0} → Comparison A → A → List A → Type 0
IsLeast cmp a = All (λ b. cmp b a ≢ Ordering.lt)

abbrev pub Ascending : {A : Type 0} → Comparison A → List A → Type 0
Ascending cmp [] = Unit {0}
Ascending cmp (x ∷ xs) = IsLeast cmp x xs × Ascending cmp xs

abbrev pub SortFunc : Type 0 → Type 0
SortFunc A = Comparison A → List A → List A

pub record IsSort {A : Type 0} (sort : SortFunc A) : Type 0 where
  pub perm : (cmp : Comparison A) (xs : List A) → Permᴰ (sort cmp xs) xs
  pub ascending : (cmp : Comparison A) (xs : List A) → IsWeakOrder cmp → Ascending cmp (sort cmp xs)
