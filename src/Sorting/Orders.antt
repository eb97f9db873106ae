-- ===== src/Sorting/Orders.antt =====
-- How the comparisons of the program are built, and that they stay strict weak orders.
use Prim.Native.Nat.{Ordering, compare}
use Prim.Native.Char.{Char, code}
use Prim.Native.String.{String, compare as compare_text}
use Prim.Native.String.compare as compare_clauses
use mathlib.Core.List.{Permᴰ}
use mathlib.Core.List.{Memᴰ}
use omni_infra_provider_prox.Base.{
  ◌≡◌, ◌≢◌, ◌∙◌, refl, subst, Option, none, some, List, [], ◌∷◌, All, arith,
}
use omni_infra_provider_prox.Sorting.{
  Comparison, negate, then_by, IsWeakOrder, IsLeast, Ascending, SortFunc, IsSort,
}

pub compare-IsWeakOrder : IsWeakOrder compare
compare-IsWeakOrder = record { mirror = λ a b. grind arith; trans = λ a b c p q. grind arith }

module _ {A B : Type 0} (f : A → B) {cmp : Comparison B} (w : IsWeakOrder cmp) where
  pub IsWeakOrder-on : IsWeakOrder (λ (a b : A). cmp (f a) (f b))
  IsWeakOrder-on = record {
    mirror = λ a b. w.mirror (f a) (f b);
    trans = λ a b c. w.trans (f a) (f b) (f c);
  }

module _ {A : Type 0} {cmp : Comparison A} (w : IsWeakOrder cmp) where
  pub IsWeakOrder-negate : IsWeakOrder (λ (a b : A). negate (cmp a b))
  IsWeakOrder-negate = record {
    mirror = λ a b. ground (arith, w.mirror a b);
    trans = λ a b c p q. ground (arith, w.mirror a b, w.mirror b c, w.mirror a c, w.trans c b a);
  }

  pub not-lt_self : (a : A) → cmp a a ≢ Ordering.lt
  not-lt_self a e = ground (arith, w.mirror a a)

module _ {A : Type 0} {first second : Comparison A} (v : IsWeakOrder first)
    (w : IsWeakOrder second) where
  pub IsWeakOrder-then_by : IsWeakOrder (λ (a b : A). then_by (first a b) (second a b))
  IsWeakOrder-then_by = record {
    mirror = λ a b. ground (arith, v.mirror a b, w.mirror a b);
    trans = λ a b c p q. ground (
      arith,
      v.mirror a b,
      v.mirror b c,
      v.mirror a c,
      v.trans a b c,
      v.trans b c a,
      v.trans c a b,
      w.trans a b c,
    );
  }

-- A predicate of all items holds of the items of a rearrangement.
pub All-perm {κ} :
    {A : Type 0} (P : A → Type κ) {xs ys : List A} → Permᴰ xs ys → All P xs → All P ys
All-perm P Permᴰ.nil h = tt
All-perm P (Permᴰ.cons e d) (h, hs) = (subst P e h, All-perm P d hs)
All-perm P (Permᴰ.swap e e') h = (subst P e' h.1.0, (subst P e h.0, h.1.1))
All-perm P (Permᴰ.trans d d') h = All-perm P d' (All-perm P d h)

pub Memᴰ-perm : {A : Type 0} {a : A} {xs ys : List A} → Permᴰ xs ys → Memᴰ a xs → Memᴰ a ys
Memᴰ-perm Permᴰ.nil m = elim m [ ]
Memᴰ-perm (Permᴰ.cons e d) (Memᴰ.head p) = Memᴰ.head (p ∙ e)
Memᴰ-perm (Permᴰ.cons e d) (Memᴰ.tail m) = Memᴰ.tail (Memᴰ-perm d m)
Memᴰ-perm (Permᴰ.swap e e') (Memᴰ.head p) = Memᴰ.tail (Memᴰ.head (p ∙ e))
Memᴰ-perm (Permᴰ.swap e e') (Memᴰ.tail (Memᴰ.head p)) = Memᴰ.head (p ∙ e')
Memᴰ-perm (Permᴰ.swap e e') (Memᴰ.tail (Memᴰ.tail m)) = Memᴰ.tail (Memᴰ.tail m)
Memᴰ-perm (Permᴰ.trans d d') m = Memᴰ-perm d' (Memᴰ-perm d m)

-- `xs[0]`; none is the panic of an empty slice
abbrev pub first_of_slice : {A : Type 0} → List A → Option A
first_of_slice [] = none
first_of_slice (x ∷ xs) = some x

-- The chosen item is of the list, and nothing of the list comes before it.
abbrev pub IsChoice : {A : Type 0} → Comparison A → List A → A → Type 0
IsChoice cmp xs a = Memᴰ a xs × IsLeast cmp a xs

IsChoice-of :
    {A : Type 0} {cmp : Comparison A}
    → IsWeakOrder cmp
    → (xs sorted : List A) → xs ≢ []
    → Permᴰ sorted xs
    → Ascending cmp sorted
    → (a : A) × (first_of_slice sorted ≡ some a) × IsChoice cmp xs a
IsChoice-of w [] [] ne p h = absurd (ne refl)
IsChoice-of {A} w (x ∷ xs) [] ne p h = absurd (All-perm {A = A} (λ b. ⊥) p tt).0
IsChoice-of {cmp = cmp} w xs (y ∷ ys) ne p h = (
  y,
  refl,
  (Memᴰ-perm p (Memᴰ.head refl), All-perm (λ b. cmp b y ≢ Ordering.lt) p (not-lt_self w y, h.0)),
)

-- The head of the sorted list is a choice.
pub sort-IsChoice :
    {A : Type 0} {sort : SortFunc A} {cmp : Comparison A}
    → IsSort sort
    → IsWeakOrder cmp
    → (xs : List A) → xs ≢ []
    → (a : A) × (first_of_slice (sort cmp xs) ≡ some a) × IsChoice cmp xs a
sort-IsChoice {sort = sort} {cmp = cmp} s w xs ne =
    IsChoice-of w xs (sort cmp xs) ne (s.perm cmp xs) (s.ascending cmp xs w)

-- The order of texts by code point, which is also Go's order by byte. The clauses of the native
-- comparison, as equations.
nil-cons_lem : (d : Char) (t : String) → compare_text "" (String.◌∷◌ d t) ≡ Ordering.lt
nil-cons_lem d t = λ i. compare_clauses.nil-cons d t i

cons-nil_lem : (c : Char) (s : String) → compare_text (String.◌∷◌ c s) "" ≡ Ordering.gt
cons-nil_lem c s = λ i. compare_clauses.cons-nil c s i

cons-cons_lem :
    (c d : Char) (s t : String)
    → compare_text (String.◌∷◌ c s) (String.◌∷◌ d t)
      ≡ then_by (compare (code c) (code d)) (compare_text s t)
cons-cons_lem c d s t = rw compare_clauses.cons-cons (ground arith)

text-mirror : (s t : String) → compare_text t s ≡ negate (compare_text s t)
text-mirror String.[] String.[] = refl
text-mirror String.[] (String.◌∷◌ d t) = rw (nil-cons_lem d t, cons-nil_lem d t)
text-mirror (String.◌∷◌ c s) String.[] = rw (nil-cons_lem c s, cons-nil_lem c s)
text-mirror (String.◌∷◌ c s) (String.◌∷◌ d t) =
    ground (arith, cons-cons_lem c d s t, cons-cons_lem d c t s, text-mirror s t)

text_trans :
    (s t u : String)
    → compare_text s t ≢ Ordering.gt
    → compare_text t u ≢ Ordering.gt
    → compare_text s u ≢ Ordering.gt
text_trans String.[] String.[] u p q = q
text_trans String.[] (String.◌∷◌ d t) String.[] p q = absurd (q (cons-nil_lem d t))
text_trans String.[] (String.◌∷◌ d t) (String.◌∷◌ e u) p q = ground (arith, nil-cons_lem e u)
text_trans (String.◌∷◌ c s) String.[] u p q = absurd (p (cons-nil_lem c s))
text_trans (String.◌∷◌ c s) (String.◌∷◌ d t) String.[] p q = absurd (q (cons-nil_lem d t))
text_trans (String.◌∷◌ c s) (String.◌∷◌ d t) (String.◌∷◌ e u) p q =
    ground
      (arith, cons-cons_lem c d s t, cons-cons_lem d e t u, cons-cons_lem c e s u, text_trans s t u)

pub compare_text-IsWeakOrder : IsWeakOrder compare_text
compare_text-IsWeakOrder = record { mirror = text-mirror; trans = text_trans }
