-- ===== src/Base/Maps.antt =====
-- Go maps with text keys, as association lists. The order of the entries stands for the order in which
-- a `range` meets them, which Go leaves open.
use Prim.Native.String.{String}
use mathlib.Core.Path.{◌≡◌, refl, subst}
use mathlib.Core.Bool.{Bool, true, false}
use mathlib.Core.Option.{Option, none, some}
use mathlib.Core.Logic.{inl, inr}
use mathlib.Core.List.{List, [], ◌∷◌, Permᴰ}
use mathlib.Core.List.Permᴰ
use native.Mathlib.Omega.{arith}
use text.Mathlib.TextEquality.{eq_iff}
use omni_infra_provider_prox.Base.Tests.{◌=ₜ◌, if◌then◌else◌, Bool-cases}
use omni_infra_provider_prox.Base.Lists.{All}

abbrev pub Map : Type 0 → Type 0
Map V = List (String × V)

module _ {V : Type 0} where
  -- v, ok := m[k]
  unfoldable pub lookup : String → Map V → Option V
  lookup k [] = none
  lookup k ((j, v) ∷ m) = if j =ₜ k then some v else lookup k m

  -- delete(m, k)
  unfoldable pub delete : String → Map V → Map V
  delete k [] = []
  delete k ((j, v) ∷ m) = let rest = delete k m in if j =ₜ k then rest else (j, v) ∷ rest

  -- m[k] = v
  unfoldable pub put : String → V → Map V → Map V
  put k v m = (k, v) ∷ delete k m

  pub lookup-delete :
      (k j : String) (m : Map V) → lookup j (delete k m) ≡ (if k =ₜ j then none else lookup j m)
  unfolding lookup delete
  lookup-delete k j [] = ground arith
  lookup-delete k j ((i, v) ∷ m) =
      ground (arith, lookup-delete k j m, eq_iff i k, eq_iff i j, eq_iff k j)

  pub lookup-put :
      (k j : String) (v : V) (m : Map V)
      → lookup j (put k v m) ≡ (if k =ₜ j then some v else lookup j m)
  unfolding lookup put
  lookup-put k j v m = ground (arith, lookup-delete k j m)

  pub delete_missing : (k : String) (m : Map V) → lookup k m ≡ none → delete k m ≡ m
  unfolding lookup delete
  delete_missing k [] h = refl
  delete_missing k ((i, v) ∷ m) h = ground (arith, delete_missing k m)

  pub delete-delete : (k : String) (m : Map V) → delete k (delete k m) ≡ delete k m
  unfolding delete
  delete-delete k [] = refl
  delete-delete k ((i, v) ∷ m) = ground (arith, delete-delete k m)

  pub All-delete {κ} :
      (P : String × V → Type κ) (k : String) (m : Map V) → All P m → All P (delete k m)
  unfolding delete
  All-delete P k [] h = tt
  All-delete P k ((i, v) ∷ m) h = ground (arith, All-delete P k m h.1)

  delete-swap :
      (k : String) (a b : String × V) (m : Map V)
      → Permᴰ (delete k (a ∷ b ∷ m)) (delete k (b ∷ a ∷ m))
  unfolding delete
  delete-swap k (i, a) (j, b) m = split (i =ₜ k) (j =ₜ k) (delete k m)
    where
      split :
          (p q : Bool) (r : Map V)
          → Permᴰ
              (if p then (if q then r else (j, b) ∷ r) else (i, a) ∷ (if q then r else (j, b) ∷ r))
              (if q then (if p then r else (i, a) ∷ r) else (j, b) ∷ (if p then r else (i, a) ∷ r))
      split true true r = Permᴰ.refl r
      split true false r = Permᴰ.refl ((j, b) ∷ r)
      split false true r = Permᴰ.refl ((i, a) ∷ r)
      split false false r = Permᴰ.swap refl refl

  pub delete-perm : (k : String) {l m : Map V} → Permᴰ l m → Permᴰ (delete k l) (delete k m)
  unfolding delete
  delete-perm k Permᴰ.nil = Permᴰ.nil
  delete-perm k (Permᴰ.cons {a = a} {b = b} {l₁ = l} {l₂ = m} e d) =
      subst (λ c. Permᴰ (delete k (a ∷ l)) (delete k (c ∷ m))) e
        (elim (Bool-cases (a.0 =ₜ k)) [
          | inl hit ↦ rw (hit, delete) (delete-perm k d)
          | inr miss ↦ rw (miss, delete) (Permᴰ.cons refl (delete-perm k d))
        ])
  delete-perm k (Permᴰ.swap {a = a} {b = b} {a' = a'} {b' = b'} {l = l} e e') =
      subst (λ c. Permᴰ (delete k (a ∷ b ∷ l)) (delete k (c ∷ b' ∷ l))) e'
        (subst (λ c. Permᴰ (delete k (a ∷ b ∷ l)) (delete k (b ∷ c ∷ l))) e (delete-swap k a b l))
  delete-perm k (Permᴰ.trans d d') = Permᴰ.trans (delete-perm k d) (delete-perm k d')
