-- ===== src/Base/Text/Trim.antt =====
-- Laws of splitting and trimming.
use Prim.Native.Nat.{ℕ}
use Prim.Native.Char.{Char, code}
use Prim.Native.String.{String}
use mathlib.Core.Path.{◌≡◌, refl, ap, ◌∙◌}
use mathlib.Core.Bool.{Bool, true, false, not, ◌&&◌}
use mathlib.Core.Logic.{inl, inr}
use mathlib.Core.List.{List, [], ◌∷◌}
use native.Mathlib.Omega.{arith}
use omni_infra_provider_prox.Base.Tests.{◌==◌, ◌=ₜ◌, Bool-cases}
use omni_infra_provider_prox.Base.Lists.{All}
use omni_infra_provider_prox.Base.Text.{
  split, on_head, is_space, trim_left, trim_right, trim_space, free_of,
}

on_head-free :
    (sep : ℕ) (c : Char) (ps : List String)
    → (code c == sep) ≡ false
    → All (λ p. free_of sep p ≡ true) ps
    → All (λ p. free_of sep p ≡ true) (on_head c ps)
unfolding on_head free_of
on_head-free sep c [] h hs = (ground arith, tt)
on_head-free sep c (p ∷ ps) h hs = (ground arith, hs.1)

-- No part holds the separator.
pub split_free : (sep : ℕ) (s : String) → All (λ p. free_of sep p ≡ true) (split sep s)
unfolding split free_of
split_free sep String.[] = (refl, tt)
split_free sep (String.◌∷◌ c s) = ground (arith, split_free sep s, on_head-free sep c (split sep s))

trim_left-free : (sep : ℕ) (s : String) → free_of sep s ≡ true → free_of sep (trim_left s) ≡ true
unfolding trim_left free_of
trim_left-free sep String.[] h = refl
trim_left-free sep (String.◌∷◌ c s) h = ground (arith, trim_left-free sep s)

trim_right-free : (sep : ℕ) (s : String) → free_of sep s ≡ true → free_of sep (trim_right s) ≡ true
unfolding trim_right free_of
trim_right-free sep String.[] h = refl
trim_right-free sep (String.◌∷◌ c s) h = elim (Bool-cases (is_space c && (trim_right s =ₜ ""))) [
  | inl empty ↦ rw (empty, trim_right)
  | inr full ↦ rw (full, trim_right) (ground (arith, trim_right-free sep s))
]

pub trim_space-free :
    (sep : ℕ) (s : String) → free_of sep s ≡ true → free_of sep (trim_space s) ≡ true
unfolding trim_space
trim_space-free sep s h = trim_right-free sep (trim_left s) (trim_left-free sep s h)

begins_clean : String → Bool
begins_clean String.[] = true
begins_clean (String.◌∷◌ c s) = not (is_space c)

trim_left-begins : (s : String) → begins_clean (trim_left s) ≡ true
unfolding trim_left begins_clean
trim_left-begins String.[] = refl
trim_left-begins (String.◌∷◌ c s) = ground (arith, trim_left-begins s)

trim_left_done : (s : String) → begins_clean s ≡ true → trim_left s ≡ s
unfolding trim_left begins_clean
trim_left_done String.[] h = refl
trim_left_done (String.◌∷◌ c s) h = ground arith

trim_right-begins : (s : String) → begins_clean s ≡ true → begins_clean (trim_right s) ≡ true
unfolding trim_right begins_clean
trim_right-begins String.[] h = refl
trim_right-begins (String.◌∷◌ c s) h = ground arith

trim_right_idem : (s : String) → trim_right (trim_right s) ≡ trim_right s
unfolding trim_right
trim_right_idem String.[] = refl
trim_right_idem (String.◌∷◌ c s) = elim (Bool-cases (is_space c && (trim_right s =ₜ ""))) [
  | inl empty ↦ rw (empty, trim_right)
  | inr full ↦ rw (full, trim_right) (rw (trim_right_idem s, full))
]

-- Trimming twice is trimming once.
pub trim_space_idem : (s : String) → trim_space (trim_space s) ≡ trim_space s
unfolding trim_space
trim_space_idem s =
    ap trim_right (
      trim_left_done (trim_right (trim_left s))
        (trim_right-begins (trim_left s) (trim_left-begins s)))
    ∙ trim_right_idem (trim_left s)
