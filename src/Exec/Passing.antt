-- ===== src/Exec/Passing.antt =====
-- Steps that get through: rules by the shape of the step.
use omni_infra_provider_prox.Base.{Bool, true, false, if◌then◌else◌}
use omni_infra_provider_prox.Errors.{Error, Result, ok, err}
use omni_infra_provider_prox.Exec.{World, M, pure, lift, modify, map_error, map_result, ◌>>=◌}
use omni_infra_provider_prox.Exec.Triples.{Ends, Ends-bind}

abbrev pub IsOk : {A : Type 0} → Result A → Type 0
IsOk (ok a) = Unit {0}
IsOk (err e) = ⊥

-- It got something, with this condition.
abbrev pub Gets : {S A : Type 0} → (A → World S → Type 0) → Result A → World S → Type 0
Gets Q (ok a) w = Q a w
Gets Q (err e) w = ⊥

-- The step gets through, from anywhere.
abbrev pub Passes : {S A : Type 0} → M S A → Type 0
Passes {S} m = Ends (λ (_ : World S). Unit {0}) m (λ r w. IsOk r)

module _ {S A : Type 0} where
  pub Passes-pure : (a : A) → Passes (pure {S = S} a)
  unfolding pure
  Passes-pure a = record { at = λ w _. tt }

  pub Passes-lift : (r : Result A) → IsOk r → Passes (lift {S = S} r)
  unfolding lift
  Passes-lift r h = record { at = λ w _. h }

  pub Passes-map_error : (f : Error → Error) (m : M S A) → Passes m → Passes (map_error f m)
  unfolding map_error
  Passes-map_error f m h = record { at = λ w _. still (m w).0 (h.at w tt) }
    where
      still : (r : Result A) → IsOk r → IsOk (map_result f r)
      still (ok a) k = tt
      still (err e) k = absurd k

  pub Passes-if : (b : Bool) (m n : M S A) → Passes m → Passes n → Passes (if b then m else n)
  Passes-if true m n h k = h
  Passes-if false m n h k = k

module _ {S : Type 0} where
  pub Passes-modify : (f : World S → World S) → Passes (modify f)
  unfolding modify
  Passes-modify f = record { at = λ w _. tt }

module _ {S A B : Type 0} where
  -- Behind a step that gets through.
  pub Passes-then :
      {R : Result B → World S → Type 0} (m : M S A) (f : A → M S B)
      → Passes m
      → ((a : A) → Ends (λ _. Unit {0}) (f a) R)
      → Ends (λ _. Unit {0}) (m >>= f) R
  Passes-then m f h k = Ends-bind m f h (λ e w bad. absurd bad) k
