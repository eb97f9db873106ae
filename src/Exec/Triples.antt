-- ===== src/Exec/Triples.antt =====
-- What holds when a step succeeds: rules by the shape of the step. Where a step looks at the error of a
-- call, the condition on the call's outcome speaks of both results.
use omni_infra_provider_prox.Base.{◌≡◌, refl, Bool, true, false, if◌then◌else◌}
use omni_infra_provider_prox.Errors.{Error, Result, ok, err}
use omni_infra_provider_prox.Api.{Client, Request, Response}
use omni_infra_provider_prox.Exec.{
  World, M, pure, fail, attempt, call, map_error, map_result, continue, ◌>>=◌,
}

-- From a world with `P`, the step ends with `Q` of its outcome and the world that it leaves.
pub record Ends {S A : Type 0} (P : World S → Type 0) (m : M S A) (Q : Result A → World S → Type 0)
    : Type 0 where
  pub at : (w : World S) → P w → Q (m w).0 (m w).1

-- A condition on success only.
abbrev pub OnOk : {S A : Type 0} → (A → World S → Type 0) → Result A → World S → Type 0
OnOk Q (ok a) w = Q a w
OnOk Q (err e) w = Unit {0}

-- A condition on the start that does not speak of the world.
pub Ends-given :
    {S A : Type 0} {Q : Result A → World S → Type 0} (H : Type 0) (m : M S A)
    → (H → Ends (λ _. Unit {0}) m Q)
    → Ends (λ _. H) m Q
Ends-given H m h = record { at = λ w p. (h p).at w tt }

module _ {S A : Type 0} {P : World S → Type 0} where
  pub Ends-pure :
      {Q : Result A → World S → Type 0} (a : A)
      → ((w : World S) → P w → Q (ok a) w)
      → Ends P (pure a) Q
  unfolding pure
  Ends-pure a h = record { at = h }

  pub Ends-fail :
      {Q : Result A → World S → Type 0} (e : Error)
      → ((w : World S) → P w → Q (err e) w)
      → Ends P (fail e) Q
  unfolding fail
  Ends-fail e h = record { at = h }

  -- A step that may start anywhere may start where `P` holds.
  pub Ends-anywhere :
      {Q : Result A → World S → Type 0} (m : M S A) → Ends (λ _. Unit {0}) m Q → Ends P m Q
  Ends-anywhere m h = record { at = λ w _. h.at w tt }

  -- A weaker condition on success.
  pub Ends-ok :
      {Q R : A → World S → Type 0} (m : M S A)
      → Ends P m (OnOk Q)
      → ((a : A) (w : World S) → Q a w → R a w)
      → Ends P m (OnOk R)
  Ends-ok {Q} {R} m h k = record { at = λ w p. weaker (m w).0 (m w).1 (h.at w p) }
    where
      weaker : (r : Result A) (w : World S) → OnOk Q r w → OnOk R r w
      weaker (ok a) w q = k a w q
      weaker (err e) w q = tt

  -- What holds anyway holds of every success.
  pub Ends-every : {H : A → Type 0} (m : M S A) → ((a : A) → H a) → Ends P m (OnOk (λ a _. H a))
  Ends-every {H} m h = record { at = λ w p. every (m w).0 (m w).1 }
    where
      every : (r : Result A) (w : World S) → OnOk (λ (a : A) (_ : World S). H a) r w
      every (ok a) w = h a
      every (err e) w = tt

  -- What holds of both outcomes holds of a success.
  pub Ends-weaken :
      {Q : Result A → World S → Type 0} (m : M S A)
      → Ends P m Q
      → Ends P m (OnOk (λ a w. Q (ok a) w))
  Ends-weaken {Q} m h = record { at = λ w p. only (m w).0 (m w).1 (h.at w p) }
    where
      only : (r : Result A) (v : World S) → Q r v → OnOk (λ a w. Q (ok a) w) r v
      only (ok a) v q = q
      only (err e) v q = tt

  -- Nothing is said.
  pub Ends-any : (m : M S A) → Ends P m (λ _ _. Unit {0})
  Ends-any m = record { at = λ w p. tt }

  pub Ends-attempt :
      {Q : Result (Result A) → World S → Type 0} (m : M S A)
      → Ends P m (λ r w. Q (ok r) w)
      → Ends P (attempt m) Q
  unfolding attempt
  Ends-attempt m h = record { at = h.at }

  -- A success stays as it is, and the error is another one.
  pub Ends-map_error :
      {Q : A → World S → Type 0} (f : Error → Error) (m : M S A)
      → Ends P m (OnOk Q)
      → Ends P (map_error f m) (OnOk Q)
  unfolding map_error
  Ends-map_error {Q} f m h = record { at = λ w p. same (m w).0 (m w).1 (h.at w p) }
    where
      same : (r : Result A) (v : World S) → OnOk Q r v → OnOk Q (map_result f r) v
      same (ok a) v q = q
      same (err e) v q = tt

  pub Ends-if :
      {Q : Result A → World S → Type 0} (b : Bool) (m n : M S A)
      → (b ≡ true → Ends P m Q)
      → (b ≡ false → Ends P n Q)
      → Ends P (if b then m else n) Q
  Ends-if true m n h k = h refl
  Ends-if false m n h k = k refl

module _ {S A B : Type 0} {P : World S → Type 0} where
  -- `R` holds of the whole if it holds of the rest, and of every error that the first action ends in.
  pub Ends-bind :
      {Q : Result A → World S → Type 0} {R : Result B → World S → Type 0} (m : M S A)
      (f : A → M S B)
      → Ends P m Q
      → ((e : Error) (w : World S) → Q (err e) w → R (err e) w)
      → ((a : A) → Ends (Q (ok a)) (f a) R)
      → Ends P (m >>= f) R
  unfolding ◌>>=◌
  Ends-bind {Q} {R} m f h k g = record { at = λ w p. rest (m w).0 (m w).1 (h.at w p) }
    where
      rest : (r : Result A) (v : World S) → Q r v → R (continue r f v).0 (continue r f v).1
      rest (ok a) v q = (g a).at v q
      rest (err e) v q = k e v q

module _ {S : Type 0} (client : Client S) where
  -- Proxmox gave the answer in some state.
  abbrev pub Answers : (r : Request) → Result (Response r) → Type 0
  Answers r a = (s : S) × ((client r s).0 ≡ a)

  pub asked : (r : Request) → Ends (λ _. Unit {0}) (call client r) (λ a _. Answers r a)
  unfolding call
  asked r = record { at = λ w _. (w.server, refl) }

  -- What a call whose error is a value answered.
  abbrev pub Tried : (r : Request) → Result (Result (Response r)) → World S → Type 0
  Tried r (ok a) w = Answers r a
  Tried r (err e) w = Unit {0}

  pub attempted : (r : Request) → Ends (λ _. Unit {0}) (attempt (call client r)) (Tried r)
  unfolding attempt call
  attempted r = record { at = λ w _. (w.server, refl) }
