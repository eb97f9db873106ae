-- ===== src/Exec/Rules.antt =====
-- What a step sends: rules by the shape of the step, for `search`.
use omni_infra_provider_prox.Base.{
  ◌≡◌, ◌∙◌, refl, sym, ap, subst, Bool, true, false, List, [], ◌∷◌, ◌++◌, All, All-append,
  if◌then◌else◌, arith,
}
use omni_infra_provider_prox.Errors.{Error, Result, ok, err}
use omni_infra_provider_prox.Api.{Request, Client}
use omni_infra_provider_prox.Data.{MachineSpec}
use omni_infra_provider_prox.Exec.{
  World, M, pure, fail, lift, attempt, gets, machine, set_machine, modify, map_error, call,
  continue, ◌>>=◌,
}
use mathlib.Core.List.{append_assoc}

-- Whatever happens, the step only sends requests of the kind `P`.
pub record Sends {S A : Type 0} (P : Request → Type 0) (m : M S A) : Type 0 where
  pub at : (w : World S) → (new : List Request) × ((m w).1.log ≡ new ++ w.log) × All P new

module _ {S A : Type 0} {P : Request → Type 0} where
  pub Sends-pure : (a : A) → Sends P (pure {S = S} a)
  unfolding pure
  Sends-pure a = record { at = λ w. ([], refl, tt) }

  pub Sends-fail : (e : Error) → Sends P (fail {S = S} {A = A} e)
  unfolding fail
  Sends-fail e = record { at = λ w. ([], refl, tt) }

  pub Sends-lift : (r : Result A) → Sends P (lift {S = S} r)
  unfolding lift
  Sends-lift r = record { at = λ w. ([], refl, tt) }

  pub Sends-gets : (f : World S → A) → Sends P (gets f)
  unfolding gets
  Sends-gets f = record { at = λ w. ([], refl, tt) }

  pub Sends-attempt : (m : M S A) → Sends P m → Sends P (attempt m)
  unfolding attempt
  Sends-attempt m h = record { at = h.at }

  pub Sends-map_error : (f : Error → Error) (m : M S A) → Sends P m → Sends P (map_error f m)
  unfolding map_error
  Sends-map_error f m h = record { at = h.at }

  pub Sends-if :
      (b : Bool) (m n : M S A)
      → (b ≡ true → Sends P m)
      → (b ≡ false → Sends P n)
      → Sends P (if b then m else n)
  Sends-if true m n h k = h refl
  Sends-if false m n h k = k refl

module _ {S : Type 0} {P : Request → Type 0} where
  pub Sends-machine : Sends P (machine {S = S})
  unfolding machine
  Sends-machine = record { at = λ w. ([], refl, tt) }

  pub Sends-set_machine : (f : MachineSpec → MachineSpec) → Sends P (set_machine {S = S} f)
  unfolding set_machine
  Sends-set_machine f = record { at = λ w. ([], refl, tt) }

  pub Sends-modify :
      (f : World S → World S) → ((w : World S) → (f w).log ≡ w.log) → Sends P (modify f)
  unfolding modify
  Sends-modify f h = record { at = λ w. ([], h w, tt) }

  pub Sends-call : (client : Client S) (r : Request) → P r → Sends P (call client r)
  unfolding call
  Sends-call client r h = record { at = λ w. (r ∷ [], refl, (h, tt)) }

module _ {S A B : Type 0} {P : Request → Type 0} where
  continue-Sends :
      (r : Result A) (f : A → M S B) (w v : World S) (new : List Request)
      → v.log ≡ new ++ w.log
      → All P new
      → ((a : A) → r ≡ ok a → Sends P (f a))
      → (all : List Request) × ((continue r f v).1.log ≡ all ++ w.log) × All P all
  continue-Sends (ok a) f w v new e h k =
      let (more, e', h') = (k a refl).at v in
      (
        more ++ new,
        e' ∙ ap (λ l. more ++ l) e ∙ sym (append_assoc more new w.log),
        All-append P more new h' h,
      )
  continue-Sends (err x) f w v new e h k = (new, e, h)

  -- What follows a step, for the results that the step can have.
  pub Sends-after :
      (m : M S A) (f : A → M S B)
      → Sends P m
      → ((w : World S) (a : A) → (m w).0 ≡ ok a → Sends P (f a))
      → Sends P (m >>= f)
  unfolding ◌>>=◌
  Sends-after m f h k = record {
    at = λ w. let (new, e, hs) = h.at w in continue-Sends (m w).0 f w (m w).1 new e hs (k w);
  }

  pub Sends-bind :
      (m : M S A) (f : A → M S B) → Sends P m → ((a : A) → Sends P (f a)) → Sends P (m >>= f)
  Sends-bind m f h k = Sends-after m f h (λ w a e. k a)

pub ruleset sends_rules = (
  Sends-pure, Sends-fail, Sends-lift, Sends-gets, Sends-attempt, Sends-map_error, Sends-if,
  Sends-machine, Sends-set_machine, Sends-call, Sends-bind,
)

module _ {S A B : Type 0} where
  continue_ok :
      (r : Result A) (f : A → M S B) (v : World S) (b : B)
      → (continue r f v).0 ≡ ok b
      → (a : A) × (r ≡ ok a) × (continue r f v ≡ f a v)
  continue_ok (ok a) f v b h = (a, refl, refl)
  continue_ok (err e) f v b h = absurd (ground arith)

  -- A block that succeeds ran its first action with success, and then the rest.
  pub bind_ok :
      (m : M S A) (f : A → M S B) (w : World S) (b : B)
      → ((m >>= f) w).0 ≡ ok b
      → (a : A) × ((m w).0 ≡ ok a) × ((m >>= f) w ≡ f a (m w).1)
  unfolding ◌>>=◌
  bind_ok m f w b h = continue_ok (m w).0 f (m w).1 b h

-- A step that returns something returns what has `Q`.
pub record Yields {S A : Type 0} (Q : A → Type 0) (m : M S A) : Type 0 where
  pub at : (w : World S) (a : A) → (m w).0 ≡ ok a → Q a

module _ {S A : Type 0} {Q : A → Type 0} where
  pub Yields-pure : (a : A) → Q a → Yields Q (pure {S = S} a)
  unfolding pure
  Yields-pure a q = record { at = λ w b e. subst Q (ok-injective e) q }
    where
      ok-injective : {b : A} → ok a ≡ ok b → a ≡ b
      ok-injective e = ground arith

  pub Yields-after :
      {B : Type 0} {P : B → Type 0} (m : M S B) (f : B → M S A)
      → Yields P m
      → ((b : B) → P b → Yields Q (f b))
      → Yields Q (m >>= f)
  Yields-after m f y k = record {
    at = λ w a e.
        let (b, got, rest) = bind_ok m f w a e in
        (k b (y.at w b got)).at (m w).1 a (sym (ap (λ o. o.0) rest) ∙ e);
  }

  pub Yields-bind :
      {B : Type 0} (m : M S B) (f : B → M S A) → ((b : B) → Yields Q (f b)) → Yields Q (m >>= f)
  Yields-bind m f k =
      Yields-after {P = λ _. Unit {0}} m f (record { at = λ w b e. tt }) (λ b _. k b)
