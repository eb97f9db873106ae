-- ===== src/Exec/Bounds.antt =====
-- How many requests a step sends at most.
use omni_infra_provider_prox.Base.{ℕ, ◌+◌, ◌≤◌, Bool, true, false, if◌then◌else◌, arith, length}
use omni_infra_provider_prox.Errors.{Error, Result, ok, err}
use omni_infra_provider_prox.Api.{Request, Client}
use omni_infra_provider_prox.Exec.{World, M, pure, fail, attempt, map_error, call, continue, ◌>>=◌}

pub record SendsAtMost {S A : Type 0} (n : ℕ) (m : M S A) : Type 0 where
  pub at : (w : World S) → length (m w).1.log ≤ n + length w.log

module _ {S A : Type 0} where
  pub AtMost-pure : (n : ℕ) (a : A) → SendsAtMost n (pure {S = S} a)
  unfolding pure
  AtMost-pure n a = record { at = λ w. omega arith }

  pub AtMost-fail : (n : ℕ) (e : Error) → SendsAtMost n (fail {S = S} {A = A} e)
  unfolding fail
  AtMost-fail n e = record { at = λ w. omega arith }

  pub AtMost-attempt : (n : ℕ) (m : M S A) → SendsAtMost n m → SendsAtMost n (attempt m)
  unfolding attempt
  AtMost-attempt n m h = record { at = h.at }

  pub AtMost-map_error :
      (n : ℕ) (f : Error → Error) (m : M S A) → SendsAtMost n m → SendsAtMost n (map_error f m)
  unfolding map_error
  AtMost-map_error n f m h = record { at = h.at }

  pub AtMost-if :
      (n : ℕ) (b : Bool) (m k : M S A)
      → SendsAtMost n m
      → SendsAtMost n k
      → SendsAtMost n (if b then m else k)
  AtMost-if n true m k h h' = h
  AtMost-if n false m k h h' = h'

pub AtMost-call : {S : Type 0} (client : Client S) (r : Request) → SendsAtMost 1 (call client r)
unfolding call
AtMost-call client r = record { at = λ w. omega arith }

module _ {S A B : Type 0} where
  continue-AtMost :
      (n : ℕ) (r : Result A) (f : A → M S B) (v : World S)
      → ((a : A) → SendsAtMost n (f a))
      → length (continue r f v).1.log ≤ n + length v.log
  continue-AtMost n (ok a) f v h = (h a).at v
  continue-AtMost n (err e) f v h = omega arith

  pub AtMost-bind :
      (n k : ℕ) (m : M S A) (f : A → M S B)
      → SendsAtMost n m
      → ((a : A) → SendsAtMost k (f a))
      → SendsAtMost (n + k) (m >>= f)
  unfolding ◌>>=◌
  AtMost-bind n k m f h g = record {
    at = λ w. omega (arith, h.at w, continue-AtMost k (m w).0 f (m w).1 g);
  }
