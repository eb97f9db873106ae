-- ===== src/Exec/Frames.antt =====
-- What a step maintains: an invariant of the world, which may be that a part of it stays as it was. Rules
-- by the shape of the step, for `search`.
use omni_infra_provider_prox.Base.{String, Map, ◌≡◌, refl, Bool, true, false, if◌then◌else◌}
use omni_infra_provider_prox.Errors.{Error, Result, ok, err}
use omni_infra_provider_prox.Api.{Request, Client, is_order}
use omni_infra_provider_prox.Data.{MachineSpec}
use omni_infra_provider_prox.Exec.{
  World, M, pure, fail, lift, attempt, gets, machine, set_machine, modify, map_error, call,
  continue, ◌>>=◌,
}

-- An invariant that no request disturbs but those that order a machine or an image.
pub record IsStable {S : Type 0} (client : Client S) (inv : World S → Type 0) : Type 0 where
  pub at : (r : Request) → is_order r ≡ false → (w : World S) → inv w → inv (call client r w).1

-- Whatever happens, the step maintains the invariant.
pub record Keeps {S A : Type 0} (inv : World S → Type 0) (m : M S A) : Type 0 where
  pub at : (w : World S) → inv w → inv (m w).1

-- Where a part of the world is as it was.
abbrev pub Stays : {S B : Type 0} → (World S → B) → World S → World S → Type 0
Stays part w v = part v ≡ part w

-- An invariant of what the provisioner shares with Proxmox, of the creation task on record, and of the
-- table of pending downloads.
abbrev pub Shared : {S : Type 0} → (S → String → Map String → Type 0) → World S → Type 0
Shared kept w = kept w.server w.machine.vm_create_task w.pending_iso_downloads

pub part-kept :
    {S A B : Type 0} {part : World S → B} (m : M S A) (w : World S)
    → Keeps (Stays part w) m
    → part (m w).1 ≡ part w
part-kept m w h = h.at w refl

module _ {S A : Type 0} {inv : World S → Type 0} where
  pub Keeps-pure : (a : A) → Keeps inv (pure a)
  unfolding pure
  Keeps-pure a = record { at = λ w h. h }

  pub Keeps-fail : (e : Error) → Keeps inv (fail {A = A} e)
  unfolding fail
  Keeps-fail e = record { at = λ w h. h }

  pub Keeps-lift : (r : Result A) → Keeps inv (lift r)
  unfolding lift
  Keeps-lift r = record { at = λ w h. h }

  pub Keeps-gets : (f : World S → A) → Keeps inv (gets f)
  unfolding gets
  Keeps-gets f = record { at = λ w h. h }

  pub Keeps-attempt : (m : M S A) → Keeps inv m → Keeps inv (attempt m)
  unfolding attempt
  Keeps-attempt m h = record { at = h.at }

  pub Keeps-map_error : (f : Error → Error) (m : M S A) → Keeps inv m → Keeps inv (map_error f m)
  unfolding map_error
  Keeps-map_error f m h = record { at = h.at }

  pub Keeps-if :
      (b : Bool) (m n : M S A) → Keeps inv m → Keeps inv n → Keeps inv (if b then m else n)
  Keeps-if true m n h k = h
  Keeps-if false m n h k = k

module _ {S : Type 0} {inv : World S → Type 0} where
  pub Keeps-machine : Keeps inv machine
  unfolding machine
  Keeps-machine = record { at = λ w h. h }

  pub Keeps-call :
      (client : Client S) (r : Request)
      → is_order r ≡ false
      → IsStable client inv
      → Keeps inv (call client r)
  Keeps-call client r other h = record { at = h.at r other }

  pub Keeps-set_machine :
      (f : MachineSpec → MachineSpec)
      → ((w : World S) → inv w → inv (record w { machine = f w.machine }))
      → Keeps inv (set_machine f)
  unfolding set_machine
  Keeps-set_machine f h = record { at = h }

  pub Keeps-modify :
      (f : World S → World S) → ((w : World S) → inv w → inv (f w)) → Keeps inv (modify f)
  unfolding modify
  Keeps-modify f h = record { at = h }

module _ {S A C : Type 0} {inv : World S → Type 0} where
  continue-Keeps :
      (r : Result A) (f : A → M S C) (v : World S)
      → inv v
      → ((a : A) → Keeps inv (f a))
      → inv (continue r f v).1
  continue-Keeps (ok a) f v h k = (k a).at v h
  continue-Keeps (err x) f v h k = h

  pub Keeps-bind :
      (m : M S A) (f : A → M S C) → Keeps inv m → ((a : A) → Keeps inv (f a)) → Keeps inv (m >>= f)
  unfolding ◌>>=◌
  Keeps-bind m f h k = record { at = λ w i. continue-Keeps (m w).0 f (m w).1 (h.at w i) k }

  continue-Keeps-after :
      (r : Result A) (f : A → M S C) (v : World S)
      → inv v
      → ((a : A) → r ≡ ok a → Keeps inv (f a))
      → inv (continue r f v).1
  continue-Keeps-after (ok a) f v h k = (k a refl).at v h
  continue-Keeps-after (err x) f v h k = h

  -- What follows a step, for the results that the step can have.
  pub Keeps-after :
      (m : M S A) (f : A → M S C)
      → Keeps inv m
      → ((w : World S) (a : A) → (m w).0 ≡ ok a → Keeps inv (f a))
      → Keeps inv (m >>= f)
  unfolding ◌>>=◌
  Keeps-after m f h k = record {
    at = λ w i. continue-Keeps-after (m w).0 f (m w).1 (h.at w i) (k w);
  }

pub ruleset frame_rules = (
  refl, Keeps-pure, Keeps-fail, Keeps-lift, Keeps-gets, Keeps-attempt, Keeps-map_error, Keeps-if,
  Keeps-machine, Keeps-call, Keeps-bind,
)
