-- ===== src/Exec.antt =====
-- How a step runs: it reads and writes the machine state, the scheduler's ledger and the table of
-- pending ISO downloads, sends requests to Proxmox, and may fail. What was written before a failure stays
-- written. Each request is put on a log, newest first, so that theorems can speak of what was sent.
pub mod Rules
pub mod Triples
pub mod Passing
pub mod Bounds
pub mod Frames
pub mod Example
use omni_infra_provider_prox.Base.{String, Option, List, [], ◌∷◌, Map}
use omni_infra_provider_prox.Errors.{Error, Result, ok, err}
use omni_infra_provider_prox.Api.{Request, Response, Client}
use omni_infra_provider_prox.Data.{MachineSpec}
use omni_infra_provider_prox.Scheduler.{Ledger}

pub record World (S : Type 0) : Type 0 where
  pub server : S
  pub log : List Request
  pub machine : MachineSpec
  pub ledger : Ledger
  pub pending_iso_downloads : Map String
  pub machine_uuid : Option String

abbrev pub M : Type 0 → Type 0 → Type 0
M S A = World S → Result A × World S

module _ {S A : Type 0} where
  unfoldable pub pure : A → M S A
  pure a w = (ok a, w)

  unfoldable pub fail : Error → M S A
  fail e w = (err e, w)

  -- A call whose result was computed without the world.
  unfoldable pub lift : Result A → M S A
  lift r w = (r, w)

  -- `x, err := m`: the error is a value that the code looks at.
  unfoldable pub attempt : M S A → M S (Result A)
  attempt m w = (ok (m w).0, (m w).1)

  unfoldable pub gets : (World S → A) → M S A
  gets f w = (ok (f w), w)

module _ {S : Type 0} where
  unfoldable pub modify : (World S → World S) → M S (Unit {0})
  modify f w = (ok tt, f w)

  -- pctx.State.TypedSpec().Value
  unfoldable pub machine : M S MachineSpec
  machine w = (ok w.machine, w)

  unfoldable pub set_machine : (MachineSpec → MachineSpec) → M S (Unit {0})
  set_machine f w = (ok tt, record w { machine = f w.machine })

-- What an error becomes on its way out.
abbrev pub map_result : {A : Type 0} → (Error → Error) → Result A → Result A
map_result f (ok a) = ok a
map_result f (err e) = err (f e)

unfoldable pub map_error : {S A : Type 0} → (Error → Error) → M S A → M S A
map_error f m w = (map_result f (m w).0, (m w).1)

module _ {S A B : Type 0} where
  abbrev pub continue : Result A → (A → M S B) → World S → Result B × World S
  continue (ok a) f w = f a w
  continue (err e) f w = (err e, w)

  infixl 5 ◌>>=◌ ◌>>◌
  -- Opening this opens the actions above too.
  unfoldable pub ◌>>=◌ : M S A → (A → M S B) → M S B
  unfolding pure fail lift attempt gets modify machine set_machine map_error
  ◌>>=◌ m f w = continue (m w).0 f (m w).1

  abbrev pub ◌>>◌ : M S A → M S B → M S B
  m >> n = m >>= λ _. n

-- One request to Proxmox.
unfoldable pub call : {S : Type 0} → Client S → (r : Request) → M S (Response r)
call client r w =
    let answer = client r w.server in (answer.0, record w { server = answer.1; log = r ∷ w.log })
