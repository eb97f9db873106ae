-- ===== src/Provision/Run.antt =====
-- `ProvisionSteps`, and how the provisioning framework runs them: it attempts a step again and again, and
-- may attempt any of them at any time. In between, other machines change what the provisioner shares, and
-- other actors change Proxmox.
pub mod Preparing
pub mod Creation
pub mod Working
pub mod Placing
pub mod Landing
pub mod Attempts
pub mod Unique
pub mod Failed
use omni_infra_provider_prox.Base.{
  ℕ, ◌+◌, String, Bool, true, false, ◌&&◌, List, [], ◌∷◌, Map, if◌then◌else◌,
}
use omni_infra_provider_prox.Errors.{Result, ok, err}
use omni_infra_provider_prox.Api.{Client, Request, Response, VirtualMachine}
use omni_infra_provider_prox.Data.{Context}
use omni_infra_provider_prox.Exec.{World, M}
use omni_infra_provider_prox.Sorting.{Comparison, SortFunc}
use omni_infra_provider_prox.Scheduler.{NodeStatus, Ledger}
use omni_infra_provider_prox.Ha.Steps.{register_step, sync_rules_step}
use omni_infra_provider_prox.Provision.Placement.{pick_node_step}
use omni_infra_provider_prox.Provision.Create.{Selector, sync_vm}
use omni_infra_provider_prox.Provision.Steps.{upload_iso, start_vm}

pub data Step : Type 0 where
  pick_node upload sync start register_ha sync_ha_rules : Step

-- What the provisioner is built over: the client, and the parameters of its steps.
pub record Provisioner (S F : Type 0) : Type 0 where
  pub client : Client S
  pub ratio : ℕ → ℕ → F
  pub no_memory : F
  pub compare_memory : Comparison F
  pub sort : SortFunc (NodeStatus F)
  pub vm_has_tag : VirtualMachine → String → Bool
  pub tag_separator : ℕ
  pub matches : Selector

module _ {S F : Type 0} (p : Provisioner S F) where
  unfoldable pub run_step : Step → (now : ℕ) → Context → M S (Unit {0})
  run_step pick_node now pctx =
      pick_node_step p.client p.ratio p.no_memory p.vm_has_tag p.compare_memory p.sort now pctx
  run_step upload now pctx = upload_iso p.client pctx
  run_step sync now pctx = sync_vm p.client p.matches pctx
  run_step start now pctx = start_vm p.client pctx
  run_step register_ha now pctx = register_step p.client pctx
  run_step sync_ha_rules now pctx = sync_rules_step p.client p.tag_separator pctx

abbrev is_ok : {A : Type 0} → Result A → Bool
is_ok (ok a) = true
is_ok (err e) = false

-- A client that counts the requests of a kind that Proxmox accepts.
abbrev pub counting : {S : Type 0} → (Request → Bool) → Client S → Client (S × ℕ)
counting counts client r (s, n) =
    let answer = client r s in
    (answer.0, (answer.1, if counts r && is_ok answer.0 then n + 1 else n))

-- One move of the whole: an attempt of a step for the machine, whatever its outcome; a change of what the
-- machines share; a change of Proxmox by others, who are not counted.
pub data Move {S F : Type 0} (p : Provisioner (S × ℕ) F) (w : World (S × ℕ))
    : World (S × ℕ) → Type 0 where
  attempt : (step : Step) (now : ℕ) (pctx : Context) → Move p w (run_step p step now pctx w).1
  others :
      (ledger : Ledger) (downloads : Map String)
      → Move p w (record w { ledger = ledger; pending_iso_downloads = downloads })
  outside : (s : S) → Move p w (record w { server = (s, w.server.1) })

pub data Reaches {S F : Type 0} (p : Provisioner (S × ℕ) F) (w : World (S × ℕ))
    : World (S × ℕ) → Type 0 where
  here : Reaches p w w
  later : {v u : World (S × ℕ)} → Reaches p w v → Move p v u → Reaches p w u
