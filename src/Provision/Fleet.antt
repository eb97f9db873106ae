-- ===== src/Provision/Fleet.antt =====
-- The provisioner with all its machines: internal/pkg/provider/provision.go as the provisioning framework
-- runs it, for many machine requests at once. Attempts of the steps, and teardowns, of any machines follow
-- one another in any order; each is one move, as what the machines share is touched behind a mutex. A new
-- machine's state is that of `NewMachine`, internal/pkg/provider/resources/machine.go. The provider does
-- not restart in such a run, so the table of pending downloads and the ledger stay in memory.
pub mod Steady
pub mod Landing
pub mod Downloads
use omni_infra_provider_prox.Base.{ℕ, String, Option, none, List, Map, ◌=ₜ◌, if◌then◌else◌, false}
use omni_infra_provider_prox.Errors.{Error}
use omni_infra_provider_prox.Api.{Request}
use omni_infra_provider_prox.Data.{MachineSpec, Context}
use omni_infra_provider_prox.Exec.{World}
use omni_infra_provider_prox.Scheduler.{Ledger}
use omni_infra_provider_prox.Provision.Teardown.{deprovision}
use omni_infra_provider_prox.Provision.Run.{Provisioner, Step, run_step}

-- NewMachine: a state with no field set.
abbrev pub new_machine : MachineSpec
new_machine = record {
  uuid = "";
  schematic = "";
  talos_version = "";
  volume_id = "";
  volume_upload_task = "";
  vm_create_task = "";
  vm_start_task = "";
  vmid = 0;
  node = "";
  pool = "";
  ha_registered = false;
}

pub record Fleet (S : Type 0) : Type 0 where
  pub server : S
  pub log : List Request
  pub ledger : Ledger
  pub pending_iso_downloads : Map String
  pub specs : String → MachineSpec
  pub uuids : String → Option String

module _ {S : Type 0} where
  -- What the work on one machine sees.
  abbrev pub focus : Fleet S → (request_id : String) → World S
  focus f request_id = record {
    server = f.server;
    log = f.log;
    machine = f.specs request_id;
    ledger = f.ledger;
    pending_iso_downloads = f.pending_iso_downloads;
    machine_uuid = f.uuids request_id;
  }

  -- What it leaves.
  abbrev pub absorb : Fleet S → (request_id : String) → World S → Fleet S
  absorb f request_id w = record {
    server = w.server;
    log = w.log;
    ledger = w.ledger;
    pending_iso_downloads = w.pending_iso_downloads;
    specs = λ other. if request_id =ₜ other then w.machine else f.specs other;
    uuids = λ other. if request_id =ₜ other then w.machine_uuid else f.uuids other;
  }

-- One move; `changes` says how Proxmox may change between the moves.
pub data Move {S F : Type 0} (p : Provisioner S F) (changes : S → S → Type 0) (f : Fleet S)
    : Fleet S → Type 0 where
  enter :
      (request_id : String)
      → Move p changes f (
          absorb f request_id
            (record (focus f request_id) { machine = new_machine; machine_uuid = none }))
  attempt :
      (request_id : String) (step : Step) (now : ℕ) (pctx : Context)
      → Move p changes f (
          absorb f request_id
            (run_step p step now (record pctx { request_id = request_id }) (focus f request_id)).1)
  tear_down :
      (request_id : String) (stop_ticks delete_ticks : ℕ) (cancelled : Error)
      → Move p changes f (
          absorb f request_id
            (deprovision p.client stop_ticks delete_ticks cancelled request_id
              (focus f request_id)).1)
  outside : (s : S) → changes f.server s → Move p changes f (record f { server = s })

pub data Reaches {S F : Type 0} (p : Provisioner S F) (changes : S → S → Type 0) (f : Fleet S)
    : Fleet S → Type 0 where
  here : Reaches p changes f f
  later : {g h : Fleet S} → Reaches p changes f g → Move p changes g h → Reaches p changes f h
