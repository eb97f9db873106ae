-- ===== src/Provision/Teardown.antt =====
-- `Deprovision`, and `isAlreadyGoneErr`.
pub mod Ledger
pub mod Gone
pub mod Removal
pub mod Ordered
use omni_infra_provider_prox.Base.{
  ℕ, String, Bool, true, false, not, ◌&&◌, ◌||◌, Option, none, some, ◌==◌, ◌=ₜ◌, if◌then◌else◌,
  text_contains,
}
use omni_infra_provider_prox.Errors.{Error, Result, ok, err}
use omni_infra_provider_prox.Api.{Client, VirtualMachine, vm_stop, vm_delete}
use omni_infra_provider_prox.Data.{MachineSpec}
use omni_infra_provider_prox.Exec.{
  World, M, pure, fail, attempt, modify, machine, call, ◌>>=◌, ◌>>◌,
}
use omni_infra_provider_prox.Scheduler.{release}
use omni_infra_provider_prox.Ha.Members.{find_vm_node}
use omni_infra_provider_prox.Ha.Steps.{deprovision as ha_deprovision}
use omni_infra_provider_prox.Provision.Tasks.{wait_for_task_to_finish}
use omni_infra_provider_prox.Provision.Pools.{cleanup_pool}
use omni_infra_provider_prox.Provision.Steps.{get_vm}

unfoldable pub is_already_gone_err : Error → Bool
is_already_gone_err e =
    text_contains e.text "does not exist"
    || text_contains e.text "no such node"
    || (text_contains e.text "hostname lookup" && text_contains e.text "failed to get address info")

module _ {S : Type 0} (client : Client S) where
  -- Each of the two waits has its own number of ticks before the context is done with `cancelled`.
  module _ (stop_ticks delete_ticks : ℕ) (cancelled : Error) where
    -- The machine's pool, on the way out.
    unfoldable pub cleanup_recorded_pool : M S (Unit {0})
    cleanup_recorded_pool = do
      m ← machine
      if m.pool =ₜ "" then pure tt else cleanup_pool client m.pool

    unfoldable pub remove_vm : String × VirtualMachine → M S (Unit {0})
    remove_vm (n, vm) = do
      stopping ← call client (vm_stop n vm.vmid)
      wait_for_task_to_finish client stop_ticks cancelled stopping
      deleting ← call client (vm_delete n vm.vmid)
      wait_for_task_to_finish client delete_ticks cancelled deleting
      cleanup_recorded_pool

    -- The part behind `getVM`.
    unfoldable pub remove_found : Result (String × VirtualMachine) → M S (Unit {0})
    remove_found (ok vm) = remove_vm vm
    remove_found (err e) = if is_already_gone_err e then cleanup_recorded_pool else fail e

    unfoldable pub remove_on : Option String → M S (Unit {0})
    remove_on none = cleanup_recorded_pool
    remove_on (some n) = do m ← machine; got ← attempt (get_vm client n m.vmid); remove_found got

    -- Where the machine is; none stands for `found = false`.
    unfoldable pub locate : M S (Option String)
    locate = do
      m ← machine
      if m.ha_registered
          then find_vm_node client m.vmid
          else pure (if m.node =ₜ "" then none else some m.node)

    unfoldable pub deprovision : (request_id : String) → M S (Unit {0})
    deprovision request_id = do
      modify (λ w. record w { ledger = release request_id w.ledger })
      m ← machine
      if m.vmid == 0 then pure tt else do ha_deprovision client; found ← locate; remove_on found
