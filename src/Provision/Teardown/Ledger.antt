-- ===== src/Provision/Teardown/Ledger.antt =====
-- `Deprovision` and the scheduler's ledger.
use omni_infra_provider_prox.Base.{
  ℕ, String, ◌≡◌, ◌∙◌, ap, Option, none, some, ◌==◌, ◌=ₜ◌, if◌then◌else◌, lookup, lookup-delete,
  delete,
}
use omni_infra_provider_prox.Errors.{Error, Result, ok, err}
use omni_infra_provider_prox.Api.{Client, PoolDetail, VirtualMachine, vm_delete}
use omni_infra_provider_prox.Exec.{call, World, pure, machine, ◌>>=◌}
use omni_infra_provider_prox.Exec.Frames.{
  IsStable, Stays, part-kept, Keeps, Keeps-bind, Keeps-if, Keeps-machine, Keeps-pure, frame_rules,
}
use omni_infra_provider_prox.Scheduler.{release}
use omni_infra_provider_prox.Ha.Steps.{deprovision as ha_deprovision}
use omni_infra_provider_prox.Ha.Steps.Frames.{deprovision-Keeps, find_vm_node-Keeps}
use omni_infra_provider_prox.Provision.Tasks.Frames.{wait-Keeps}
use omni_infra_provider_prox.Provision.Steps.Frames.{get_vm-Keeps}
use omni_infra_provider_prox.Provision.Pools.{
  find_pool_in_list, delete_if_empty, cleanup_listed, cleanup_pool,
}
use omni_infra_provider_prox.Provision.Teardown.{
  cleanup_recorded_pool, remove_vm, remove_found, remove_on, locate,
}
use omni_infra_provider_prox.Provision.Teardown.{deprovision as teardown_machine}

module _ {S : Type 0} (client : Client S) (inv : World S → Type 0)
    (local : IsStable client inv) where
  delete_if_empty-Keeps :
      (id : String) (r : Result PoolDetail) → Keeps inv (delete_if_empty client id r)
  unfolding delete_if_empty
  delete_if_empty-Keeps id (ok d) = search frame_rules depth 9
  delete_if_empty-Keeps id (err e) = search frame_rules

  cleanup_listed-Keeps :
      (id : String) (r : Result (Option String)) → Keeps inv (cleanup_listed client id r)
  unfolding cleanup_listed
  cleanup_listed-Keeps id (err e) = search frame_rules
  cleanup_listed-Keeps id (ok none) = search frame_rules
  cleanup_listed-Keeps id (ok (some c)) = search (frame_rules, delete_if_empty-Keeps) depth 9

  cleanup_pool-Keeps : (id : String) → Keeps inv (cleanup_pool client id)
  unfolding cleanup_pool find_pool_in_list
  cleanup_pool-Keeps id = search (frame_rules, cleanup_listed-Keeps) depth 12

  module _ (stop_ticks delete_ticks : ℕ) (cancelled : Error) where
    pub recorded-Keeps : Keeps inv (cleanup_recorded_pool client stop_ticks delete_ticks cancelled)
    unfolding cleanup_recorded_pool
    recorded-Keeps = search (frame_rules, cleanup_pool-Keeps) depth 9

    pub locate-Keeps : Keeps inv (locate client stop_ticks delete_ticks cancelled)
    unfolding locate
    locate-Keeps = search (frame_rules, find_vm_node-Keeps client inv local) depth 9

    module _
        (deletes : (on : String) (vmid : ℕ) → Keeps inv (call client (vm_delete on vmid))) where
      remove_vm-Keeps :
          (vm : String × VirtualMachine)
          → Keeps inv (remove_vm client stop_ticks delete_ticks cancelled vm)
      unfolding remove_vm
      remove_vm-Keeps (n, vm) =
          search (frame_rules, wait-Keeps client inv local, recorded-Keeps, deletes) depth 14

      remove_found-Keeps :
          (r : Result (String × VirtualMachine))
          → Keeps inv (remove_found client stop_ticks delete_ticks cancelled r)
      unfolding remove_found
      remove_found-Keeps (ok vm) = remove_vm-Keeps vm
      remove_found-Keeps (err e) = search (frame_rules, recorded-Keeps)

      remove_on-Keeps :
          (o : Option String) → Keeps inv (remove_on client stop_ticks delete_ticks cancelled o)
      unfolding remove_on
      remove_on-Keeps none = recorded-Keeps
      remove_on-Keeps (some n) =
          search (frame_rules, get_vm-Keeps client inv local, remove_found-Keeps) depth 12

      -- The teardown behind the release of the reservation.
      pub after_release-Keeps : Keeps inv (
          machine >>= λ m.
          if m.vmid == 0
          then pure tt
          else ha_deprovision client >>= λ _.
              locate client stop_ticks delete_ticks cancelled >>= λ found.
              remove_on client stop_ticks delete_ticks cancelled found)
      after_release-Keeps = Keeps-bind _ _ Keeps-machine λ m.
          Keeps-if (m.vmid == 0) _ _ (Keeps-pure tt) (
            Keeps-bind _ _ (deprovision-Keeps client inv local)
              λ _. Keeps-bind _ _ locate-Keeps remove_on-Keeps)

ledger-IsStable :
    {S : Type 0} (client : Client S) (w : World S) → IsStable client (Stays (λ v. v.ledger) w)
unfolding call
ledger-IsStable client w = record { at = λ r other v h. h }

deletion-kept :
    {S : Type 0} (client : Client S) (w : World S) (on : String) (vmid : ℕ)
    → Keeps (Stays (λ v. v.ledger) w) (call client (vm_delete on vmid))
unfolding call
deletion-kept client w on vmid = record { at = λ v h. h }

module _ {S : Type 0} (client : Client S) (stop_ticks delete_ticks : ℕ) (cancelled : Error) where
  -- However a teardown ends, errors included, the ledger holds the reservations that it held, without the
  -- one of the request.
  pub deprovision-ledger :
      (request_id j : String) (w : World S)
      → lookup j (teardown_machine client stop_ticks delete_ticks cancelled request_id w).1.ledger
        ≡ (if request_id =ₜ j then none else lookup j w.ledger)
  unfolding teardown_machine release ◌>>=◌
  deprovision-ledger request_id j w =
      ap (λ l. lookup j l)
        (part-kept _ (record w { ledger = delete request_id w.ledger })
          (after_release-Keeps client
            (Stays (λ v. v.ledger) (record w { ledger = delete request_id w.ledger }))
            (ledger-IsStable client (record w { ledger = delete request_id w.ledger })) stop_ticks
            delete_ticks cancelled
            (deletion-kept client (record w { ledger = delete request_id w.ledger }))))
      ∙ lookup-delete request_id j w.ledger
