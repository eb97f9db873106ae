-- ===== src/Provision/Teardown/Gone.antt =====
-- `Deprovision` behind the search: how a machine goes from a node.
use omni_infra_provider_prox.Base.{
  ℕ, String, ◌≡◌, ◌∙◌, refl, sym, ap, subst, true, false, some, ◌⊎◌, inl, inr, Bool-cases, arith,
}
use omni_infra_provider_prox.Errors.{Error, Result, ok, err, Result-cases}
use omni_infra_provider_prox.Api.{Client, VirtualMachine, node, virtual_machine, vm_stop, vm_delete}
use omni_infra_provider_prox.Exec.{World, machine, attempt, fail, call, ◌>>=◌}
use omni_infra_provider_prox.Exec.Rules.{bind_ok}
use omni_infra_provider_prox.Ha.Names.{sign_extend}
use omni_infra_provider_prox.Provision.Steps.{get_vm}
use omni_infra_provider_prox.Provision.Tasks.{wait_for_task_to_finish}
use omni_infra_provider_prox.Provision.Tasks.Waiting.{HasEnded, after_end, wait_ends}
use omni_infra_provider_prox.Provision.Teardown.{
  cleanup_recorded_pool, remove_vm, remove_found, remove_on, is_already_gone_err,
}

module _ {S : Type 0} (client : Client S) where
  -- From this state, Proxmox accepts the deletion, and its task ends with success.
  abbrev pub IsDeletedFrom : (name : String) (vmid : ℕ) → S → Type 0
  IsDeletedFrom name vmid s =
      (deleting : String) × ((client (vm_delete name vmid) s).0 ≡ ok deleting)
      × (n : ℕ) × HasEnded client deleting n (client (vm_delete name vmid) s).1

  -- From this state, Proxmox accepts the stop, its task ends with success, and the deletion follows.
  abbrev pub IsRemovedFrom : (name : String) (vmid : ℕ) → S → Type 0
  IsRemovedFrom name vmid s =
      (stopping : String) × ((client (vm_stop name vmid) s).0 ≡ ok stopping)
      × (n : ℕ) × HasEnded client stopping n (client (vm_stop name vmid) s).1
      × IsDeletedFrom name vmid (after_end client stopping n (client (vm_stop name vmid) s).1)

  -- The node answers, in this state, and then says that the machine is gone, or has it and it is removed.
  abbrev pub IsGoneOn : (known_as : String) (vmid : ℕ) → S → Type 0
  IsGoneOn known_as vmid s =
      ((e : Error) × ((client (virtual_machine known_as (sign_extend vmid)) s).0 ≡ err e)
        × (is_already_gone_err e ≡ true))
      ⊎ ((vm : VirtualMachine) × ((client (virtual_machine known_as (sign_extend vmid)) s).0
            ≡ ok vm)
          × IsRemovedFrom known_as vm.vmid
              (client (virtual_machine known_as (sign_extend vmid)) s).1)

  -- In this state, the node is said to be gone, or answers and the machine goes.
  abbrev pub IsGoneFrom : (name : String) (vmid : ℕ) → S → Type 0
  IsGoneFrom name vmid s =
      ((e : Error) × ((client (node name) s).0 ≡ err e) × (is_already_gone_err e ≡ true))
      ⊎ ((known_as : String) × ((client (node name) s).0 ≡ ok known_as)
          × IsGoneOn known_as vmid (client (node name) s).1)

  module _ (stop_ticks delete_ticks : ℕ) (cancelled : Error) where
    deleted :
        (n : String) (vmid : ℕ) (w : World S)
        → ((call client (vm_delete n vmid) >>= λ deleting.
              wait_for_task_to_finish client delete_ticks cancelled deleting >>= λ _.
              cleanup_recorded_pool client stop_ticks delete_ticks cancelled)
            w).0
          ≡ ok tt
        → IsDeletedFrom n vmid w.server
    unfolding call
    deleted n vmid w h =
        let (deleting, accepted, rest) = bind_ok (call client (vm_delete n vmid)) _ w tt h in
        let (over, waited, last) =
          bind_ok (wait_for_task_to_finish client delete_ticks cancelled deleting) _ _ tt
            (sym (ap (λ o. o.0) rest) ∙ h) in
        let (k, ended, state) = wait_ends client deleting delete_ticks cancelled _ waited in
        (deleting, accepted, k, ended)

    removed :
        (n : String) (vm : VirtualMachine) (w : World S)
        → (remove_vm client stop_ticks delete_ticks cancelled (n, vm) w).0 ≡ ok tt
        → IsRemovedFrom n vm.vmid w.server
    unfolding remove_vm call
    removed n vm w h =
        let (stopping, accepted, rest) = bind_ok (call client (vm_stop n vm.vmid)) _ w tt h in
        let h' = sym (ap (λ o. o.0) rest) ∙ h in
        let (over, waited, last) =
          bind_ok (wait_for_task_to_finish client stop_ticks cancelled stopping) _ _ tt h' in
        let (k, ended, state) = wait_ends client stopping stop_ticks cancelled _ waited in
        (
          stopping,
          accepted,
          k,
          ended,
          subst (IsDeletedFrom n vm.vmid) state
              (deleted n vm.vmid _ (sym (ap (λ o. o.0) last) ∙ h')),
        )

    kept_error :
        (e : Error) (w : World S)
        → is_already_gone_err e ≡ false
        → (remove_found client stop_ticks delete_ticks cancelled (err e) w).0 ≡ err e
    unfolding remove_found fail
    kept_error e w other = rw other refl

    gone_error :
        (e : Error) (w : World S)
        → (remove_found client stop_ticks delete_ticks cancelled (err e) w).0 ≡ ok tt
        → is_already_gone_err e ≡ true
    gone_error e w h = elim (Bool-cases (is_already_gone_err e)) [
      | inl gone ↦ gone
      | inr other ↦ absurd (let k = kept_error e w other in ground (arith, h, k))
    ]

    module _ (name : String) (vmid : ℕ) (w : World S) where
      -- What comes behind `getVM`.
      abbrev removal : Result (Unit {0}) × World S
      removal =
          remove_found client stop_ticks delete_ticks cancelled (get_vm client name vmid w).0
            (get_vm client name vmid w).1

      -- The world behind the request for the node.
      abbrev at_node : World S
      at_node = (call client (node name) w).1

      no_node :
          (e : Error)
          → (client (node name) w.server).0 ≡ err e
          → get_vm client name vmid w ≡ (err e, at_node)
      unfolding get_vm call ◌>>=◌
      no_node e h = rw h refl

      abbrev at_vm : (known_as : String) → World S
      at_vm known_as = (call client (virtual_machine known_as (sign_extend vmid)) at_node).1

      no_vm :
          (known_as : String) (e : Error)
          → (client (node name) w.server).0 ≡ ok known_as
          → (client (virtual_machine known_as (sign_extend vmid)) (client (node name) w.server).1).0
            ≡ err e
          → get_vm client name vmid w ≡ (err e, at_vm known_as)
      unfolding get_vm call ◌>>=◌
      no_vm known_as e h k = rw (h, k) refl

      this_vm :
          (known_as : String) (vm : VirtualMachine)
          → (client (node name) w.server).0 ≡ ok known_as
          → (client (virtual_machine known_as (sign_extend vmid)) (client (node name) w.server).1).0
            ≡ ok vm
          → get_vm client name vmid w ≡ (ok (known_as, vm), at_vm known_as)
      unfolding get_vm call ◌>>=◌
      this_vm known_as vm h k = rw (h, k) refl

      abbrev after_get : Result (String × VirtualMachine) × World S → Result (Unit {0})
      after_get o = (remove_found client stop_ticks delete_ticks cancelled o.0 o.1).0

      found_gone : removal.0 ≡ ok tt → IsGoneFrom name vmid w.server
      unfolding call remove_found
      found_gone h = elim (Result-cases (client (node name) w.server).0) [
        | inr (e, lost) ↦
            inl (e, lost, gone_error e at_node (sym (ap after_get (no_node e lost)) ∙ h))
        | inl (known_as, reached) ↦
            elim (Result-cases
              (client (virtual_machine known_as (sign_extend vmid))
                (client (node name) w.server).1).0) [
                  | inr (e, lost) ↦ inr (
                    known_as,
                    reached,
                    inl (
                      e,
                      lost,
                      gone_error e (at_vm known_as)
                          (sym (ap after_get (no_vm known_as e reached lost)) ∙ h),
                    ),
                  )
                  | inl (vm, found) ↦ inr (
                    known_as,
                    reached,
                    inr (
                      vm,
                      found,
                      removed known_as vm (at_vm known_as)
                          (sym (ap after_get (this_vm known_as vm reached found)) ∙ h),
                    ),
                  )
                ]
      ]

    pub from_node :
        (name : String) (w : World S)
        → (remove_on client stop_ticks delete_ticks cancelled (some name) w).0 ≡ ok tt
        → IsGoneFrom name w.machine.vmid w.server
    unfolding remove_on machine attempt ◌>>=◌
    from_node name w h = found_gone name w.machine.vmid w h
