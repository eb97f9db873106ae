-- ===== src/Provision/Teardown/Removal.antt =====
-- `Deprovision`: what a teardown that returns without an error has made sure of.
use omni_infra_provider_prox.Base.{
  ℕ, String, ◌≡◌, ◌∙◌, refl, sym, ap, subst, true, false, Option, none, some, ◌⊎◌, inl, inr, ◌==◌,
  ◌=ₜ◌, if◌then◌else◌, Bool-cases, arith,
}
use omni_infra_provider_prox.Errors.{Error, Result, ok}
use omni_infra_provider_prox.Api.{Client}
use omni_infra_provider_prox.Data.{MachineSpec}
use omni_infra_provider_prox.Exec.{World, pure, machine, ◌>>=◌}
use omni_infra_provider_prox.Exec.Rules.{bind_ok}
use omni_infra_provider_prox.Scheduler.{release}
use omni_infra_provider_prox.Ha.Members.{find_vm_node}
use omni_infra_provider_prox.Ha.Members.Searching.{SearchOf, find_vm_node_lem}
use omni_infra_provider_prox.Ha.Steps.{deprovision as ha_deprovision}
use omni_infra_provider_prox.Ha.Steps.Frames.{deprovision-Keeps}
use omni_infra_provider_prox.Ha.Steps.Registration.{machine-IsStable}
use omni_infra_provider_prox.Provision.Teardown.{remove_on, locate}
use omni_infra_provider_prox.Provision.Teardown.{deprovision as teardown_machine}
use omni_infra_provider_prox.Provision.Teardown.Ledger.{locate-Keeps}
use omni_infra_provider_prox.Provision.Teardown.Gone.{IsGoneFrom, from_node}

module _ {S : Type 0} (client : Client S) where
  module _ (stop_ticks delete_ticks : ℕ) (cancelled : Error) where
    -- Where the machine was looked for.
    abbrev pub PlaceOf : MachineSpec → Option String → Type 0
    PlaceOf m o =
        ((m.ha_registered ≡ true) × SearchOf client m.vmid o)
        ⊎ ((m.ha_registered ≡ false) × (o ≡ (if m.node =ₜ "" then none else some m.node)))

    place_found :
        (w : World S) (o : Option String)
        → (locate client stop_ticks delete_ticks cancelled w).0 ≡ ok o
        → PlaceOf w.machine o
    unfolding locate machine pure ◌>>=◌
    place_found w o h =
        let scan = find_vm_node client w.machine.vmid in
        let recorded = pure (if w.machine.node =ₜ "" then none else some w.machine.node) in
        elim (Bool-cases w.machine.ha_registered) [
          | inl left ↦
              let e = ap (λ b. ((if b then scan else recorded) w).0) left in
              inl (left, find_vm_node_lem client w.machine.vmid w o (sym e ∙ h))
          | inr plain ↦
              let e = ap (λ b. ((if b then scan else recorded) w).0) plain in
              inr (plain, let k = sym h ∙ e in ground arith)
        ]

    -- The worlds of a teardown: behind the deregistration from HA, and behind the search.
    module _ (request_id : String) (w : World S) where
      abbrev pub deregistered : World S
      deregistered = (ha_deprovision client (record w { ledger = release request_id w.ledger })).1

      abbrev pub searched : Result (Option String) × World S
      searched = locate client stop_ticks delete_ticks cancelled deregistered

      -- The search came to a place, and if that is a node, the machine went from there, in the state of
      -- Proxmox that the search left.
      abbrev pub IsGoneAt : Option String → Type 0
      IsGoneAt none = Unit {0}
      IsGoneAt (some name) = IsGoneFrom client name w.machine.vmid searched.1.server

      abbrev pub IsTornDown : Type 0
      IsTornDown = (o : Option String) × (searched.0 ≡ ok o) × PlaceOf w.machine o × IsGoneAt o

      begun :
          (w.machine.vmid == 0) ≡ false
          → teardown_machine client stop_ticks delete_ticks cancelled request_id w
            ≡ (ha_deprovision client >>= λ _.
                  locate client stop_ticks delete_ticks cancelled >>= λ found.
                  remove_on client stop_ticks delete_ticks cancelled found)
                (record w { ledger = release request_id w.ledger })
      unfolding teardown_machine ◌>>=◌
      begun assigned =
          ap
            (λ b.
              (if b
                  then pure tt
                  else (ha_deprovision client >>= λ _.
                      locate client stop_ticks delete_ticks cancelled >>= λ found.
                      remove_on client stop_ticks delete_ticks cancelled found))
                (record w { ledger = release request_id w.ledger }))
            assigned

      same_machine : (deregistered.machine ≡ w.machine) × (searched.1.machine ≡ w.machine)
      same_machine =
          let stable = machine-IsStable client w.machine in
          let one =
            (deprovision-Keeps client (λ v. v.machine ≡ w.machine) stable).at
              (record w { ledger = release request_id w.ledger }) refl in
          (
            one,
            (locate-Keeps client (λ v. v.machine ≡ w.machine) stable stop_ticks delete_ticks
                  cancelled).at
                deregistered one,
          )

      at_place :
          (o : Option String)
          → (remove_on client stop_ticks delete_ticks cancelled o searched.1).0 ≡ ok tt
          → IsGoneAt o
      at_place none h = tt
      at_place (some name) h =
          subst (λ (m : MachineSpec). IsGoneFrom client name m.vmid searched.1.server)
            same_machine.1 (from_node client stop_ticks delete_ticks cancelled name searched.1 h)

    -- If a teardown of a machine that has an id returns without an error, then behind its
    -- deregistration from HA the machine was looked for where it is: by the search over the nodes if HA
    -- had it, and otherwise on the node that is on record. If that is a node, then from the state of
    -- Proxmox that the search left, the node was said to be gone, or it answered, and the machine of
    -- this id was said to be gone on it, or Proxmox had it there, accepted its stop, whose task ended
    -- with success, and then its deletion, whose task ended with success.
    pub deprovision-IsTornDown :
        (request_id : String) (w : World S)
        → (w.machine.vmid == 0) ≡ false
        → (teardown_machine client stop_ticks delete_ticks cancelled request_id w).0 ≡ ok tt
        → IsTornDown request_id w
    deprovision-IsTornDown request_id w assigned h =
        let start = record w { ledger = release request_id w.ledger } in
        let run = sym (ap (λ q. q.0) (begun request_id w assigned)) ∙ h in
        let (left, deregistering, behind) = bind_ok (ha_deprovision client) _ start tt run in
        let rest = sym (ap (λ q. q.0) behind) ∙ run in
        let (o, at, last) =
          bind_ok (locate client stop_ticks delete_ticks cancelled) _ (deregistered request_id w) tt
            rest in
        (
          o,
          at,
          subst (λ m. PlaceOf m o) (same_machine request_id w).0
              (place_found (deregistered request_id w) o at),
          at_place request_id w o (sym (ap (λ q. q.0) last) ∙ rest),
        )
