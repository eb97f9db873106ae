-- ===== src/Provision/Teardown/Ordered.antt =====
-- `Deprovision`: the order of its requests, on every path.
use omni_infra_provider_prox.Base.{
  ℕ, String, ◌≡◌, refl, subst, sym, true, false, Option, none, some, ◌⊎◌, inl, inr, List, [], ◌∷◌,
  ◌==◌, if◌then◌else◌, Memᴰ, arith,
}
use omni_infra_provider_prox.Errors.{Error, Result, ok, err}
use omni_infra_provider_prox.Api.{
  Client, Request, VirtualMachine, is_order, ha_resource_delete, vm_stop, vm_delete,
}
use omni_infra_provider_prox.Data.{MachineSpec}
use omni_infra_provider_prox.Exec.{World, M, pure, attempt, map_error, machine, call}
use omni_infra_provider_prox.Exec.Frames.{
  IsStable, Keeps, Keeps-if, Keeps-fail, Keeps-attempt, Keeps-modify, Keeps-machine,
}
use omni_infra_provider_prox.Exec.Triples.{Ends, Ends-pure, Ends-if, Ends-bind}
use omni_infra_provider_prox.Ha.Classify.{classified}
use omni_infra_provider_prox.Ha.Names.{machine_sid}
use omni_infra_provider_prox.Ha.Steps.{teardown}
use omni_infra_provider_prox.Ha.Steps.Frames.{after_teardown-Keeps}
use omni_infra_provider_prox.Ha.Steps.{deprovision as ha_deprovision}
use omni_infra_provider_prox.Provision.Tasks.Frames.{wait-Keeps}
use omni_infra_provider_prox.Provision.Steps.Frames.{get_vm-Keeps}
use omni_infra_provider_prox.Provision.Teardown.{remove_vm, remove_found, remove_on}
use omni_infra_provider_prox.Provision.Teardown.{deprovision as teardown_machine}
use omni_infra_provider_prox.Provision.Teardown.Ledger.{recorded-Keeps, locate-Keeps}

-- The requests that are before a request, newest first, let it be sent: a deletion comes behind a stop of
-- that machine, and behind the deregistration if the machine is registered.
module _ (m : MachineSpec) where
  abbrev pub IsFree : List Request → Type 0
  IsFree older =
      (m.ha_registered ≡ false) ⊎ Memᴰ (ha_resource_delete (machine_sid m.vmid) true) older

  abbrev pub Allows : List Request → Request → Type 0
  Allows older (vm_delete on vmid) = Memᴰ (vm_stop on vmid) older × IsFree older
  Allows older r = Unit {0}

  abbrev pub IsOrdered : List Request → Type 0
  IsOrdered [] = Unit {0}
  IsOrdered (r ∷ older) = Allows older r × IsOrdered older

  Allows-quiet : (older : List Request) (r : Request) → is_order r ≡ false → Allows older r
  Allows-quiet older (vm_delete on vmid) h = absurd (ground arith)
  Allows-quiet older _ h = tt

  IsFree-later : (r : Request) (older : List Request) → IsFree older → IsFree (r ∷ older)
  IsFree-later r older (inl plain) = inl plain
  IsFree-later r older (inr gone) = inr (Memᴰ.tail gone)

module _ {S : Type 0} (client : Client S) (m : MachineSpec) where
  -- Before the deregistration, behind it, and behind the stop.
  abbrev Begun : World S → Type 0
  Begun w = IsOrdered m w.log × (w.machine ≡ m)

  abbrev Freed : World S → Type 0
  Freed w = Begun w × IsFree m w.log

  abbrev Stopped : (on : String) (vmid : ℕ) → World S → Type 0
  Stopped on vmid w = Freed w × Memᴰ (vm_stop on vmid) w.log

  Begun-IsStable : IsStable client Begun
  unfolding call
  Begun-IsStable = record { at = λ r other w h. ((Allows-quiet m w.log r other, h.0), h.1) }

  Freed-IsStable : IsStable client Freed
  unfolding call
  Freed-IsStable = record {
    at = λ r other w h. (Begun-IsStable.at r other w h.0, IsFree-later m r w.log h.1);
  }

  Stopped-IsStable : (on : String) (vmid : ℕ) → IsStable client (Stopped on vmid)
  unfolding call
  Stopped-IsStable on vmid = record {
    at = λ r other w h. (Freed-IsStable.at r other w h.0, Memᴰ.tail h.1);
  }

  -- Whatever the outcome.
  abbrev Leads : {A : Type 0} → (World S → Type 0) → M S A → (World S → Type 0) → Type 0
  Leads P k Q = Ends P k (λ r w. Q w)

  abbrev Ordered : World S → Type 0
  Ordered w = IsOrdered m w.log

  keeping : {A : Type 0} {inv : World S → Type 0} {k : M S A} → Keeps inv k → Leads inv k inv
  keeping h = record { at = h.at }

  in_order : {A : Type 0} {k : M S A} → Keeps Freed k → Leads Freed k Ordered
  in_order h = record { at = λ w f. (h.at w f).0.0 }

  -- With the machine at hand.
  abbrev With : (World S → Type 0) → Result MachineSpec → World S → Type 0
  With P (ok a) w = P w × (a ≡ m)
  With P (err e) w = ⊥

  this_machine :
      {P : World S → Type 0} → ((w : World S) → P w → w.machine ≡ m) → Ends P machine (With P)
  unfolding machine
  this_machine same = record { at = λ w h. (h, same w h) }

  given_same :
      {A : Type 0} {P : World S → Type 0} {Q : Result A → World S → Type 0} (a : MachineSpec)
      (k : MachineSpec → M S A)
      → Ends P (k m) Q
      → Ends (λ w. P w × (a ≡ m)) (k a) Q
  given_same {P = P} {Q = Q} a k h = record {
    at = λ w both. (subst (λ x. Ends P (k x) Q) (sym both.1) h).at w both.0;
  }

  deregistered :
      Leads Begun
        (attempt (classified (call client (ha_resource_delete (machine_sid m.vmid) true))))
        Freed
  unfolding attempt map_error call
  deregistered = record { at = λ w h. (((tt, h.0), h.1), inr (Memᴰ.head refl)) }

  ha_deprovision-Freed : Leads Begun (ha_deprovision client) Freed
  unfolding ha_deprovision teardown
  ha_deprovision-Freed =
      Ends-bind _ _ (this_machine (λ w h. h.1)) (λ e w bad. absurd bad)
        λ a.
          given_same a
            (λ x. if x.ha_registered then teardown client (machine_sid x.vmid) else pure tt)
            (Ends-if m.ha_registered _ _
              (λ _.
                Ends-bind _ _ deregistered (λ e w h. h)
                  (λ r.
                    keeping
                      (after_teardown-Keeps client Freed Freed-IsStable (machine_sid m.vmid) r)))
              (λ plain. Ends-pure tt (λ w h. (h, inl plain))))

  stop-Stopped :
      (on : String) (vmid : ℕ) → Leads Freed (call client (vm_stop on vmid)) (Stopped on vmid)
  unfolding call
  stop-Stopped on vmid = record {
    at =
        λ w h. ((((tt, h.0.0), h.0.1), IsFree-later m (vm_stop on vmid) w.log h.1), Memᴰ.head refl);
  }

  delete-Freed :
      (on : String) (vmid : ℕ) → Leads (Stopped on vmid) (call client (vm_delete on vmid)) Freed
  unfolding call
  delete-Freed on vmid = record {
    at =
        λ w h. ((((h.1, h.0.1), h.0.0.0), h.0.0.1), IsFree-later m (vm_delete on vmid) w.log h.0.1);
  }

  module _ (stop_ticks delete_ticks : ℕ) (cancelled : Error) where
    remove_vm-Ordered :
        (vm : String × VirtualMachine)
        → Leads Freed (remove_vm client stop_ticks delete_ticks cancelled vm) Ordered
    unfolding remove_vm
    remove_vm-Ordered (n, vm) =
        Ends-bind _ _ (stop-Stopped n vm.vmid) (λ e w h. h.0.0.0)
          λ stopping.
            Ends-bind _ _
              (keeping (
                wait-Keeps client (Stopped n vm.vmid) (Stopped-IsStable n vm.vmid) stop_ticks
                  cancelled stopping))
              (λ e w h. h.0.0.0)
              λ _.
                Ends-bind _ _ (delete-Freed n vm.vmid) (λ e w h. h.0.0)
                  λ deleting.
                    Ends-bind _ _
                      (keeping
                        (wait-Keeps client Freed Freed-IsStable delete_ticks cancelled deleting))
                      (λ e w h. h.0.0)
                      λ _. in_order (
                        recorded-Keeps client Freed Freed-IsStable stop_ticks delete_ticks
                          cancelled)

    remove_found-Ordered :
        (r : Result (String × VirtualMachine))
        → Leads Freed (remove_found client stop_ticks delete_ticks cancelled r) Ordered
    unfolding remove_found
    remove_found-Ordered (ok vm) = remove_vm-Ordered vm
    remove_found-Ordered (err e) = in_order (
        Keeps-if _ _ _
          (recorded-Keeps client Freed Freed-IsStable stop_ticks delete_ticks cancelled)
          (Keeps-fail e))

    remove_on-Ordered :
        (o : Option String)
        → Leads Freed (remove_on client stop_ticks delete_ticks cancelled o) Ordered
    unfolding remove_on
    remove_on-Ordered none =
        in_order (recorded-Keeps client Freed Freed-IsStable stop_ticks delete_ticks cancelled)
    remove_on-Ordered (some n) =
        Ends-bind _ _ (keeping Keeps-machine) (λ e w h. h.0.0)
          λ a.
            Ends-bind _ _
              (keeping (Keeps-attempt _ (get_vm-Keeps client Freed Freed-IsStable n a.vmid)))
              (λ e w h. h.0.0) remove_found-Ordered

    deprovision-Ordered :
        (request_id : String)
        → Leads Begun (teardown_machine client stop_ticks delete_ticks cancelled request_id) Ordered
    unfolding teardown_machine
    deprovision-Ordered request_id =
        Ends-bind _ _ (keeping (Keeps-modify _ (λ w h. h))) (λ e w h. h.0)
          λ _.
            Ends-bind _ _ (keeping Keeps-machine) (λ e w h. h.0)
              λ a.
                Ends-if (a.vmid == 0) _ _ (λ _. Ends-pure tt (λ w h. h.0))
                  λ _.
                    Ends-bind _ _ ha_deprovision-Freed (λ e w h. h.0.0)
                      λ _.
                        Ends-bind _ _
                          (keeping (
                            locate-Keeps client Freed Freed-IsStable stop_ticks delete_ticks
                              cancelled))
                          (λ e w h. h.0.0) remove_on-Ordered

-- However a teardown ends, errors included, and whatever Proxmox answers: of the requests that it
-- sends, each deletion of a machine comes behind a stop of that machine on that node, and, if the
-- machine is registered in HA, behind its deregistration.
pub deprovision-IsOrdered :
    {S : Type 0} (client : Client S) (stop_ticks delete_ticks : ℕ) (cancelled : Error)
    (request_id : String) (w : World S)
    → w.log ≡ []
    → IsOrdered w.machine
        (teardown_machine client stop_ticks delete_ticks cancelled request_id w).1.log
deprovision-IsOrdered client stop_ticks delete_ticks cancelled request_id w unsent =
    (deprovision-Ordered client w.machine stop_ticks delete_ticks cancelled request_id).at w
      (subst (IsOrdered w.machine) (sym unsent) tt, refl)
