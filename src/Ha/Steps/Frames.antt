-- ===== src/Ha/Steps/Frames.antt =====
-- What the HA manager leaves alone: the scheduler's ledger and, but for the flag, the machine.
use omni_infra_provider_prox.Base.{refl, ℕ, String, Option, none, some, List, [], ◌∷◌, not, ◌=ₜ◌}
use omni_infra_provider_prox.Errors.{Result, ok, err}
use omni_infra_provider_prox.Api.{
  Client, NodeInfo, HaResourceUpdateOption, node, virtual_machines, ha_resource_update,
}
use omni_infra_provider_prox.Exec.{World, M}
use omni_infra_provider_prox.Exec.Frames.{
  IsStable, Keeps, Keeps-map_error, Keeps-call, Keeps-if, Keeps-bind, Keeps-attempt, Keeps-pure,
  frame_rules,
}
use omni_infra_provider_prox.Data.{Context}
use omni_infra_provider_prox.Ha.Options.{Config}
use omni_infra_provider_prox.Ha.Rules.Frames.{sync_rules-Keeps}
use omni_infra_provider_prox.Ha.Classify.{classify}
use omni_infra_provider_prox.Ha.Members.{
  node_online, found_vm, unless_unreachable, scan_nodes, find_vm_node,
}
use omni_infra_provider_prox.Ha.Steps.{
  update_existing, after_register, register, after_teardown, teardown, deprovision, sync_with,
  sync_rules_step,
}

module _ {S : Type 0} (client : Client S) (inv : World S → Type 0)
    (local : IsStable client inv) where
  update_existing-Keeps :
      (sid : String) (opt : Option HaResourceUpdateOption)
      → Keeps inv (update_existing client sid opt)
  unfolding update_existing
  update_existing-Keeps sid none = search frame_rules
  update_existing-Keeps sid (some opt) =
      Keeps-map_error _ _
        (Keeps-map_error classify _ (Keeps-call client (ha_resource_update sid opt) refl local))

  after_register-Keeps :
      (sid : String) (cfg : Config) (r : Result (Unit {0}))
      → Keeps inv (after_register client sid cfg r)
  unfolding after_register
  after_register-Keeps sid cfg (ok _) = search frame_rules
  after_register-Keeps sid cfg (err e) = search (frame_rules, update_existing-Keeps)

  pub register-Keeps : (sid : String) (cfg : Config) → Keeps inv (register client sid cfg)
  unfolding register
  register-Keeps sid cfg = search (frame_rules, after_register-Keeps) depth 9

  pub after_teardown-Keeps :
      (sid : String) (r : Result (Unit {0})) → Keeps inv (after_teardown client sid r)
  unfolding after_teardown
  after_teardown-Keeps sid (ok _) = search frame_rules
  after_teardown-Keeps sid (err e) = search frame_rules

  teardown-Keeps : (sid : String) → Keeps inv (teardown client sid)
  unfolding teardown
  teardown-Keeps sid = search (frame_rules, after_teardown-Keeps) depth 9

  pub deprovision-Keeps : Keeps inv (deprovision client)
  unfolding deprovision
  deprovision-Keeps = search (frame_rules, teardown-Keeps) depth 9

  unless_unreachable-Keeps :
      {A : Type 0} (context : String) (r : Result A) (k : A → M S (Option String))
      (skip : M S (Option String))
      → ((a : A) → Keeps inv (k a))
      → Keeps inv skip
      → Keeps inv (unless_unreachable client context r k skip)
  unless_unreachable-Keeps context (ok a) k skip h s = h a
  unless_unreachable-Keeps context (err e) k skip h s = search frame_rules

  scan_nodes-Keeps : (vmid : ℕ) (infos : List NodeInfo) → Keeps inv (scan_nodes client vmid infos)
  unfolding scan_nodes
  scan_nodes-Keeps vmid [] = search frame_rules
  scan_nodes-Keeps vmid (ns ∷ rest) =
      let skip = scan_nodes-Keeps vmid rest in
      Keeps-if (not (ns.status =ₜ node_online)) _ _ skip (
        Keeps-bind _ _ (Keeps-attempt _ (Keeps-call client (node ns.node) refl local)) λ got.
          unless_unreachable-Keeps _ got _ _
            (λ name.
              Keeps-bind _ _
                (Keeps-attempt _ (Keeps-call client (virtual_machines name) refl local))
                λ listed.
                  unless_unreachable-Keeps _ listed _ _
                    (λ vms. Keeps-if (found_vm vmid vms) _ _ (Keeps-pure (some ns.node)) skip) skip)
            skip)

  pub find_vm_node-Keeps : (vmid : ℕ) → Keeps inv (find_vm_node client vmid)
  unfolding find_vm_node
  find_vm_node-Keeps vmid = search (frame_rules, scan_nodes-Keeps) depth 9

  sync_with-Keeps :
      (sep : ℕ) (set : String) (c : Option (Config × String))
      → Keeps inv (sync_with client sep set c)
  unfolding sync_with
  sync_with-Keeps sep set none = search frame_rules
  sync_with-Keeps sep set (some (cfg, sid)) = sync_rules-Keeps client inv local sep set sid cfg

  pub sync_rules_step-Keeps :
      (sep : ℕ) (pctx : Context) → Keeps inv (sync_rules_step client sep pctx)
  unfolding sync_rules_step
  sync_rules_step-Keeps sep pctx = search (frame_rules, sync_with-Keeps) depth 9
