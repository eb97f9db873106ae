-- ===== src/Provision/Run/Unique.antt =====
-- The creations that Proxmox accepts in a run of the provisioning steps.
use omni_infra_provider_prox.Base.{true, false, ◌=ₜ◌, refl}
use omni_infra_provider_prox.Base.{ℕ, ◌≤◌, ◌≡◌, ◌∙◌, ap, true, inl, inr, ◌=ₜ◌, arith}
use omni_infra_provider_prox.Api.{is_creation}
use omni_infra_provider_prox.Data.{Context}
use omni_infra_provider_prox.Exec.{World, machine, ◌>>=◌}
use omni_infra_provider_prox.Exec.Frames.{Shared, part-kept}
use omni_infra_provider_prox.Provision.Tasks.{check_task_status}
use omni_infra_provider_prox.Provision.Tasks.Frames.{check_task_status-Keeps}
use omni_infra_provider_prox.Provision.Create.{sync_vm}
use omni_infra_provider_prox.Provision.Run.{
  Step, pick_node, upload, sync, start, register_ha, sync_ha_rules, Provisioner, run_step, counting,
  Move, attempt, others, outside, Reaches, here, later,
}
use omni_infra_provider_prox.Provision.Run.Creation.{
  creations, Made, counting-IsStable, download-kept, NamesTasks, IsSingle, create_vm-IsSingle,
}
use omni_infra_provider_prox.Provision.Run.Landing.{landing-Keeps}
use omni_infra_provider_prox.Provision.Run.Attempts.{is_sync, other_step-Keeps}

-- The provisioner over a client that counts.
abbrev pub counted : {S F : Type 0} → Provisioner S F → Provisioner (S × ℕ) F
counted p = record {
  client = counting is_creation p.client;
  ratio = p.ratio;
  no_memory = p.no_memory;
  compare_memory = p.compare_memory;
  sort = p.sort;
  vm_has_tag = p.vm_has_tag;
  tag_separator = p.tag_separator;
  matches = p.matches;
}

module _ {S F : Type 0} (p : Provisioner S F) where
  -- The steps but syncVM.
  pub other_step-kept :
      (step : Step) (now : ℕ) (pctx : Context) (w : World (S × ℕ))
      → is_sync step ≡ false
      → creations (run_step (counted p) step now pctx w).1 ≡ creations w
  other_step-kept step now pctx w other =
      let stable = counting-IsStable p.client (creations w) in
      part-kept (run_step (counted p) step now pctx) w (
        other_step-Keeps (counted p) (Made (creations w)) stable
          (λ asked_for on storage name url named stored.
            landing-Keeps (counting is_creation p.client) (Made (creations w)) stable on storage
              name url (download-kept p.client (creations w) on storage name url) (λ s t l h. h)
              (λ s t l upid h. h))
          step now pctx other)

  -- With a creation task on record, `syncVM` only looks at it.
  pub recorded_sync :
      (pctx : Context) (w : World (S × ℕ))
      → (w.machine.vm_create_task =ₜ "") ≡ false
      → sync_vm (counting is_creation p.client) p.matches pctx w
        ≡ check_task_status (counting is_creation p.client) w.machine.vm_create_task w
  unfolding sync_vm machine ◌>>=◌
  recorded_sync pctx w on = rw on refl

  pub recorded_sync-kept :
      (pctx : Context) (w : World (S × ℕ))
      → (w.machine.vm_create_task =ₜ "") ≡ false
      → creations (sync_vm (counting is_creation p.client) p.matches pctx w).1 ≡ creations w
  recorded_sync-kept pctx w on =
      ap (λ o. creations o.1) (recorded_sync pctx w on)
      ∙ part-kept (check_task_status (counting is_creation p.client) w.machine.vm_create_task) w (
          check_task_status-Keeps (counting is_creation p.client) (Shared (Made (creations w)))
            (counting-IsStable p.client (creations w)) w.machine.vm_create_task)

module _ {S F : Type 0} (p : Provisioner S F) (names : NamesTasks p.client) where
  IsSingle-cong : (w v : World (S × ℕ)) → creations v ≡ creations w → IsSingle w → IsSingle v
  IsSingle-cong w v e (inl u) = inl (e ∙ u)
  IsSingle-cong w v e (inr (one, on)) = inr (ap (λ c. c.0) e ∙ one, ap (λ c. c.1 =ₜ "") e ∙ on)

  kept-IsSingle :
      (step : Step) (now : ℕ) (pctx : Context) (w : World (S × ℕ))
      → is_sync step ≡ false
      → IsSingle w
      → IsSingle (run_step (counted p) step now pctx w).1
  kept-IsSingle step now pctx w other i =
      IsSingle-cong w (run_step (counted p) step now pctx w).1
        (other_step-kept p step now pctx w other) i

  sync_vm-IsSingle :
      (pctx : Context) (w : World (S × ℕ))
      → IsSingle w
      → IsSingle (sync_vm (counting is_creation p.client) p.matches pctx w).1
  unfolding sync_vm machine ◌>>=◌
  sync_vm-IsSingle pctx w (inl u) =
      let unset : (w.machine.vm_create_task =ₜ "") ≡ true = ap (λ c. c.1 =ₜ "") u in
      rw unset ((create_vm-IsSingle p.client names p.matches pctx).at w u)
  sync_vm-IsSingle pctx w (inr (one, on)) =
      IsSingle-cong w (sync_vm (counting is_creation p.client) p.matches pctx w).1
        (recorded_sync-kept p pctx w on) (inr (one, on))

  run_step-IsSingle :
      (step : Step) (now : ℕ) (pctx : Context) (w : World (S × ℕ))
      → IsSingle w
      → IsSingle (run_step (counted p) step now pctx w).1
  unfolding run_step
  run_step-IsSingle sync now pctx w i = sync_vm-IsSingle pctx w i
  run_step-IsSingle pick_node now pctx w i = kept-IsSingle pick_node now pctx w refl i
  run_step-IsSingle upload now pctx w i = kept-IsSingle upload now pctx w refl i
  run_step-IsSingle start now pctx w i = kept-IsSingle start now pctx w refl i
  run_step-IsSingle register_ha now pctx w i = kept-IsSingle register_ha now pctx w refl i
  run_step-IsSingle sync_ha_rules now pctx w i = kept-IsSingle sync_ha_rules now pctx w refl i

  Move-IsSingle : {w v : World (S × ℕ)} → Move (counted p) w v → IsSingle w → IsSingle v
  Move-IsSingle {w} (attempt step now pctx) i = run_step-IsSingle step now pctx w i
  Move-IsSingle (others ledger downloads) i = i
  Move-IsSingle (outside s) i = i

  Reaches-IsSingle : {w v : World (S × ℕ)} → Reaches (counted p) w v → IsSingle w → IsSingle v
  Reaches-IsSingle here i = i
  Reaches-IsSingle (later r m) i = Move-IsSingle m (Reaches-IsSingle r i)

  creations-bound : (w : World (S × ℕ)) → IsSingle w → w.server.1 ≤ 1
  creations-bound w (inl u) = let e : w.server.1 ≡ 0 = ap (λ c. c.0) u in omega arith
  creations-bound w (inr (one, on)) = omega arith

  -- If Proxmox names the task of every creation that it accepts: from a machine with no creation task
  -- on record, over any attempts of any provisioning steps in any order, whatever Proxmox answers and
  -- however the steps end, and with any changes by others in between, Proxmox accepts at most one
  -- creation for the machine.
  pub Reaches-creations :
      {w v : World (S × ℕ)}
      → w.server.1 ≡ 0
      → w.machine.vm_create_task ≡ ""
      → Reaches (counted p) w v
      → v.server.1 ≤ 1
  Reaches-creations {w} {v} zero_made unset r =
      creations-bound v (Reaches-IsSingle r (inl (λ i. (zero_made i, unset i))))
