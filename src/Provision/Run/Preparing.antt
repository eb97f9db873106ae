-- ===== src/Provision/Run/Preparing.antt =====
-- What the work of syncVM up to the creation maintains, of what the machines share.
use omni_infra_provider_prox.Base.{ℕ, ◌+◌, String, refl, not, List, [], ◌∷◌, Map}
use omni_infra_provider_prox.Api.{
  Client, VmOption, pools, new_pool, node, cluster, next_id, storage_iso, iso, new_virtual_machine,
}
use omni_infra_provider_prox.Data.{Context, AdditionalDisk}
use omni_infra_provider_prox.Exec.{call}
use omni_infra_provider_prox.Exec.Frames.{
  IsStable, Shared, Keeps, Keeps-set_machine, Keeps-modify, Keeps-bind, Keeps-map_error, Keeps-pure,
  Keeps-call, Keeps-lift, Keeps-if, Keeps-machine, Keeps-fail, frame_rules,
}
use omni_infra_provider_prox.Provision.Pools.{pool_comment, find_pool_in_list, ensure_pool}
use omni_infra_provider_prox.Provision.Create.{
  Selector, pick_storage, disk_options_from, pool_options, assign_uuid, create_vm,
}

module _ {S : Type 0} (client : Client S) (kept : S → String → Map String → Type 0)
    (stable : IsStable client (Shared kept)) where
  pub pick_storage-Keeps :
      (matches : Selector) (on selector : String)
      → Keeps (Shared kept) (pick_storage client matches on selector)
  unfolding pick_storage
  pick_storage-Keeps matches on selector = search (frame_rules, stable)

  pub disks-Keeps :
      (matches : Selector) (on : String) (i : ℕ) (disks : List AdditionalDisk)
      → Keeps (Shared kept) (disk_options_from client matches on i disks)
  unfolding disk_options_from
  disks-Keeps matches on i [] = search frame_rules
  disks-Keeps matches on i (disk ∷ disks) =
      Keeps-bind _ _ (Keeps-map_error _ _ (pick_storage-Keeps matches on disk.storage_selector))
        λ storage. Keeps-bind _ _ (disks-Keeps matches on (i + 1) disks) (λ rest. Keeps-pure _)

  ensure_pool-Keeps : (id set : String) → Keeps (Shared kept) (ensure_pool client id set)
  unfolding ensure_pool find_pool_in_list
  ensure_pool-Keeps id set =
      Keeps-bind _ _
        (Keeps-bind _ _ (Keeps-map_error _ _ (Keeps-call _ pools refl stable)) (λ ps. Keeps-pure _))
        λ found. Keeps-bind _ _ (Keeps-lift _) λ create.
          Keeps-if (not create) _ _ (Keeps-pure tt)
            (Keeps-call _ (new_pool id pool_comment) refl stable)

  pub pool_options-Keeps :
      (matches : Selector) (id set : String)
      → Keeps (Shared kept) (pool_options client matches id set)
  unfolding pool_options
  pool_options-Keeps matches id set =
      search (frame_rules, Keeps-set_machine, ensure_pool-Keeps) depth 12

  pub assign_uuid-Keeps :
      (matches : Selector) (pctx : Context) → Keeps (Shared kept) (assign_uuid client matches pctx)
  unfolding assign_uuid
  assign_uuid-Keeps matches pctx = search (frame_rules, Keeps-set_machine, Keeps-modify) depth 12

  -- The whole of it, for an invariant that a creation maintains too, and that does not speak of its task.
  module _
      (creates : (n : String) (vmid : ℕ) (options : List VmOption)
        → Keeps (Shared kept) (call client (new_virtual_machine n vmid options)))
      (any_task : (s : S) (t u : String) (downloads : Map String)
        → kept s t downloads
        → kept s u downloads) where
    pub create_vm-Keeps :
        (matches : Selector) (pctx : Context) → Keeps (Shared kept) (create_vm client matches pctx)
    unfolding create_vm
    create_vm-Keeps matches pctx = Keeps-bind _ _ (assign_uuid-Keeps matches pctx) λ _.
        Keeps-bind _ _ (Keeps-lift pctx.provider_data) λ cfg. Keeps-bind _ _ Keeps-machine λ m.
          Keeps-bind _ _ (Keeps-call _ (node m.node) refl stable) λ n.
            Keeps-bind _ _ (Keeps-call _ cluster refl stable) λ _.
              Keeps-bind _ _ (Keeps-call _ next_id refl stable) λ vmid.
                Keeps-bind _ _ (Keeps-call _ (storage_iso n) refl stable) λ iso_storage.
                  Keeps-bind _ _ (Keeps-call _ (iso n iso_storage m.volume_id) refl stable)
                    λ volume.
                      Keeps-bind _ _ (pick_storage-Keeps matches n cfg.storage_selector) λ storage.
                        Keeps-bind _ _ (pool_options-Keeps matches _ _) λ pool.
                          Keeps-bind _ _ (disks-Keeps matches n 0 cfg.additional_disks) λ disks.
                            Keeps-bind _ _ (creates n vmid _) λ upid.
                              Keeps-bind _ _
                                (Keeps-set_machine _ (λ w h.
                                  any_task w.server w.machine.vm_create_task upid
                                    w.pending_iso_downloads h))
                                λ _. Keeps-fail _
