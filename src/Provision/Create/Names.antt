-- ===== src/Provision/Create/Names.antt =====
-- The names of the options that syncVM sends with a creation.
use omni_infra_provider_prox.Base.{
  ℕ, ◌+◌, String, refl, not, inl, inr, List, [], ◌∷◌, ◌++◌, ◌=ₜ◌, Option, none, some, arith,
  Bool-cases,
}
use omni_infra_provider_prox.Api.{
  Client, Request, Task, VmOption, new_virtual_machine, node, cluster, next_id, storage_iso, iso,
  storages, pools, new_pool,
}
use omni_infra_provider_prox.Data.{Context, Data, AdditionalDisk}
use omni_infra_provider_prox.Exec.{M}
use omni_infra_provider_prox.Exec.Rules.{
  Sends, Sends-pure, Sends-fail, Sends-lift, Sends-map_error, Sends-if, Sends-machine,
  Sends-set_machine, Sends-modify, Sends-call, Sends-bind, sends_rules, Sends-after, Yields,
  Yields-pure, Yields-bind, Yields-after,
}
use omni_infra_provider_prox.Provision.Options.{
  text_option, number_option, hugepages_value, disables_balloon,
}
use omni_infra_provider_prox.Provision.Options.Slots.{
  DistinctOptions, slot, Block, Block-nil, Block-cons, Block-when, Block-append, slot-scsi,
}
use omni_infra_provider_prox.Provision.Options.Families.{
  Numbered, Numbered-Block, from_one, firmware-Block, usb-Block, nic-Block, pci-Block,
}
use omni_infra_provider_prox.Provision.Tasks.{check_task_status, task_status, task_failure}
use omni_infra_provider_prox.Provision.Pools.{pool_comment, ensure_pool, find_pool_in_list}
use omni_infra_provider_prox.Provision.Create.{
  Selector, base_options, tags_options, device_options, pick_storage, disk_options_from,
  pool_options, assign_uuid, create_vm, sync_vm,
}

base-Block :
    (uuid request_id cdrom disk : String) (cfg : Data)
    → Block 0 12 (base_options uuid request_id cdrom disk cfg)
unfolding base_options slot
base-Block uuid request_id cdrom disk cfg = Block-cons 0 12 _ _ refl (omega arith) (
    Block-cons 1 12 _ _ refl (omega arith) (
      Block-cons 2 12 _ _ refl (omega arith) (
        Block-cons 3 12 _ _ refl (omega arith) (
          Block-cons 4 12 _ _ refl (omega arith) (
            Block-cons 5 12 _ _ refl (omega arith) (
              Block-cons 6 12 _ _ refl (omega arith) (
                Block-cons 7 12 _ _ refl (omega arith) (
                  Block-cons 8 12 _ _ refl (omega arith) (
                    Block-cons 9 12 _ _ refl (omega arith) (
                      Block-cons 10 12 _ _ refl (omega arith)
                        (Block-cons 11 12 _ _ refl (omega arith) (Block-nil 12 12))))))))))))

tags-Block : (o : Option String) → Block 12 13 (tags_options o)
unfolding slot
tags-Block none = Block-nil 12 13
tags-Block (some tags) = Block-cons 12 13 _ [] refl (omega arith) (Block-nil 13 13)

device-Block : (cfg : Data) (storage : String) → Block 15 25 (device_options cfg storage)
unfolding device_options slot
device-Block cfg storage =
    let machine =
      Block-when 15 16 (not (cfg.machine_type =ₜ "")) (text_option "machine" cfg.machine_type) []
        refl (omega arith) (Block-nil 16 16) in
    let balloon =
      Block-when 21 22 (disables_balloon cfg.balloon) (number_option "balloon" 0) [] refl
        (omega arith) (Block-nil 22 22) in
    let hugepages =
      Block-when 20 22 (not (cfg.hugepages =ₜ ""))
        (text_option "hugepages" (hugepages_value cfg.hugepages)) _ refl (omega arith) balloon in
    let numa = Block-when 19 22 cfg.numa (number_option "numa" 1) _ refl (omega arith) hugepages in
    Block-append 15 24 25 _ _ (omega arith) (omega arith)
      (Block-append 15 23 24 _ _ (omega arith) (omega arith)
        (Block-append 15 22 23 _ _ (omega arith) (omega arith)
          (Block-append 15 19 22 _ _ (omega arith) (omega arith)
            (Block-append 15 16 19 _ _ (omega arith) (omega arith) machine
              (firmware-Block cfg storage))
            numa)
          (nic-Block cfg.additional_nics))
        (pci-Block cfg.pci_devices))
      (usb-Block cfg.usb_devices)

-- A creation with no option twice; other requests are free.
abbrev pub IsDistinct : Request → Type 0
IsDistinct (new_virtual_machine n vmid options) = DistinctOptions options
IsDistinct _ = Unit {0}

module _ {S : Type 0} (client : Client S) (matches : Selector) where
  pool-Block :
      (pool set : String) → Yields (λ os. Block 13 14 os) (pool_options client matches pool set)
  unfolding pool_options slot
  pool-Block pool set = elim (Bool-cases (pool =ₜ "")) [
    | inl e ↦ rw e (Yields-pure _ (Block-nil 13 14))
    | inr e ↦ rw e (
        Yields-bind _ _ λ _.
          Yields-bind _ _
            (λ _. Yields-pure _ (Block-cons 13 14 _ [] refl (omega arith) (Block-nil 14 14))))
  ]

  disk-Numbered :
      (on : String) (i : ℕ) (disks : List AdditionalDisk)
      → Yields (Numbered "scsi" (i + 1)) (disk_options_from client matches on i disks)
  unfolding disk_options_from
  disk-Numbered on i [] = Yields-pure _ tt
  disk-Numbered on i (disk ∷ disks) = Yields-bind _ _ λ storage.
      Yields-after _ _ (disk-Numbered on (i + 1) disks) (λ rest n. Yields-pure _ (refl, n))

  abbrev Fits : {A : Type 0} → M S A → Type 0
  Fits m = Sends IsDistinct m

  pick_storage-Fits : (on selector : String) → Fits (pick_storage client matches on selector)
  unfolding pick_storage
  pick_storage-Fits on selector =
      Sends-bind _ _ (Sends-call client (storages on) tt) (λ ss. Sends-lift _)

  disks-Fits :
      (on : String) (i : ℕ) (disks : List AdditionalDisk)
      → Fits (disk_options_from client matches on i disks)
  unfolding disk_options_from
  disks-Fits on i [] = Sends-pure []
  disks-Fits on i (disk ∷ disks) =
      Sends-bind _ _ (Sends-map_error _ _ (pick_storage-Fits on disk.storage_selector))
        λ storage. Sends-bind _ _ (disks-Fits on (i + 1) disks) (λ rest. Sends-pure _)

  ensure_pool-Fits : (id set : String) → Fits (ensure_pool client id set)
  unfolding ensure_pool find_pool_in_list
  ensure_pool-Fits id set =
      Sends-bind _ _
        (Sends-bind _ _ (Sends-map_error _ _ (Sends-call client pools tt)) (λ ps. Sends-pure _))
        λ found. Sends-bind _ _ (Sends-lift _) λ create.
          Sends-if (not create) _ _ (λ _. Sends-pure tt)
            (λ _. Sends-call client (new_pool id pool_comment) tt)

  pool-Fits : (pool set : String) → Fits (pool_options client matches pool set)
  unfolding pool_options
  pool-Fits pool set =
      Sends-if (pool =ₜ "") _ _ (λ _. Sends-pure [])
        λ _.
          Sends-bind _ _ (ensure_pool-Fits pool set)
            λ _. Sends-bind _ _ (Sends-set_machine _) (λ _. Sends-pure _)

  uuid-Fits : (pctx : Context) → Fits (assign_uuid client matches pctx)
  unfolding assign_uuid
  uuid-Fits pctx = Sends-bind _ _ Sends-machine λ m.
      Sends-if (not (m.uuid =ₜ "")) _ _ (λ _. Sends-pure tt)
        (λ _. Sends-bind _ _ (Sends-set_machine _) (λ _. Sends-modify _ (λ w. refl)))

  -- All of the options of a creation, from those of its parts.
  all-DistinctOptions :
      (uuid request_id cdrom disk storage : String) (cfg : Data) (tags : Option String)
      (pool disks : List VmOption)
      → Block 13 14 pool
      → Numbered "scsi" 1 disks
      → DistinctOptions (
          base_options uuid request_id cdrom disk cfg
          ++ tags_options tags
          ++ pool
          ++ disks
          ++ device_options cfg storage)
  all-DistinctOptions uuid request_id cdrom disk storage cfg tags pool disks p n =
      (Block-append 0 15 25 _ _ (omega arith) (omega arith)
        (Block-append 0 14 15 _ _ (omega arith) (omega arith)
          (Block-append 0 13 14 _ _ (omega arith) (omega arith)
            (Block-append 0 12 13 _ _ (omega arith) (omega arith)
              (base-Block uuid request_id cdrom disk cfg) (tags-Block tags))
            p)
          (Numbered-Block "scsi" 14 1 disks (from_one "scsi" 14 slot-scsi) n))
        (device-Block cfg storage)).distinct

  create_vm-Fits : (pctx : Context) → Fits (create_vm client matches pctx)
  unfolding create_vm
  create_vm-Fits pctx = Sends-bind _ _ (uuid-Fits pctx) λ _. Sends-bind _ _ (Sends-lift _) λ cfg.
      Sends-bind _ _ Sends-machine λ m. Sends-bind _ _ (Sends-call client (node m.node) tt) λ n.
        Sends-bind _ _ (Sends-call client cluster tt) λ _.
          Sends-bind _ _ (Sends-call client next_id tt) λ vmid.
            Sends-bind _ _ (Sends-call client (storage_iso n) tt) λ iso_storage.
              Sends-bind _ _ (Sends-call client (iso n iso_storage m.volume_id) tt) λ volume.
                Sends-bind _ _ (pick_storage-Fits n cfg.storage_selector) λ storage.
                  Sends-after _ _ (pool-Fits _ _) λ w pool got.
                    Sends-after _ _ (disks-Fits n 0 cfg.additional_disks) λ v disks had.
                      Sends-bind _ _
                        (Sends-call client (new_virtual_machine n vmid _) (
                          all-DistinctOptions _ _ _ _ _ cfg _ pool disks
                            ((pool-Block _ _).at w pool got)
                            ((disk-Numbered n 0 cfg.additional_disks).at v disks had)))
                        (λ upid. Sends-bind _ _ (Sends-set_machine _) (λ _. Sends-fail _))

  failure-Fits : (t : Task) → Fits (task_failure client {A = Unit {0}} t)
  unfolding task_failure
  failure-Fits t = search (sends_rules, tt) depth 9

  status-Fits : (t : Task) → Fits (task_status client t)
  unfolding task_status
  status-Fits t = search (sends_rules, failure-Fits)

  check-Fits : (id : String) → Fits (check_task_status client id)
  unfolding check_task_status
  check-Fits id = search (sends_rules, status-Fits, tt) depth 9

  -- Whatever the machine class says and whatever Proxmox answers, `syncVM` sends no creation in which
  -- an option stands twice.
  pub sync_vm-IsDistinct : (pctx : Context) → Sends IsDistinct (sync_vm client matches pctx)
  unfolding sync_vm
  sync_vm-IsDistinct pctx = Sends-bind _ _ Sends-machine λ m.
      Sends-if (not (m.vm_create_task =ₜ "")) _ _ (λ _. check-Fits m.vm_create_task)
        (λ _. create_vm-Fits pctx)
