-- ===== src/Provision/Create.antt =====
-- The step `syncVM`, and `pickStorage`. What a storage selector says of a storage, an expression of the
-- CEL language, is a parameter.
pub mod Storages
pub mod Names
use omni_infra_provider_prox.Base.{
  ℕ, ◌+◌, ◌%◌, ◌^◌, String, ◌^^◌, Bool, not, Option, none, some, List, [], ◌∷◌, ◌++◌, ◌=ₜ◌,
  if◌then◌else◌, quoted, decimal,
}
use omni_infra_provider_prox.Errors.{Result, ok, err, error_new, wrap, retry_interval}
use omni_infra_provider_prox.Api.{
  Client, Storage, VmOption, node, cluster, next_id, storages, storage_iso, iso,
  new_virtual_machine,
}
use omni_infra_provider_prox.Data.{Context, Data, AdditionalDisk}
use omni_infra_provider_prox.Exec.{
  M, pure, fail, lift, modify, machine, set_machine, map_error, call, ◌>>=◌, ◌>>◌,
}
use omni_infra_provider_prox.Provision.Tasks.{check_task_status, or_text}
use omni_infra_provider_prox.Provision.Pools.{ensure_pool}
use omni_infra_provider_prox.Provision.Placement.{set_id}
use omni_infra_provider_prox.Provision.Options.{
  build_tags_option, text_option, number_option, when_part, build_usb_device_options,
  build_firmware_options, disk_string, network_string, primary_firewall, nic_options_from,
  pci_options_from, hugepages_value, disables_balloon,
}

-- The evaluation of a selector for a storage of a node, its errors included.
abbrev pub Selector : Type 0
Selector = String → (on : String) → Storage → Result Bool

module _ (matches : Selector) where
  -- The loop of `pickStorage`.
  unfoldable pub first_match : (selector on : String) → List Storage → Result String
  first_match selector on [] =
      err (error_new ("failed to pick the disk: no matches for the condition " ^^ quoted selector))
  first_match selector on (s ∷ ss) =
      let later = first_match selector on ss in
      elim (matches selector on s) [
        | err e ↦ err e
        | ok matched ↦ if matched then ok s.name else later
      ]

-- The options up to `agent`.
unfoldable pub base_options : (uuid request_id cdrom disk : String) → Data → List VmOption
base_options uuid request_id cdrom disk cfg =
    text_option "smbios1" ("uuid=" ^^ uuid)
    ∷ text_option "name" request_id
    ∷ text_option "cdrom" cdrom
    ∷ text_option "cpu" (or_text cfg.cpu_type "x86-64-v2-AES")
    ∷ number_option "cores" cfg.cores
    ∷ number_option "sockets" cfg.sockets
    ∷ number_option "memory" cfg.memory
    ∷ text_option "scsi0" disk
    ∷ text_option "scsihw" "virtio-scsi-single"
    ∷ number_option "onboot" 1
    ∷ text_option "net0" (
        network_string (or_text cfg.network_bridge "vmbr0") (primary_firewall cfg.network_firewall)
          cfg.vlan)
    ∷ text_option "agent" "enabled=true"
    ∷ []

abbrev pub tags_options : Option String → List VmOption
tags_options none = []
tags_options (some tags) = text_option "tags" tags ∷ []

-- The options behind the additional disks.
unfoldable pub device_options : Data → (storage : String) → List VmOption
device_options cfg storage =
    when_part (not (cfg.machine_type =ₜ "")) (text_option "machine" cfg.machine_type) []
    ++ build_firmware_options cfg storage
    ++ when_part cfg.numa (number_option "numa" 1) (
        when_part (not (cfg.hugepages =ₜ ""))
          (text_option "hugepages" (hugepages_value cfg.hugepages))
          (when_part (disables_balloon cfg.balloon) (number_option "balloon" 0) []))
    ++ nic_options_from 0 cfg.additional_nics
    ++ pci_options_from 0 cfg.pci_devices
    ++ build_usb_device_options cfg.usb_devices

module _ {S : Type 0} (client : Client S) (matches : Selector) where
  unfoldable pub pick_storage : (on selector : String) → M S String
  pick_storage on selector = do
    ss ← call client (storages on)
    lift (first_match matches selector on ss)

  -- The loop over the additional disks; `i` counts from 0.
  unfoldable pub disk_options_from : (on : String) → ℕ → List AdditionalDisk → M S (List VmOption)
  disk_options_from on i [] = pure []
  disk_options_from on i (disk ∷ disks) = do
    storage ←
        map_error
          (λ e.
            wrap ("failed to pick storage for additional disk " ^^ (decimal (i + 1) ^^ ": ")) e "")
          (pick_storage on disk.storage_selector)
    rest ← disk_options_from on (i + 1) disks
    pure (
        text_option ("scsi" ^^ decimal (i + 1)) (
          disk_string storage disk.disk_size disk.disk_ssd disk.disk_discard disk.disk_iothread
            disk.disk_cache disk.disk_aio)
        ∷ rest)

  -- The machine's pool, made sure of, as an option; none where it has no pool.
  unfoldable pub pool_options : (pool set : String) → M S (List VmOption)
  pool_options pool set = if pool =ₜ "" then pure [] else do
    ensure_pool client pool set
    set_machine (λ m. record m { pool = pool })
    pure (text_option "pool" pool ∷ [])

  unfoldable pub assign_uuid : Context → M S (Unit {0})
  assign_uuid pctx = do
    m ← machine
    if not (m.uuid =ₜ "") then pure tt else do
      set_machine (λ m. record m { uuid = pctx.new_uuid })
      modify (λ w. record w { machine_uuid = some pctx.new_uuid })

  unfoldable pub create_vm : Context → M S (Unit {0})
  create_vm pctx = do
    assign_uuid pctx
    cfg ← lift pctx.provider_data
    m ← machine
    n ← call client (node m.node)
    _ ← call client cluster
    vmid ← call client next_id
    iso_storage ← call client (storage_iso n)
    volume ← call client (iso n iso_storage m.volume_id)
    storage ← pick_storage n cfg.storage_selector
    let set = set_id pctx.machine_request_set_id
    let disk =
        disk_string storage cfg.disk_size cfg.disk_ssd cfg.disk_discard cfg.disk_iothread
          cfg.disk_cache cfg.disk_aio
    pool ← pool_options (or_text cfg.pool set) set
    disks ← disk_options_from n 0 cfg.additional_disks
    upid ← call client (
        new_virtual_machine n vmid (
          base_options m.uuid pctx.request_id volume disk cfg
          ++ tags_options (build_tags_option cfg.tags set)
          ++ pool
          ++ disks
          ++ device_options cfg storage))
    set_machine (λ m. record m { vm_create_task = upid; vmid = vmid % 2 ^ 32 })
    fail (retry_interval 10)

  unfoldable pub sync_vm : Context → M S (Unit {0})
  sync_vm pctx = do
    m ← machine
    if not (m.vm_create_task =ₜ "")
        then check_task_status client m.vm_create_task
        else create_vm pctx
