-- ===== src/Data.antt =====
-- The data that a provisioning step works on: the machine class config (internal/pkg/provider/data.go),
-- the machine's persisted state (api/specs/specs.proto), and what the provisioning framework of
-- github.com/siderolabs/omni/client hands to a step. Signed Go ints stand as their two's complement
-- patterns, 64 bits of an `int` and 32 of an `int32`.
use omni_infra_provider_prox.Base.{ℕ, String, Bool, Option, List}
use omni_infra_provider_prox.Errors.{Result}
use omni_infra_provider_prox.Ha.Options.{Config}

pub record AdditionalDisk : Type 0 where
  pub storage_selector : String
  pub disk_cache : String
  pub disk_aio : String
  pub disk_size : ℕ
  pub disk_ssd : Bool
  pub disk_discard : Bool
  pub disk_iothread : Bool

pub record PciDevice : Type 0 where
  pub mapping : String
  pub mdev : String
  pub pci_express : Bool
  pub primary_gpu : Bool
  pub rom_bar : Bool

pub record UsbDevice : Type 0 where
  pub mapping : String
  pub usb3 : Bool

pub record AdditionalNic : Type 0 where
  pub bridge : String
  pub vlan : ℕ
  pub firewall : Bool

pub record Data : Type 0 where
  pub balloon : Option Bool
  pub ha : Option Config
  pub network_firewall : Option Bool
  pub node : String
  pub storage_selector : String
  pub network_bridge : String
  pub hugepages : String
  pub machine_type : String
  pub bios : String
  pub vga : String
  pub cpu_type : String
  pub disk_aio : String
  pub disk_cache : String
  pub pool : String
  pub placement_strategy : String
  pub additional_disks : List AdditionalDisk
  pub additional_nics : List AdditionalNic
  pub pci_devices : List PciDevice
  pub usb_devices : List UsbDevice
  pub tags : List String
  pub vlan : ℕ
  pub memory : ℕ
  pub sockets : ℕ
  pub disk_size : ℕ
  pub cores : ℕ
  pub disk_iothread : Bool
  pub numa : Bool
  pub disk_discard : Bool
  pub disk_ssd : Bool

pub record MachineSpec : Type 0 where
  pub uuid : String
  pub schematic : String
  pub talos_version : String
  pub volume_id : String
  pub node : String
  pub volume_upload_task : String
  pub vm_create_task : String
  pub vm_start_task : String
  pub vmid : ℕ
  pub pool : String
  pub ha_registered : Bool

-- The answer of EnsureInstallationMedia.
pub record Media : Type 0 where
  pub schematic_id : String
  pub storage_key : String
  pub url : String

-- `provision.Context`, but for the machine state, which the steps change. UnmarshalProviderData decodes
-- one document into the type that it is given, so it stands twice, once for each type.
pub record Context : Type 0 where
  pub request_id : String
  pub machine_request_set_id : Option String
  pub talos_version : String
  pub provider_data : Result Data
  pub ha_data : Result (Option Config)
  pub join_config : String
  pub installation_media : Result Media
  pub new_uuid : String
