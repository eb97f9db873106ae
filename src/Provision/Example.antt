-- ===== src/Provision/Example.antt =====
-- A machine class, a request and a provisioner over the example server.
use Prim.Native.Nat.{compare}
use omni_infra_provider_prox.Base.{ℕ, false, none, some, [], ◌=ₜ◌}
use omni_infra_provider_prox.Errors.{ok, err, error_new}
use omni_infra_provider_prox.Data.{Context, Data}
use omni_infra_provider_prox.Exec.Example.{Server, server}
use omni_infra_provider_prox.Sorting.Insertion.{insertion_sort}
use omni_infra_provider_prox.Ha.Names.{has_tag}
use omni_infra_provider_prox.Provision.Create.{Selector}
use omni_infra_provider_prox.Provision.Run.{Provisioner}

abbrev pub plain : Data
plain = record {
  balloon = none;
  ha = none;
  network_firewall = none;
  node = "";
  storage_selector = "local";
  network_bridge = "";
  hugepages = "";
  machine_type = "";
  bios = "";
  vga = "";
  cpu_type = "";
  disk_aio = "";
  disk_cache = "";
  pool = "";
  placement_strategy = "";
  additional_disks = [];
  additional_nics = [];
  pci_devices = [];
  usb_devices = [];
  tags = [];
  vlan = 0;
  memory = 2048;
  sockets = 1;
  disk_size = 20;
  cores = 2;
  disk_iothread = false;
  numa = false;
  disk_discard = false;
  disk_ssd = false;
}

abbrev pub request : Context
request = record {
  request_id = "w3";
  machine_request_set_id = some "workers";
  talos_version = "v1.9.0";
  provider_data = ok plain;
  ha_data = ok none;
  join_config = "join";
  installation_media = err (error_new "not asked for");
  new_uuid = "u3";
}

abbrev pub by_name : Selector
by_name selector on s = ok (s.name =ₜ selector)

abbrev pub example : Provisioner Server ℕ
example = record {
  client = server;
  ratio = λ free all. free;
  no_memory = 0;
  compare_memory = compare;
  sort = insertion_sort;
  vm_has_tag = λ vm tag. has_tag 59 vm.tags tag;
  tag_separator = 59;
  matches = by_name;
}
