-- ===== src/Exec/Example.antt =====
-- A small Proxmox server, on which the theorems of the steps are applied to concrete inputs.
use omni_infra_provider_prox.Base.{
  ℕ, String, ◌^^◌, Option, none, some, List, [], ◌∷◌, ◌=ₜ◌, ◌==◌, if◌then◌else◌, Map, lookup, put,
  false, true,
}
use omni_infra_provider_prox.Errors.{Result, ok, err, error_new}
use omni_infra_provider_prox.Api.{
  download_url, Client, HaRule, HaRuleCreateOption, new_ha_rule, HaRuleUpdateOption, NodeInfo,
  VirtualMachine, Pool, PoolDetail, Task, ha_rule, ha_rule_update, ha_resources, ha_resource_delete,
  new_ha_resource, nodes, node, virtual_machines, virtual_machine, pools, pool, pool_delete,
  task_ping, task_log, vm_stop, vm_delete, vm_start, vm_cloud_init, storages, storage_iso, iso,
  cluster, next_id, new_virtual_machine,
}
use omni_infra_provider_prox.Data.{MachineSpec}
use omni_infra_provider_prox.Exec.{World}

pub record Server : Type 0 where
  pub rules : Map HaRule
  pub resources : List (Option String)
  pub infos : List NodeInfo
  pub machines : Map (List VirtualMachine)
  pub all_pools : List Pool
  pub details : Map PoolDetail
  pub tasks : Map Task

abbrev pub found : {A : Type 0} → String → Option A → Result A
found message none = err (error_new message)
found message (some a) = ok a

abbrev all_or_none : Option (List VirtualMachine) → List VirtualMachine
all_or_none none = []
all_or_none (some vms) = vms

abbrev find_id : ℕ → List VirtualMachine → Option VirtualMachine
find_id vmid [] = none
find_id vmid (vm ∷ vms) = if vm.vmid == vmid then some vm else find_id vmid vms

-- What an accepted PUT leaves, under a new digest.
abbrev pub edited : HaRuleUpdateOption → String → HaRule
edited opt digest = record {
  rule_type = opt.rule_type;
  digest = digest;
  resources = opt.resources;
  affinity = opt.affinity;
  nodes = opt.nodes;
  strict = opt.strict;
}

-- A PUT is accepted under the digest of the rule.
abbrev pub edit_rule :
    String → HaRuleUpdateOption → Server → Option HaRule → Result (Unit {0}) × Server
edit_rule name opt s none = (err (error_new "no such ha rule"), s)
edit_rule name opt s (some r) =
    if opt.digest =ₜ r.digest
    then (ok tt, record s { rules = put name (edited opt (r.digest ^^ "+")) s.rules })
    else (err (error_new "detected modified configuration"), s)

abbrev pub created : HaRuleCreateOption → HaRule
created opt = record {
  rule_type = opt.rule_type;
  digest = "new";
  resources = opt.resources;
  affinity = opt.affinity;
  nodes = opt.nodes;
  strict = opt.strict;
}

abbrev pub create_rule : HaRuleCreateOption → Server → Option HaRule → Result (Unit {0}) × Server
create_rule opt s none = (ok tt, record s { rules = put opt.rule (created opt) s.rules })
create_rule opt s (some r) = (err (error_new "rule is already defined"), s)

abbrev pub server : Client Server
server (ha_rule name) s = (found "no such ha rule" (lookup name s.rules), s)
server (ha_rule_update name opt) s = edit_rule name opt s (lookup name s.rules)
server (new_ha_rule opt) s = create_rule opt s (lookup opt.rule s.rules)
server ha_resources s = (ok s.resources, s)
server (new_ha_resource opt) s = (ok tt, record s { resources = some opt.sid ∷ s.resources })
server (ha_resource_delete sid purge) s = (ok tt, record s { resources = [] })
server nodes s = (ok s.infos, s)
server (node name) s = (ok name, s)
server (virtual_machines name) s = (ok (all_or_none (lookup name s.machines)), s)
server (virtual_machine name vmid) s =
    (found "does not exist" (find_id vmid (all_or_none (lookup name s.machines))), s)
server pools s = (ok s.all_pools, s)
server (pool id) s = (found "no such pool" (lookup id s.details), s)
server (pool_delete id) s = (ok tt, record s { all_pools = [] })
server (task_ping upid) s = (found "no such task" (lookup upid s.tasks), s)
server (task_log upid start limit) s = (ok ((1, "TASK ERROR: boom") ∷ (0, "no space left") ∷ []), s)
server (download_url name storage content file url) s = (ok "UPID:iso", s)
server (vm_stop name vmid) s = (ok "UPID:stop", s)
server (vm_delete name vmid) s = (ok "UPID:delete", s)
server (vm_start name vmid) s = (ok "UPID:start", s)
server (vm_cloud_init name vmid device user meta vendor network) s = (ok tt, s)
server (storages name) s =
    (ok (record { name = "local"; storage_type = "dir"; avail = 10 } ∷ []), s)
server (storage_iso name) s = (ok "local", s)
server (iso name storage image) s = (ok image, s)
server cluster s = (ok tt, s)
server next_id s = (ok 103, s)
server (new_virtual_machine name vmid options) s = (ok "UPID:create", s)
server r s = (err (error_new "not implemented"), s)

abbrev pub workers_rule : HaRule
workers_rule = record {
  rule_type = "resource-affinity";
  digest = "d";
  resources = "vm:100,vm:101";
  affinity = "negative";
  nodes = "";
  strict = false;
}

abbrev pub worker_vm : VirtualMachine
worker_vm = record { vmid = 102; name = "w2"; tags = "machine-request.workers" }

abbrev pub stopped : String → Task
stopped upid = record {
  upid = upid;
  task_type = "qmstop";
  id = "102";
  node = "alpha";
  status = "stopped";
  exit_status = "OK";
  is_running = false;
  is_successful = true;
  is_failed = false;
}

abbrev pub one_vm : Server
one_vm = record {
  rules = ("omni-workers-raff", workers_rule) ∷ [];
  resources = [];
  infos =
      record { node = "beta"; status = "offline"; max_mem = 4; mem = 1 }
      ∷ record { node = "alpha"; status = "online"; max_mem = 4; mem = 1 }
      ∷ [];
  machines = ("alpha", worker_vm ∷ []) ∷ [];
  all_pools =
      record { pool_id = "workers"; comment = "managed by omni-infra-provider-proxmox" } ∷ [];
  details =
      ("workers", record { comment = "managed by omni-infra-provider-proxmox"; members = [] }) ∷ [];
  tasks =
      ("UPID:stop", stopped "UPID:stop")
      ∷ ("UPID:delete", stopped "UPID:delete")
      ∷ ("UPID:iso", record (stopped "UPID:iso") { is_running = true; is_successful = false })
      ∷ (
        "UPID:start",
        record (stopped "UPID:start") {
          task_type = "qmstart";
          exit_status = "start failed";
          is_successful = false;
          is_failed = true;
        },
      )
      ∷ [];
}

abbrev pub worker : MachineSpec
worker = record {
  uuid = "u";
  schematic = "";
  talos_version = "";
  volume_id = "";
  node = "alpha";
  volume_upload_task = "";
  vm_create_task = "";
  vm_start_task = "";
  vmid = 102;
  pool = "workers";
  ha_registered = false;
}

abbrev pub before : World Server
before = record {
  server = one_vm;
  log = [];
  machine = worker;
  ledger = [];
  pending_iso_downloads = [];
  machine_uuid = none;
}
