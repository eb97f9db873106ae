-- ===== src/Api.antt =====
-- What the program asks of Proxmox VE through github.com/luthermonson/go-proxmox: one request for
-- each call of the client, with its arguments, and the type of the answer. The client and the server
-- behind it are a parameter: a function that answers each request from a hidden state, which may hold
-- whatever other actors do in between.

use omni_infra_provider_prox.Base.{ℕ, String, Bool, true, false, Option, List}
use omni_infra_provider_prox.Errors.{Result}

pub record HaResourceCreateOption : Type 0 where
  pub sid : String
  pub comment : String
  pub max_restart : Option ℕ
  pub max_relocate : Option ℕ
  pub state : Option String
  pub failback : Option Bool

pub record HaResourceUpdateOption : Type 0 where
  pub comment : String
  pub max_restart : Option ℕ
  pub max_relocate : Option ℕ
  pub state : Option String
  pub failback : Option Bool

pub record HaRuleCreateOption : Type 0 where
  pub rule : String
  pub rule_type : String
  pub resources : String
  pub nodes : String
  pub strict : Bool
  pub affinity : String

pub record HaRuleUpdateOption : Type 0 where
  pub rule_type : String
  pub digest : String
  pub resources : String
  pub affinity : String
  pub nodes : String
  pub strict : Bool

pub record HaRule : Type 0 where
  pub rule_type : String
  pub digest : String
  pub resources : String
  pub affinity : String
  pub nodes : String
  pub strict : Bool

-- An entry of the node list.
pub record NodeInfo : Type 0 where
  pub node : String
  pub status : String
  pub max_mem : ℕ
  pub mem : ℕ

pub record VirtualMachine : Type 0 where
  pub vmid : ℕ
  pub name : String
  pub tags : String

pub record Storage : Type 0 where
  pub name : String
  pub storage_type : String
  pub avail : ℕ

pub record Pool : Type 0 where
  pub pool_id : String
  pub comment : String

pub record PoolDetail : Type 0 where
  pub comment : String
  pub members : List String

pub record Task : Type 0 where
  pub upid : String
  pub task_type : String
  pub id : String
  pub node : String
  pub status : String
  pub exit_status : String
  pub is_running : Bool
  pub is_successful : Bool
  pub is_failed : Bool

pub data OptionValue : Type 0 where
  text : String → OptionValue
  number : ℕ → OptionValue

pub record VmOption : Type 0 where
  pub name : String
  pub value : OptionValue

pub data Request : Type 0 where
  new_ha_resource : HaResourceCreateOption → Request
  ha_resource_update : String → HaResourceUpdateOption → Request
  ha_resource_delete : (sid : String) (purge : Bool) → Request
  ha_resources : Request
  new_ha_rule : HaRuleCreateOption → Request
  ha_rule : String → Request
  ha_rule_update : String → HaRuleUpdateOption → Request
  nodes : Request
  node : String → Request
  virtual_machines : (node : String) → Request
  virtual_machine : (node : String) (vmid : ℕ) → Request
  storages : (node : String) → Request
  storage_iso : (node : String) → Request
  iso : (node storage name : String) → Request
  download_url : (node storage content name url : String) → Request
  cluster : Request
  next_id : Request
  new_virtual_machine : (node : String) (vmid : ℕ) → List VmOption → Request
  vm_cloud_init :
      (node : String) (vmid : ℕ) (device user_data meta_data vendor_data network_config : String)
      → Request
  vm_start : (node : String) (vmid : ℕ) → Request
  vm_stop : (node : String) (vmid : ℕ) → Request
  vm_delete : (node : String) (vmid : ℕ) → Request
  task_ping : (upid : String) → Request
  task_log : (upid : String) (start limit : ℕ) → Request
  pools : Request
  pool : String → Request
  new_pool : (id comment : String) → Request
  pool_delete : (id : String) → Request

-- The node of `node`, the storage of `storage_iso` and the tasks that a call starts are given by their
-- names; a virtual machine by its entry; an ISO image by its volume id.
abbrev pub Response : Request → Type 0
Response ha_resources = List (Option String)
Response (ha_rule _) = HaRule
Response nodes = List NodeInfo
Response (node _) = String
Response (virtual_machines _) = List VirtualMachine
Response (virtual_machine _ _) = VirtualMachine
Response (storages _) = List Storage
Response (storage_iso _) = String
Response (iso _ _ _) = String
Response (download_url _ _ _ _ _) = String
Response next_id = ℕ
Response (new_virtual_machine _ _ _) = String
Response (vm_start _ _) = String
Response (vm_stop _ _) = String
Response (vm_delete _ _) = String
Response (task_ping _) = Task
Response (task_log _ _ _) = List (ℕ × String)
Response pools = List Pool
Response (pool _) = PoolDetail
Response _ = Unit {0}

-- The one request that makes a machine.
abbrev pub is_creation : Request → Bool
is_creation (new_virtual_machine _ _ _) = true
is_creation _ = false

-- The requests that order something: a machine, the download of an image, or the deletion of a machine.
abbrev pub is_order : Request → Bool
is_order (new_virtual_machine _ _ _) = true
is_order (download_url _ _ _ _ _) = true
is_order (vm_delete _ _) = true
is_order _ = false

abbrev pub Client : Type 0 → Type 0
Client S = (r : Request) → S → Result (Response r) × S
