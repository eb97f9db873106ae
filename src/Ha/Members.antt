-- ===== src/Ha/Members.antt =====
-- `setMembers` and `FindVMNode`: the scans over the cluster's nodes. The separator of tags is a
-- constant of go-proxmox.
pub mod Finding
pub mod Managed
pub mod Searching
pub mod Listings
pub mod Exact
use Prim.Native.String.{compare as compare_text}
use omni_infra_provider_prox.Base.{
  ℕ, String, ◌^^◌, Bool, true, false, not, ◌&&◌, ◌||◌, Option, none, some, List, [], ◌∷◌, ◌==◌,
  ◌=ₜ◌, if◌then◌else◌, contains, quoted,
}
use omni_infra_provider_prox.Errors.{Error, Result, ok, err, errors_is, wrap, not_found}
use omni_infra_provider_prox.Api.{
  Client, NodeInfo, VirtualMachine, ha_resources, nodes, node, virtual_machines,
}
use omni_infra_provider_prox.Exec.{M, pure, fail, attempt, map_error, call, ◌>>=◌, ◌>>◌}
use omni_infra_provider_prox.Sorting.Insertion.{insertion_sort}
use omni_infra_provider_prox.Ha.Classify.{classify, classified, is_node_unreachable}
use omni_infra_provider_prox.Ha.Names.{has_tag, machine_request_tag, vm_sid, sign_extend}

abbrev pub node_online : String
node_online = "online"

-- `m[k] = struct{}{}` on the key set of a map
unfoldable pub add_key : String → List String → List String
add_key k keys = if contains keys k then keys else k ∷ keys

-- The sids of the resource list, but for nil and unnamed resources.
unfoldable pub registered_sids : List (Option String) → List String
registered_sids [] = []
registered_sids (none ∷ rs) = registered_sids rs
registered_sids (some sid ∷ rs) =
    let rest = registered_sids rs in if sid =ₜ "" then rest else add_key sid rest

-- The members of the set among the machines of one node.
unfoldable pub add_members :
    (tag_separator : ℕ) (registered : List String) (want : String)
    → List VirtualMachine
    → List String
    → List String
add_members tag_separator registered want [] members = members
add_members tag_separator registered want (vm ∷ vms) members =
    add_members tag_separator registered want vms (
      if contains registered (vm_sid vm.vmid) && has_tag tag_separator vm.tags want
      then add_key (vm_sid vm.vmid) members
      else members)

abbrev pub found_vm : ℕ → List VirtualMachine → Bool
found_vm vmid [] = false
found_vm vmid (vm ∷ vms) = vm.vmid == sign_extend vmid || found_vm vmid vms

-- A listing that failed because nothing was found counts as empty.
abbrev pub tolerate : {S : Type 0} → Result (List (Option String)) → M S (List (Option String))
tolerate (ok rs) = pure rs
tolerate (err e) =
    if errors_is e not_found then pure [] else fail (wrap "failed to list HA resources: " e "")

module _ {S : Type 0} (client : Client S) where
  unfoldable pub scan_members :
      (tag_separator : ℕ) (registered : List String) (want : String)
      → List NodeInfo
      → List String
      → M S (List String)
  scan_members tag_separator registered want [] members = pure members
  scan_members tag_separator registered want (ns ∷ rest) members =
      let skip = scan_members tag_separator registered want rest members in
      if not (ns.status =ₜ node_online) then skip else do
        name ←
            map_error (λ e. wrap ("failed to get node " ^^ (quoted ns.node ^^ ": ")) e "")
              (call client (node ns.node))
        vms ←
            map_error (λ e. wrap ("failed to list vms on " ^^ (quoted ns.node ^^ ": ")) e "")
              (call client (virtual_machines name))
        scan_members tag_separator registered want rest
            (add_members tag_separator registered want vms members)

  unfoldable pub set_members : (tag_separator : ℕ) (set self : String) → M S (List String)
  set_members tag_separator set self = do
    listed ← attempt (classified (call client ha_resources))
    regs ← tolerate listed
    let registered = registered_sids regs
    infos ← map_error (λ e. wrap "failed to list nodes: " e "") (call client nodes)
    members ←
        scan_members tag_separator registered (machine_request_tag ^^ set) infos
          (if contains registered self then self ∷ [] else [])
    pure (insertion_sort compare_text members)

  -- One node of the scan for a machine: skipped where it cannot be reached.
  abbrev pub unless_unreachable :
      {A : Type 0}
      → String
      → Result A
      → (A → M S (Option String))
      → M S (Option String)
      → M S (Option String)
  unless_unreachable context (ok a) k skip = k a
  unless_unreachable context (err e) k skip =
      if is_node_unreachable e then skip else fail (wrap context e "")

  unfoldable pub scan_nodes : ℕ → List NodeInfo → M S (Option String)
  scan_nodes vmid [] = pure none
  scan_nodes vmid (ns ∷ rest) =
      let skip = scan_nodes vmid rest in
      if not (ns.status =ₜ node_online) then skip else do
        got ← attempt (call client (node ns.node))
        unless_unreachable ("failed to get node " ^^ (quoted ns.node ^^ ": ")) got
            (λ name. do
              listed ← attempt (call client (virtual_machines name))
              unless_unreachable ("failed to list vms on " ^^ (quoted ns.node ^^ ": ")) listed
                  (λ vms. if found_vm vmid vms then pure (some ns.node) else skip) skip)
            skip

  -- none stands for the result `"", false, nil`
  unfoldable pub find_vm_node : ℕ → M S (Option String)
  find_vm_node vmid = do
    infos ← map_error (λ e. wrap "failed to list nodes: " e "") (call client nodes)
    scan_nodes vmid infos
