-- ===== src/Provision/Placement.antt =====
-- The step `pickNode`, and `shouldCountSetVMs`. The division of `float64`s and its zero value are
-- parameters, as are `cmp.Compare` on them, the sort, and `HasTag` of go-proxmox. Log lines are left
-- out.
pub mod Listed
pub mod Begun
pub mod Online
pub mod Surveyed
pub mod Answered
use omni_infra_provider_prox.Base.{
  ℕ, ◌+◌, ◌-◌, ◌*◌, ◌%◌, ◌^◌, String, ◌^^◌, Bool, true, false, not, ◌&&◌, Option, none, some, List,
  [], ◌∷◌, ltb, ◌=ₜ◌, if◌then◌else◌, quoted,
}
use omni_infra_provider_prox.Errors.{Error, Result, ok, err, error_new, wrap}
use omni_infra_provider_prox.Api.{Client, NodeInfo, VirtualMachine, nodes, node, virtual_machines}
use omni_infra_provider_prox.Data.{Context, Data, MachineSpec}
use omni_infra_provider_prox.Exec.{
  World, M, pure, fail, lift, gets, modify, machine, set_machine, map_error, call, ◌>>=◌, ◌>>◌,
}
use omni_infra_provider_prox.Sorting.{Comparison, SortFunc}
use omni_infra_provider_prox.Scheduler.{
  Strategy, NodeStatus, Ledger, parse_strategy, pick_node, pick, reservation_ttl,
}
use omni_infra_provider_prox.Ha.Members.{add_key, node_online}
use omni_infra_provider_prox.Provision.Options.{machine_request_tag_prefix}

abbrev has_ha : Data → Bool
has_ha cfg = elim cfg.ha [ none ↦ false | some c ↦ true ]

unfoldable pub should_count_set_vms : Data → (has_set : Bool) → Bool
should_count_set_vms cfg has_set = has_set && not (has_ha cfg)

-- The machine request set of `GetMachineRequestSetID`, and whether there is one.
abbrev pub set_id : Option String → String
set_id none = ""
set_id (some set) = set

abbrev pub in_set : Option String → Bool
in_set none = false
in_set (some set) = true

abbrev pub is_empty : {A : Type 0} → List A → Bool
is_empty [] = true
is_empty (x ∷ xs) = false

-- The loop over the nodes for a node that the user named.
unfoldable pub use_configured : {S : Type 0} → String → List NodeInfo → M S (Unit {0})
use_configured name [] =
    fail (error_new ("specified node " ^^ (quoted name ^^ " not found in cluster")))
use_configured name (info ∷ rest) =
    let later = use_configured name rest in
    if info.node =ₜ name
    then if not (info.status =ₜ node_online)
      then fail (
          error_new (
            "specified node "
            ^^ (quoted name ^^ (" is not online (status: " ^^ (info.status ^^ ")")))))
      else set_machine (λ m. record m { node = name })
    else later

-- `data.Memory*1024*1024` of an uint64
unfoldable pub memory_bytes : ℕ → ℕ
memory_bytes memory = memory * 1024 % 2 ^ 64 * 1024 % 2 ^ 64

module _ {F : Type 0} (ratio : ℕ → ℕ → F) (no_memory : F) where
  unfoldable pub node_status : NodeInfo → NodeStatus F
  node_status info =
      let free = if ltb info.mem info.max_mem then info.max_mem - info.mem else 0 in
      record {
        name = info.node;
        memory_free = if ltb 0 info.max_mem then ratio free info.max_mem else no_memory;
        free_mem = free;
        same_set_vms = 0;
        total_vms = 0;
      }

module _ (vm_has_tag : VirtualMachine → String → Bool) where
  -- The loop over the machines of a node: how many are of the set, and their names.
  unfoldable pub count_vms : String → List VirtualMachine → ℕ × List String → ℕ × List String
  count_vms tag [] (count, names) = (count, names)
  count_vms tag (vm ∷ vms) (count, names) =
      count_vms tag vms
        (if vm_has_tag vm tag then (count + 1, add_key vm.name names) else (count, names))

  unfoldable pub list_length : List VirtualMachine → ℕ
  list_length [] = 0
  list_length (vm ∷ vms) = list_length vms + 1

  unfoldable pub with_vms :
      {F : Type 0}
      → String
      → NodeStatus F
      → List VirtualMachine
      → List String
      → NodeStatus F × List String
  with_vms tag ns vms names =
      let counted = count_vms tag vms (0, names) in
      (record ns { total_vms = list_length vms; same_set_vms = counted.0 }, counted.1)

module _ {S F : Type 0} (client : Client S) (ratio : ℕ → ℕ → F) (no_memory : F)
    (vm_has_tag : VirtualMachine → String → Bool) where
  unfoldable pub count_on_node : String → NodeInfo → List String → M S (NodeStatus F × List String)
  count_on_node tag info names = do
    n ←
        map_error (λ e. wrap ("failed to get node " ^^ (quoted info.node ^^ ", ")) e "")
          (call client (node info.node))
    vms ←
        map_error (λ e. wrap ("failed to get vms for node " ^^ (quoted info.node ^^ ", ")) e "")
          (call client (virtual_machines n))
    pure (with_vms vm_has_tag tag (node_status ratio no_memory info) vms names)

  -- The loop over the nodes: their status, and the machines of the set that exist (`materialized`).
  unfoldable pub survey :
      (count : Bool) (tag : String)
      → List NodeInfo
      → List String
      → M S (List (NodeStatus F) × List String)
  survey count tag [] names = pure ([], names)
  survey count tag (info ∷ rest) names =
      let skip = survey count tag rest names in
      if not (info.status =ₜ node_online) then skip else do
        seen ←
            if count
            then count_on_node tag info names
            else pure (node_status ratio no_memory info, names)
        others ← survey count tag rest seen.1
        pure (seen.0 ∷ others.0, others.1)

  -- The panic of indexing an empty slice; the step has made sure that it is not empty.
  unfoldable pub index_panic : M S (NodeStatus F)
  index_panic = fail (error_new "runtime error: index out of range [0] with length 0")

  unfoldable pub pick_result : Option (NodeStatus F × Ledger) → M S (NodeStatus F)
  pick_result none = index_panic
  pick_result (some (picked, ledger)) = do modify (λ w. record w { ledger = ledger }); pure picked

  unfoldable pub node_result : Option (NodeStatus F) → M S (NodeStatus F)
  node_result none = index_panic
  node_result (some picked) = pure picked

  module _ (compare_memory : Comparison F) (sort : SortFunc (NodeStatus F)) where
    -- The scheduler for a machine of a set, and the plain choice for another.
    unfoldable pub choose :
        (now : ℕ)
        → Context
        → Data
        → Strategy
        → List (NodeStatus F)
        → List String
        → M S (NodeStatus F)
    choose now pctx cfg strategy infos materialized =
        if not (in_set pctx.machine_request_set_id)
        then node_result (pick_node compare_memory sort infos)
        else do
          ledger ← gets (λ w. w.ledger)
          pick_result (
              pick compare_memory sort now reservation_ttl ledger infos
                (set_id pctx.machine_request_set_id) pctx.request_id (memory_bytes cfg.memory)
                strategy materialized)

    unfoldable pub auto_select : (now : ℕ) → Context → Data → List NodeInfo → M S (Unit {0})
    auto_select now pctx cfg infos = do
      strategy ← lift (parse_strategy cfg.placement_strategy)
      seen ←
          survey (should_count_set_vms cfg (in_set pctx.machine_request_set_id))
            (machine_request_tag_prefix ^^ set_id pctx.machine_request_set_id) infos []
      if is_empty seen.0 then fail (error_new "no online nodes available for provisioning") else do
        picked ← choose now pctx cfg strategy seen.0 seen.1
        set_machine (λ m. record m { node = picked.name })

    unfoldable pub pick_node_step : (now : ℕ) → Context → M S (Unit {0})
    pick_node_step now pctx = do
      m ← machine
      if not (m.node =ₜ "") then pure tt else do
        cfg ← lift pctx.provider_data
        infos ← call client nodes
        if is_empty infos
            then fail (error_new "no nodes available")
            else if not (cfg.node =ₜ "")
            then use_configured cfg.node infos
            else auto_select now pctx cfg infos
