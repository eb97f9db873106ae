-- ===== src/Ha/Tests.antt =====
-- The rules of the example server, on which the theorems of the HA manager are applied.
use omni_infra_provider_prox.Base.{
  ℕ, ◌≤◌, ◌*◌, String, ◌≡◌, refl, ◌^^◌, some, List, [], ◌∷◌, ◌++◌, All, arith, lookup, length, join,
  ◌↔◌,
}
use omni_infra_provider_prox.Errors.{ok, err, error_new}
use omni_infra_provider_prox.Api.{Request}
use omni_infra_provider_prox.Exec.{◌>>=◌, call}
use omni_infra_provider_prox.Data.{Context}
use omni_infra_provider_prox.Exec.Rules.{Sends}
use omni_infra_provider_prox.Exec.Example.{server, before, worker, one_vm}
use omni_infra_provider_prox.Ha.Example.{
  rules_of, server-IsRuleStore, server-IsSharedStore, vm_102, apart,
}
use omni_infra_provider_prox.Ha.Names.{trimmed_parts, replace_invalid, trimmed_parts}
use omni_infra_provider_prox.Ha.Rules.{with_member}
use omni_infra_provider_prox.Base.{put, delete, split, trim_space, lookup}
use omni_infra_provider_prox.Exec.{World}
use omni_infra_provider_prox.Base.{none, decimal}
use omni_infra_provider_prox.Exec.Example.{Server}
use omni_infra_provider_prox.Sorting.Insertion.{insertion_sort, insert_by}
use omni_infra_provider_prox.Ha.Names.{trimmed_parts, has_tag}
use omni_infra_provider_prox.Ha.Members.{
  set_members, scan_members, add_members, registered_sids, add_key,
}
use omni_infra_provider_prox.Ha.Members.Exact.{IsExact, set_members-IsExact}
use omni_infra_provider_prox.Ha.Options.{Config}
use omni_infra_provider_prox.Ha.Names.{
  trimmed_parts, split_csv, rule_name, vm_sid, machine_sid, resource_affinity_suffix, is_name_char,
}
use omni_infra_provider_prox.Ha.Names.Csv.{split_csv-join}
use omni_infra_provider_prox.Ha.Names.RuleNames.{
  is_rule_text, rule_name-injective, rule_name_collision, machine_sid-vm_sid,
}
use omni_infra_provider_prox.Ha.Names.{trimmed_parts, sign_extend}
use omni_infra_provider_prox.Ha.Members.{find_vm_node, scan_nodes}
use omni_infra_provider_prox.Ha.Members.Searching.{SearchOf, find_vm_node_lem}
use omni_infra_provider_prox.Ha.Steps.{register_step}
use omni_infra_provider_prox.Ha.Steps.Registration.{RegistrationOf, register_step_lem}
use omni_infra_provider_prox.Ha.Rules.{add_to_rule, rule_retries, ensure_resource_affinity}
use omni_infra_provider_prox.Ha.Rules.Editing.{HasMember, add_to_rule-HasMember}
use omni_infra_provider_prox.Ha.Rules.{
  sync_rules, get_rule, after_update, add_round, add_rounds, after_node_affinity,
  ensure_node_affinity, add_to_rules,
}
use omni_infra_provider_prox.Ha.Rules.Membership.{expected_rules, sync_rules-HasMember}
use omni_infra_provider_prox.Ha.Rules.Bounds.{IsEditOf, add_to_rule-bounds}
use omni_infra_provider_prox.Ha.Rules.Affinity.{IsAffinityRequest, ensure_resource_affinity-Sends}

edit_ok : (add_to_rule server "omni-workers-raff" "vm:102" before).0 ≡ ok tt
unfolding add_to_rule add_rounds add_round get_rule after_update with_member split_csv ◌>>=◌ call
    lookup split trim_space join put trimmed_parts
edit_ok = refl

add_to_rule-HasMember_example :
    HasMember rules_of
      (add_to_rule server "omni-workers-raff" "vm:102" before).1.server
      "omni-workers-raff"
      "vm:102"
add_to_rule-HasMember_example =
    add_to_rule-HasMember server rules_of "omni-workers-raff" "vm:102" before server-IsRuleStore
      vm_102 edit_ok

add_to_rule-bounds_example :
    (new : List Request) × ((add_to_rule server "omni-workers-raff" "vm:102" before).1.log
      ≡ new ++ [])
    × All (IsEditOf "omni-workers-raff") new
    × (length new ≤ 2 * rule_retries)
add_to_rule-bounds_example = add_to_rule-bounds server "omni-workers-raff" "vm:102" before

ensure_resource_affinity-Sends_example :
    Sends
      (IsAffinityRequest (rule_name "workers" resource_affinity_suffix))
      (ensure_resource_affinity server 59 "workers" "vm:102" apart)
ensure_resource_affinity-Sends_example =
    ensure_resource_affinity-Sends server 59 "workers" "vm:102" apart

split_csv-join_example : split_csv (join "," ("vm:102" ∷ "vm:102" ∷ [])) ≡ "vm:102" ∷ "vm:102" ∷ []
split_csv-join_example = split_csv-join ("vm:102" ∷ "vm:102" ∷ []) (vm_102, (vm_102, tt))

rule_name-injective_example : ◌≡◌ {A = String} "a1" "a1"
rule_name-injective_example =
    rule_name-injective "a1" "a1" "raff" (unfold is_rule_text is_name_char in refl)
      (unfold is_rule_text is_name_char in refl) refl

rule_name_collision_example : rule_name ("my" ^^ " set") "raff" ≡ rule_name ("my" ^^ "-set") "raff"
rule_name_collision_example =
    rule_name_collision "my" "set" "raff" " " (unfold is_name_char in refl)

machine_sid-vm_sid_example : (machine_sid 102 ≡ vm_sid 103) ↔ (◌≡◌ {A = ℕ} 102 103)
machine_sid-vm_sid_example = machine_sid-vm_sid 102 103 (omega arith)

abbrev asks_for_ha : Context
asks_for_ha = record {
  request_id = "w2";
  machine_request_set_id = some "workers";
  talos_version = "v1.9.0";
  provider_data = err (error_new "not asked for");
  ha_data = ok (some apart);
  join_config = "";
  installation_media = err (error_new "not asked for");
  new_uuid = "";
}

register_step_lem_example :
    RegistrationOf asks_for_ha.ha_data worker
      (register_step server asks_for_ha before).0
      (register_step server asks_for_ha before).1.machine
register_step_lem_example = register_step_lem server asks_for_ha before

found_alpha : (find_vm_node server 102 before).0 ≡ ok (some "alpha")
unfolding find_vm_node scan_nodes sign_extend ◌>>=◌ call lookup
found_alpha = refl

find_vm_node_lem_example : SearchOf server 102 (some "alpha")
find_vm_node_lem_example = find_vm_node_lem server 102 before (some "alpha") found_alpha

-- A machine that is nowhere.
missed : (find_vm_node server 7 before).0 ≡ ok none
unfolding find_vm_node scan_nodes sign_extend ◌>>=◌ call lookup
missed = refl

-- On two nodes, and in the rule that is there.
abbrev placed : Config
placed = record apart {
  resource_affinity = "";
  rules = "omni-workers-raff" ∷ [];
  node_affinity_nodes = "alpha" ∷ "beta" ∷ [];
}

synced : (sync_rules server 59 "workers" "vm:102" placed before).0 ≡ ok tt
unfolding sync_rules add_to_rules add_to_rule add_rounds add_round get_rule after_update
    ensure_node_affinity after_node_affinity with_member rule_name replace_invalid is_name_char put
    delete split_csv trimmed_parts split trim_space ◌>>=◌ call lookup
synced = refl

sync_rules-HasMember_example :
    All
      (λ name.
        HasMember rules_of
          (sync_rules server 59 "workers" "vm:102" placed before).1.server
          name
          "vm:102")
      (expected_rules "workers" placed)
sync_rules-HasMember_example =
    sync_rules-HasMember server rules_of server-IsSharedStore "vm:102" vm_102 59 "workers" placed
      before synced

abbrev registered : World Server
registered = record before {
  server = record one_vm { resources = none ∷ some "vm:102" ∷ some "vm:7" ∷ [] };
}

members_found : (set_members server 59 "workers" "vm:102" registered).0 ≡ ok ("vm:102" ∷ [])
unfolding set_members scan_members add_members registered_sids add_key has_tag split vm_sid
    insertion_sort decimal insert_by lookup ◌>>=◌ call
members_found = refl

set_members-IsExact_example : IsExact server 59 "workers" "vm:102" ("vm:102" ∷ [])
set_members-IsExact_example =
    set_members-IsExact server 59 "workers" "vm:102" registered ("vm:102" ∷ []) members_found
