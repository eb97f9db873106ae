-- ===== src/Provision/Tests.antt =====
-- The provisioning steps on the example server.
mod Runs
mod Placing
mod Fleets
use omni_infra_provider_prox.Provision.Example.{plain, request, by_name}
use Prim.Native.Nat.{compare}
use omni_infra_provider_prox.Base.{
  ◌=ₜ◌, if◌then◌else◌, ◌+◌, ◌≤◌, String, ◌^^◌, ◌≡◌, refl, true, false, none, some, List, [], ◌∷◌,
  ◌++◌, arith, length, split, lookup, put, delete, free_of,
}
use omni_infra_provider_prox.Errors.{Result, ok, err, error_new}
use omni_infra_provider_prox.Api.{Task, NodeInfo, nodes, task_ping}
use omni_infra_provider_prox.Data.{Context, Data}
use omni_infra_provider_prox.Exec.{World, ◌>>=◌, call}
use omni_infra_provider_prox.Exec.Example.{Server, server, before, worker, one_vm, stopped}
use omni_infra_provider_prox.Sorting.Insertion.{insertion_sort, insert_by, insertion_sort-IsSort}
use omni_infra_provider_prox.Sorting.Orders.{compare-IsWeakOrder}
use omni_infra_provider_prox.Scheduler.{
  Reservation, pick, expire, is_stale, select_node, pick_node, account_all, compare_spread,
  parse_strategy,
}
use omni_infra_provider_prox.Ha.Names.{has_tag, machine_request_tag}
use omni_infra_provider_prox.Provision.Tasks.{check_task_status, wait_for_task_to_finish}
use omni_infra_provider_prox.Provision.Tasks.Status.{StatusOf, check_task_status_lem}
use omni_infra_provider_prox.Provision.Tasks.Waiting.{pinged, wait_for_task_to_finish-done}
use omni_infra_provider_prox.Provision.Pools.{cleanup_pool}
use omni_infra_provider_prox.Ha.Names.{sign_extend}
use omni_infra_provider_prox.Ha.Steps.{deprovision as ha_deprovision}
use omni_infra_provider_prox.Base.{◌⊎◌}
use omni_infra_provider_prox.Scheduler.{release}
use omni_infra_provider_prox.Provision.Tasks.{wait_round}
use omni_infra_provider_prox.Provision.Pools.{
  cleanup_listed, find_pool_in_list, listed_comment, delete_if_empty,
}
use omni_infra_provider_prox.Provision.Steps.{get_vm}
use omni_infra_provider_prox.Base.{trim_space, join, quoted}
use omni_infra_provider_prox.Errors.{Error, task_failed, retry_error, retry_interval}
use omni_infra_provider_prox.Provision.Tasks.{
  task_status, task_failure, task_error, with_log, logged, log_lines, log_tail, has_prefix,
}
use omni_infra_provider_prox.Provision.Steps.{start_vm, boot, after_iso}
use omni_infra_provider_prox.Provision.Steps.Sharing.{started, start_download-shared}
use omni_infra_provider_prox.Api.{Storage}
use omni_infra_provider_prox.Exec.Rules.{Sends}
use omni_infra_provider_prox.Provision.Pools.{ensure_pool}
use omni_infra_provider_prox.Provision.Pools.Ensuring.{IsPoolRequest, ensure_pool-Sends}
use omni_infra_provider_prox.Provision.Create.{Selector, first_match}
use omni_infra_provider_prox.Provision.Create.Storages.{IsFirst, first_match-IsFirst}
use omni_infra_provider_prox.Provision.Teardown.{
  locate, remove_on, remove_found, remove_vm, cleanup_recorded_pool,
}
use omni_infra_provider_prox.Provision.Teardown.Ordered.{IsOrdered, deprovision-IsOrdered}
use omni_infra_provider_prox.Provision.Teardown.Removal.{IsTornDown, deprovision-IsTornDown}
use omni_infra_provider_prox.Provision.Teardown.{deprovision}
use omni_infra_provider_prox.Provision.Teardown.Ledger.{deprovision-ledger}
use omni_infra_provider_prox.Provision.Pools.Cleanup.{CleanupOf, cleanup_pool_lem}
use omni_infra_provider_prox.Provision.Options.{build_tags_option}
use omni_infra_provider_prox.Provision.Options.Tags.{build_tags_option-has_tag}
use omni_infra_provider_prox.Provision.Placement.{
  pick_node_step, auto_select, survey, count_on_node, count_vms, with_vms, list_length, node_status,
  choose, pick_result, should_count_set_vms, memory_bytes,
}
use omni_infra_provider_prox.Provision.Placement.Online.{pick_node_step-online}
use omni_infra_provider_prox.Provision.Placement.Listed.{is_online}

abbrev unplaced : World Server
unplaced = record before { machine = record worker { node = "" } }

abbrev placed_at_5 : Result (Unit {0}) × World Server
placed_at_5 =
    pick_node_step server (λ free all. free) 0 (λ vm tag. has_tag 59 vm.tags tag) compare
      insertion_sort 5 request unplaced

placed_ok : placed_at_5.0 ≡ ok tt
unfolding pick_node_step auto_select survey count_on_node count_vms with_vms list_length node_status
    choose pick_result should_count_set_vms memory_bytes parse_strategy pick expire select_node
    pick_node account_all compare_spread insertion_sort insert_by has_tag split ◌>>=◌ call lookup
    put delete is_stale
placed_ok = refl

pick_node_step-online_example :
    (infos : List NodeInfo) × ((server nodes one_vm).0 ≡ ok infos)
    × (is_online placed_at_5.1.machine.node infos ≡ true)
pick_node_step-online_example =
    pick_node_step-online server (λ free all. free) 0 (λ vm tag. has_tag 59 vm.tags tag) compare
      insertion_sort compare-IsWeakOrder insertion_sort-IsSort 5 request unplaced refl placed_ok

wait_for_task_to_finish-done_example :
    (wait_for_task_to_finish server 3 (error_new "context canceled") "UPID:stop" before).0 ≡ ok tt
wait_for_task_to_finish-done_example =
    wait_for_task_to_finish-done server "UPID:stop" 0 3 (error_new "context canceled") before
      (omega arith) tt (unfold pinged lookup in (stopped "UPID:stop", refl, refl, refl))

check_task_status_lem_example :
    StatusOf
      (server (task_ping "UPID:stop") one_vm).0
      (check_task_status server "UPID:stop" before).0
check_task_status_lem_example = check_task_status_lem server "UPID:stop" before

cleanup_pool_lem_example : CleanupOf server "workers" before (cleanup_pool server "workers" before)
cleanup_pool_lem_example = cleanup_pool_lem server "workers" before

build_tags_option-has_tag_example :
    (value : String) × (build_tags_option ("prod" ∷ []) "workers" ≡ some value)
    × (split b';' value ≡ ("prod" ∷ []) ++ (machine_request_tag ^^ "workers") ∷ [])
    × (has_tag b';' value (machine_request_tag ^^ "workers") ≡ true)
build_tags_option-has_tag_example =
    build_tags_option-has_tag ("prod" ∷ []) "workers" refl (unfold free_of in (refl, tt))
      (unfold free_of in refl)

abbrev held : Reservation
held = record { at = 1; node = "alpha"; set = "workers"; memory = 2048 }

abbrev holding : World Server
holding = record before { ledger = ("w2", held) ∷ ("w3", held) ∷ [] }

deprovision-ledger_example :
    lookup "w3" (deprovision server 2 2 (error_new "context canceled") "w2" holding).1.ledger
    ≡ (if "w2" =ₜ "w3" then none else lookup "w3" holding.ledger)
deprovision-ledger_example =
    deprovision-ledger server 2 2 (error_new "context canceled") "w2" "w3" holding

teardown_ok : (deprovision server 2 2 (error_new "context canceled") "w2" before).0 ≡ ok tt
unfolding deprovision ha_deprovision locate remove_on remove_found remove_vm get_vm
    wait_for_task_to_finish wait_round cleanup_recorded_pool cleanup_pool cleanup_listed
    find_pool_in_list listed_comment delete_if_empty release sign_extend ◌>>=◌ call lookup delete
teardown_ok = refl

deprovision-IsTornDown_example : IsTornDown server 2 2 (error_new "context canceled") "w2" before
deprovision-IsTornDown_example =
    deprovision-IsTornDown server 2 2 (error_new "context canceled") "w2" before refl teardown_ok

ensure_pool-Sends_example : Sends (IsPoolRequest "workers") (ensure_pool server "workers" "workers")
ensure_pool-Sends_example = ensure_pool-Sends server "workers" "workers"

-- A machine that is registered in HA.
abbrev under_ha : World Server
under_ha = record before { machine = record worker { ha_registered = true } }

deprovision-IsOrdered_example :
    IsOrdered under_ha.machine
      (deprovision server 2 2 (error_new "context canceled") "w2" under_ha).1.log
deprovision-IsOrdered_example =
    deprovision-IsOrdered server 2 2 (error_new "context canceled") "w2" under_ha refl
