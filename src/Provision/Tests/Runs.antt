-- ===== src/Provision/Tests/Runs.antt =====
-- Runs of the steps on the example server.
use omni_infra_provider_prox.Base.{ℕ, ◌≤◌, String, ◌≡◌, refl, Bool, sym, ap, false, none, [], ◌=ₜ◌}
use omni_infra_provider_prox.Provision.Example.{request, by_name, example}
use omni_infra_provider_prox.Errors.{Result, ok, err}
use omni_infra_provider_prox.Exec.{World, ◌>>=◌, call}
use omni_infra_provider_prox.Exec.Rules.{Sends}
use omni_infra_provider_prox.Provision.Create.Names.{IsDistinct, sync_vm-IsDistinct}
use omni_infra_provider_prox.Exec.Example.{Server, server, worker, one_vm}
use omni_infra_provider_prox.Provision.Create.{
  sync_vm, create_vm, assign_uuid, pick_storage, pool_options, disk_options_from, first_match,
}
use omni_infra_provider_prox.Provision.Pools.{
  ensure_pool, find_pool_in_list, pool_create_decision, listed_comment,
}
use omni_infra_provider_prox.Base.{true}
use omni_infra_provider_prox.Exec.Example.{stopped}
use omni_infra_provider_prox.Base.{lookup}
use omni_infra_provider_prox.Errors.{Error, errors_is, task_failed}
use omni_infra_provider_prox.Base.{false}
use omni_infra_provider_prox.Api.{Task}
use omni_infra_provider_prox.Provision.Run.Failed.{Reaches-failed}
use omni_infra_provider_prox.Provision.Run.{Step, sync, attempt, outside, here, later, run_step}
use omni_infra_provider_prox.Provision.Run.Creation.{NamesTasks}
use omni_infra_provider_prox.Provision.Run.Unique.{counted, Reaches-creations}

abbrev uploaded : World (Server × ℕ)
uploaded = record {
  server = (one_vm, 0);
  log = [];
  machine = worker;
  ledger = [];
  pending_iso_downloads = [];
  machine_uuid = none;
}

abbrev after : Step → World (Server × ℕ) → World (Server × ℕ)
after step w = (run_step (counted example) step 5 request w).1

abbrev is_named : Result String → Bool
is_named (ok upid) = upid =ₜ ""
is_named (err e) = false

server-NamesTasks : NamesTasks server
server-NamesTasks n vmid options s upid e = sym (ap is_named e)

created : (after sync uploaded).server.1 ≡ 1
unfolding run_step sync_vm create_vm assign_uuid pick_storage pool_options disk_options_from
    first_match ensure_pool find_pool_in_list pool_create_decision listed_comment ◌>>=◌ call
created = refl

-- A creation, then a move of others, then two attempts of the same step.
Reaches-creations_example :
    (after sync (
      after sync (record (after sync uploaded) {
        server = (one_vm, (after sync uploaded).server.1);
      }))).server.1
    ≤ 1
Reaches-creations_example = Reaches-creations example server-NamesTasks {w = uploaded} refl refl (
    later
      (later (later (later here (attempt sync 5 request)) (outside one_vm))
        (attempt sync 5 request))
      (attempt sync 5 request))

sync_vm-IsDistinct_example : Sends IsDistinct (sync_vm server by_name request)
sync_vm-IsDistinct_example = sync_vm-IsDistinct server by_name request

-- A machine whose creation failed, and a later moment.
abbrev failed_creation : World (Server × ℕ)
failed_creation = record uploaded { machine = record worker { vm_create_task = "UPID:start" } }

abbrev retried : World (Server × ℕ)
retried = after sync failed_creation

abbrev failed_task : Task
failed_task = record (stopped "UPID:start") {
  task_type = "qmstart";
  exit_status = "start failed";
  is_successful = false;
  is_failed = true;
}

-- The server of the example does not change.
abbrev later_on : World (Server × ℕ)
later_on = record retried { server = (one_vm, retried.server.1) }

Reaches-failed_example :
    (e : Error) × ((run_step (counted example) sync 9 request later_on).0 ≡ err e)
    × (errors_is e task_failed ≡ true)
    × ((run_step (counted example) sync 9 request later_on).1.machine.vm_create_task ≡ "UPID:start")
Reaches-failed_example =
    Reaches-failed example {w = failed_creation} {v = later_on} 9 request failed_task refl
      (later (later here (attempt sync 5 request)) (outside one_vm)) (unfold lookup in refl) refl
      refl
