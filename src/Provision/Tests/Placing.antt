-- ===== src/Provision/Tests/Placing.antt =====
-- The step pickNode on a cluster with a node that is offline and cannot be reached.
use Prim.Native.Nat.{compare}
use omni_infra_provider_prox.Base.{
  ◌≡◌, refl, none, List, [], ◌∷◌, ◌=ₜ◌, if◌then◌else◌, inl, inr, arith, Bool-cases,
}
use omni_infra_provider_prox.Errors.{ok, err, error_new}
use omni_infra_provider_prox.Api.{Client, NodeInfo, nodes, node, virtual_machines}
use omni_infra_provider_prox.Exec.{World}
use omni_infra_provider_prox.Exec.Example.{worker, worker_vm}
use omni_infra_provider_prox.Sorting.Insertion.{insertion_sort, insertion_sort-IsSort}
use omni_infra_provider_prox.Sorting.Orders.{compare-IsWeakOrder}
use omni_infra_provider_prox.Ha.Names.{has_tag}
use omni_infra_provider_prox.Scheduler.{parse_strategy}
use omni_infra_provider_prox.Provision.Example.{plain, request}
use omni_infra_provider_prox.Provision.Placement.{pick_node_step}
use omni_infra_provider_prox.Provision.Placement.Listed.{is_online}
use omni_infra_provider_prox.Provision.Placement.Surveyed.{IsReadable}
use omni_infra_provider_prox.Provision.Placement.Answered.{outcome, pick_node_step-outcome}

abbrev two_nodes : List NodeInfo
two_nodes =
    record { node = "beta"; status = "offline"; mem = 1; max_mem = 9 }
    ∷ record { node = "alpha"; status = "online"; mem = 2; max_mem = 9 }
    ∷ []

abbrev cluster_of_two : Client (Unit {0})
cluster_of_two nodes s = (ok two_nodes, s)
cluster_of_two (node name) s =
    (if "alpha" =ₜ name then ok name else err (error_new "595 no route to host"), s)
cluster_of_two (virtual_machines known_as) s = (ok (worker_vm ∷ []), s)
cluster_of_two r s = (err (error_new "not asked for"), s)

cluster_of_two-IsReadable : IsReadable cluster_of_two two_nodes
unfolding is_online
cluster_of_two-IsReadable = record {
  reaches = λ name s on. elim (Bool-cases ("alpha" =ₜ name)) [
    | inl this ↦ rw this tt
    | inr other ↦ absurd (ground arith)
  ];
  lists = λ name known_as s on said. tt;
}

abbrev unplaced : World (Unit {0})
unplaced = record {
  server = tt;
  log = [];
  machine = record worker { node = "" };
  ledger = [];
  pending_iso_downloads = [];
  machine_uuid = none;
}

pick_node_step-outcome_example :
    (pick_node_step cluster_of_two
      (λ free all. free)
      0
      (λ vm tag. has_tag 59 vm.tags tag)
      compare
      insertion_sort
      5
      request
      unplaced).0
    ≡ outcome two_nodes
pick_node_step-outcome_example =
    pick_node_step-outcome cluster_of_two (λ free all. free) 0 (λ vm tag. has_tag 59 vm.tags tag)
      compare insertion_sort compare-IsWeakOrder insertion_sort-IsSort 5 request plain two_nodes
      unplaced cluster_of_two-IsReadable refl refl refl (unfold parse_strategy in tt) refl
