-- ===== src/Scheduler/Tests.antt =====
-- Two nodes and a ledger with one placement in flight, on which the scheduler's theorems are applied.
use Prim.Native.Nat.{compare}
use omni_infra_provider_prox.Base.{
  true, ℕ, String, ◌≡◌, refl, some, List, [], ◌∷◌, Permᴰ, inl, arith, lookup, delete, ◌=ₜ◌,
  if◌then◌else◌, put,
}
use omni_infra_provider_prox.Sorting.Insertion.{insertion_sort, insert_by, insertion_sort-IsSort}
use omni_infra_provider_prox.Sorting.Orders.{compare-IsWeakOrder}
use omni_infra_provider_prox.Scheduler.{
  NodeStatus, spread, binpack, Reservation, Ledger, has_node, expire, is_stale, account_all,
  compare_spread, pick_node, pick, release, select_node, reservation_ttl,
}
use omni_infra_provider_prox.Scheduler.Selection.{IsPick, select_node_lem}
use omni_infra_provider_prox.Scheduler.Order.{SamePick, pick-perm}
use omni_infra_provider_prox.Scheduler.Reservations.{keep_live, pick-release, pick_lem}
use omni_infra_provider_prox.Scheduler.Balance.{pick-IsBalanced}
use omni_infra_provider_prox.Scheduler.Load.{DistinctNames, in_flight, IsBalanced}
use omni_infra_provider_prox.Base.{none}
use omni_infra_provider_prox.Scheduler.History.{
  new_scheduler, Operation, picks, releases, Trace, holdings, operate_all, new_scheduler-Trace,
}
use omni_infra_provider_prox.Scheduler.Wave.{Demand, wave, wave-IsBalanced}

abbrev alpha : NodeStatus ℕ
alpha = record {
  name = "alpha";
  memory_free = 80;
  free_mem = 8000;
  same_set_vms = 0;
  total_vms = 3;
}

abbrev beta : NodeStatus ℕ
beta = record { name = "beta"; memory_free = 50; free_mem = 5000; same_set_vms = 0; total_vms = 1 }

abbrev workers_1 : Reservation
workers_1 = record { at = 100; node = "alpha"; set = "workers"; memory = 2000 }

abbrev controls_1 : Reservation
controls_1 = record { at = 90; node = "beta"; set = "controls"; memory = 1000 }

abbrev two_nodes : List (NodeStatus ℕ)
two_nodes = alpha ∷ beta ∷ []

abbrev one_in_flight : Ledger
one_in_flight = ("w1", workers_1) ∷ []

abbrev two_in_flight : Ledger
two_in_flight = ("w1", workers_1) ∷ ("c1", controls_1) ∷ []

abbrev beta_reserved : Reservation
beta_reserved = record { at = 200; node = "beta"; set = "workers"; memory = 2000 }

second_pick :
    pick compare insertion_sort 200 reservation_ttl one_in_flight two_nodes "workers" "w2" 2000
      spread []
    ≡ some (beta, ("w2", beta_reserved) ∷ one_in_flight)
unfolding pick expire is_stale select_node pick_node account_all compare_spread insertion_sort
    insert_by put delete
second_pick = refl

distinct : DistinctNames two_nodes
unfolding has_node
distinct = (refl, (refl, tt))

balanced :
    IsBalanced "workers" two_nodes (delete "w2" (expire 200 reservation_ttl [] one_in_flight))
unfolding delete expire is_stale in_flight
balanced = ground arith

pick-IsBalanced_example : IsBalanced "workers" two_nodes (("w2", beta_reserved) ∷ one_in_flight)
pick-IsBalanced_example =
    pick-IsBalanced compare insertion_sort compare-IsWeakOrder insertion_sort-IsSort 200
      reservation_ttl one_in_flight two_nodes "workers" "w2" 2000 spread [] beta
      (("w2", beta_reserved) ∷ one_in_flight) (inl refl) distinct balanced second_pick

select_node_lem_example :
    (p : NodeStatus ℕ) × (select_node compare insertion_sort binpack two_nodes 2000 ≡ some p)
    × IsPick compare insertion_sort binpack 2000 two_nodes p
select_node_lem_example =
    select_node_lem compare insertion_sort compare-IsWeakOrder insertion_sort-IsSort binpack
      two_nodes 2000 (λ e. cc)

pick_lem_example :
    (p : NodeStatus ℕ) × (l' : Ledger) × (pick compare insertion_sort 200 reservation_ttl
        one_in_flight two_nodes "workers" "w2" 2000 spread []
      ≡ some (p, l'))
    × (has_node p.name two_nodes ≡ true)
    × ((j : String)
        → lookup j l' ≡ (
            if "w2" =ₜ j
            then some (record { at = 200; node = p.name; set = "workers"; memory = 2000 })
            else keep_live 200 reservation_ttl [] j (lookup j one_in_flight)))
pick_lem_example =
    pick_lem compare insertion_sort 200 reservation_ttl one_in_flight "workers" "w2" 2000 spread []
      compare-IsWeakOrder insertion_sort-IsSort alpha (beta ∷ []) (unfold lookup in (refl, tt))

pick-release_example :
    pick compare insertion_sort 200 reservation_ttl
      (release "w1" two_in_flight)
      two_nodes
      "workers"
      "w1"
      2000
      spread
      []
    ≡ pick compare insertion_sort 200 reservation_ttl two_in_flight two_nodes "workers" "w1" 2000
        spread []
pick-release_example =
    pick-release compare insertion_sort 200 reservation_ttl two_in_flight "workers" "w1" 2000 spread
      [] two_nodes

pick-perm_example :
    SamePick compare insertion_sort
      (pick compare insertion_sort 200 reservation_ttl two_in_flight two_nodes "workers" "w2" 2000
        spread [])
      (pick compare insertion_sort 200 reservation_ttl
        (("c1", controls_1) ∷ one_in_flight)
        two_nodes
        "workers"
        "w2"
        2000
        spread
        [])
pick-perm_example =
    pick-perm compare insertion_sort 200 reservation_ttl two_nodes "workers" "w2" 2000 spread []
      (Permᴰ.swap refl refl)

abbrev three_calls : List (Operation ℕ)
three_calls =
    picks 100 alpha (beta ∷ []) "workers" "w1" 2000 spread []
    ∷ picks 200 alpha (beta ∷ []) "workers" "w2" 2000 spread ("w1" ∷ [])
    ∷ releases "w2"
    ∷ []

new_scheduler-Trace_example :
    Trace reservation_ttl
      (λ _. none)
      three_calls
      (holdings (operate_all compare insertion_sort three_calls new_scheduler))
new_scheduler-Trace_example =
    new_scheduler-Trace compare insertion_sort compare-IsWeakOrder insertion_sort-IsSort three_calls

abbrev three_demands : List Demand
three_demands =
    record { now = 100; id = "w1"; memory = 2000 }
    ∷ record { now = 150; id = "w2"; memory = 2000 }
    ∷ record { now = 150; id = "w3"; memory = 1000 }
    ∷ []

unplaced-IsBalanced : IsBalanced "workers" two_nodes []
unfolding in_flight
unplaced-IsBalanced = ground arith

wave-IsBalanced_example :
    IsBalanced "workers" two_nodes
      (operate_all compare insertion_sort
        (wave alpha (beta ∷ []) "workers" spread three_demands)
        new_scheduler).reservations
wave-IsBalanced_example =
    wave-IsBalanced alpha (beta ∷ []) "workers" spread compare insertion_sort compare-IsWeakOrder
      insertion_sort-IsSort 100 three_demands (inl refl) distinct unplaced-IsBalanced
      ((refl, (refl, tt)), ((refl, tt), (tt, tt)))
      ((omega arith, omega arith), ((omega arith, omega arith), ((omega arith, omega arith), tt)))
