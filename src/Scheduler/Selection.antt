-- ===== src/Scheduler/Selection.antt =====
-- `selectNode` of scheduler.go and `pickNode` of provision.go: which node each strategy picks, whatever
-- the sort does with ties.
use Prim.Native.Nat.{Ordering, ◌≤◌, ◌<◌}
use Prim.Native.String.{compare as compare_text}
use omni_infra_provider_prox.Base.{ℕ, ◌≡◌, ◌≢◌, ◌⊎◌, some, List, [], ◌∷◌, All, Memᴰ, arith}
use omni_infra_provider_prox.Sorting.{Comparison, SortFunc, IsWeakOrder, IsSort}
use omni_infra_provider_prox.Sorting.Orders.{
  compare-IsWeakOrder, compare_text-IsWeakOrder, IsWeakOrder-on, IsWeakOrder-negate,
  IsWeakOrder-then_by, sort-IsChoice,
}
use omni_infra_provider_prox.Scheduler.{
  NodeStatus, Strategy, spread, fewer_vms, round_robin, binpack, compare_spread, compare_fewer_vms,
  compare_round_robin, compare_binpack, select_node,
}

module _ {F : Type 0} (compare_memory : Comparison F) where
  -- What each strategy promises of the picked node `p` against any other node `m`.
  abbrev pub Prefers : Strategy → ℕ → NodeStatus F → NodeStatus F → Type 0
  Prefers spread memory p m =
      (p.same_set_vms < m.same_set_vms)
      ⊎ ((p.same_set_vms ≡ m.same_set_vms)
          × (compare_memory p.memory_free m.memory_free ≢ Ordering.lt))
  Prefers fewer_vms memory p m =
      (p.total_vms < m.total_vms)
      ⊎ ((p.total_vms ≡ m.total_vms) × (compare_memory p.memory_free m.memory_free ≢ Ordering.lt))
  Prefers round_robin memory p m =
      (p.same_set_vms < m.same_set_vms)
      ⊎ ((p.same_set_vms ≡ m.same_set_vms) × (compare_text m.name p.name ≢ Ordering.lt))
  Prefers binpack memory p m =
      ((memory ≤ p.free_mem) × (memory ≤ m.free_mem → p.free_mem ≤ m.free_mem))
      ⊎ ((p.free_mem < memory) × (m.free_mem < memory) × (m.free_mem ≤ p.free_mem))

  module _ (w : IsWeakOrder compare_memory) where
    compare_spread-IsWeakOrder : IsWeakOrder (compare_spread compare_memory)
    unfolding compare_spread
    compare_spread-IsWeakOrder =
        IsWeakOrder-then_by
          (IsWeakOrder-on (λ (n : NodeStatus F). n.same_set_vms) compare-IsWeakOrder)
          (IsWeakOrder-negate (IsWeakOrder-on (λ (n : NodeStatus F). n.memory_free) w))

    compare_fewer_vms-IsWeakOrder : IsWeakOrder (compare_fewer_vms compare_memory)
    unfolding compare_fewer_vms
    compare_fewer_vms-IsWeakOrder =
        IsWeakOrder-then_by (IsWeakOrder-on (λ (n : NodeStatus F). n.total_vms) compare-IsWeakOrder)
          (IsWeakOrder-negate (IsWeakOrder-on (λ (n : NodeStatus F). n.memory_free) w))

compare_round_robin-IsWeakOrder : {F : Type 0} → IsWeakOrder (compare_round_robin {F = F})
unfolding compare_round_robin
compare_round_robin-IsWeakOrder {F} =
    IsWeakOrder-then_by (IsWeakOrder-on (λ (n : NodeStatus F). n.same_set_vms) compare-IsWeakOrder)
      (IsWeakOrder-on (λ (n : NodeStatus F). n.name) compare_text-IsWeakOrder)

compare_binpack-IsWeakOrder :
    {F : Type 0} (memory : ℕ) → IsWeakOrder (compare_binpack {F = F} memory)
unfolding compare_binpack
compare_binpack-IsWeakOrder memory = record {
  mirror = λ a b. ground arith;
  trans = λ a b c p q. ground arith;
}

module _ {F : Type 0} {P Q : NodeStatus F → Type 0} where
  All-map : ((m : NodeStatus F) → P m → Q m) → (xs : List (NodeStatus F)) → All P xs → All Q xs
  All-map f [] h = tt
  All-map f (x ∷ xs) h = (f x h.0, All-map f xs h.1)

module _ {F : Type 0} (compare_memory : Comparison F) (sort : SortFunc (NodeStatus F)) where
  -- A pick of a strategy: of the list, and preferred to each of it.
  abbrev pub IsPick : Strategy → ℕ → List (NodeStatus F) → NodeStatus F → Type 0
  IsPick strategy memory nodes p =
      Memᴰ p nodes × All (Prefers compare_memory strategy memory p) nodes

  module _ (w : IsWeakOrder compare_memory) (s : IsSort sort) where
    spread-Prefers :
        (memory : ℕ) (p m : NodeStatus F)
        → compare_spread compare_memory m p ≢ Ordering.lt
        → Prefers compare_memory spread memory p m
    unfolding compare_spread
    spread-Prefers memory p m h = ground (arith, w.mirror m.memory_free p.memory_free)

    fewer_vms-Prefers :
        (memory : ℕ) (p m : NodeStatus F)
        → compare_fewer_vms compare_memory m p ≢ Ordering.lt
        → Prefers compare_memory fewer_vms memory p m
    unfolding compare_fewer_vms
    fewer_vms-Prefers memory p m h = ground (arith, w.mirror m.memory_free p.memory_free)

    round_robin-Prefers :
        (memory : ℕ) (p m : NodeStatus F)
        → compare_round_robin m p ≢ Ordering.lt
        → Prefers compare_memory round_robin memory p m
    unfolding compare_round_robin
    round_robin-Prefers memory p m h = ground arith

    binpack-Prefers :
        (memory : ℕ) (p m : NodeStatus F)
        → compare_binpack memory m p ≢ Ordering.lt
        → Prefers compare_memory binpack memory p m
    unfolding compare_binpack
    binpack-Prefers memory p m h = ground arith

    -- For a weak order on the free memory and a sort that meets its contract: of a list that is not
    -- empty, `selectNode` returns a node of the list, which the strategy prefers to every node of
    -- the list.
    pub select_node_lem :
        (strategy : Strategy) (nodes : List (NodeStatus F)) (memory : ℕ)
        → nodes ≢ []
        → (p : NodeStatus F) × (select_node compare_memory sort strategy nodes memory ≡ some p)
          × IsPick strategy memory nodes p
    unfolding select_node
    select_node_lem spread nodes memory ne =
        let (p, e, c) = sort-IsChoice s (compare_spread-IsWeakOrder compare_memory w) nodes ne in
        (p, e, (c.0, All-map (spread-Prefers memory p) nodes c.1))
    select_node_lem fewer_vms nodes memory ne =
        let (p, e, c) = sort-IsChoice s (compare_fewer_vms-IsWeakOrder compare_memory w) nodes ne in
        (p, e, (c.0, All-map (fewer_vms-Prefers memory p) nodes c.1))
    select_node_lem round_robin nodes memory ne =
        let (p, e, c) = sort-IsChoice s compare_round_robin-IsWeakOrder nodes ne in
        (p, e, (c.0, All-map (round_robin-Prefers memory p) nodes c.1))
    select_node_lem binpack nodes memory ne =
        let (p, e, c) = sort-IsChoice s (compare_binpack-IsWeakOrder memory) nodes ne in
        (p, e, (c.0, All-map (binpack-Prefers memory p) nodes c.1))
