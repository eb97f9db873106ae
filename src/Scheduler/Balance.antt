-- ===== src/Scheduler/Balance.antt =====
-- What the ledger is for: placements in flight of one machine request set are spread over the nodes.
use omni_infra_provider_prox.Base.{
  ℕ, ◌+◌, ◌≤◌, String, ◌≡◌, ◌∙◌, refl, sym, ap, subst, true, false, some, List, [], ◌∷◌, map, All,
  Memᴰ, arith, eq_iff, delete, put,
}
use omni_infra_provider_prox.Sorting.{Comparison, SortFunc, IsSort, IsWeakOrder}
use omni_infra_provider_prox.Scheduler.{
  NodeStatus, Strategy, spread, round_robin, Reservation, Ledger, has_node, expire, reserve, pick,
  select_node,
}
use omni_infra_provider_prox.Scheduler.Selection.{Prefers, select_node_lem}
use omni_infra_provider_prox.Scheduler.Load.{
  in_flight, Spreads, DistinctNames, load, IsBalanced, loaded, account_all-loaded,
}

module _ {F : Type 0} where
  -- The picked node, seen with its load, is one of the nodes, and none has a smaller load.
  abbrev IsLightest : String → Ledger → List (NodeStatus F) → NodeStatus F → Type 0
  IsLightest set l ns p =
      All (λ m. p.same_set_vms ≤ load set l m) ns
      × All (λ m. m.name ≡ p.name → load set l m ≡ p.same_set_vms) ns

  least-loaded :
      (set : String) (l : Ledger) (p : NodeStatus F) (ns : List (NodeStatus F))
      → All (λ m. p.same_set_vms ≤ m.same_set_vms) (map (loaded set l) ns)
      → All (λ m. p.same_set_vms ≤ load set l m) ns
  least-loaded set l p [] h = tt
  least-loaded set l p (n ∷ ns) h = (h.0, least-loaded set l p ns h.1)

  no_such_name :
      (set : String) (l : Ledger) (p : NodeStatus F) (ns : List (NodeStatus F))
      → has_node p.name ns ≡ false
      → All (λ m. m.name ≡ p.name → load set l m ≡ p.same_set_vms) ns
  unfolding has_node
  no_such_name set l p [] h = tt
  no_such_name set l p (n ∷ ns) h =
      (λ e. ground (arith, eq_iff n.name p.name), no_such_name set l p ns (ground arith))

  has_node_of_mem :
      (set : String) (l : Ledger) (p : NodeStatus F) (ns : List (NodeStatus F))
      → Memᴰ p (map (loaded set l) ns)
      → has_node p.name ns ≡ true
  unfolding has_node
  has_node_of_mem set l p [] m = elim m [ ]
  has_node_of_mem set l p (n ∷ ns) (Memᴰ.head e) = ground (arith, eq_iff n.name p.name, e)
  has_node_of_mem set l p (n ∷ ns) (Memᴰ.tail m) = ground (arith, has_node_of_mem set l p ns m)

  same_name_same_load :
      (set : String) (l : Ledger) (p : NodeStatus F) (ns : List (NodeStatus F))
      → DistinctNames ns
      → Memᴰ p (map (loaded set l) ns)
      → All (λ m. m.name ≡ p.name → load set l m ≡ p.same_set_vms) ns
  same_name_same_load set l p [] d m = tt
  same_name_same_load set l p (n ∷ ns) d (Memᴰ.head e) = (
    λ _. sym (ap (λ q. q.same_set_vms) e),
    no_such_name set l p ns (ap (λ q. has_node q.name ns) e ∙ d.0),
  )
  same_name_same_load set l p (n ∷ ns) d (Memᴰ.tail m) = (
    λ e. ground (arith, has_node_of_mem set l p ns m, ap (λ z. has_node z ns) e, d.0),
    same_name_same_load set l p ns d.1 m,
  )

  module _ (set id : String) (r : Reservation) (k : Ledger) (p : NodeStatus F) where
    balanced_row :
        (n : NodeStatus F) (ms : List (NodeStatus F))
        → r.set ≡ set
        → r.node ≡ p.name
        → (n.name ≡ p.name → load set k n ≡ p.same_set_vms)
        → All (λ m. p.same_set_vms ≤ load set k m) ms
        → All (λ m. load set k n ≤ load set k m + 1) ms
        → All (λ m. load set ((id, r) ∷ k) n ≤ load set ((id, r) ∷ k) m + 1) ms
    unfolding in_flight
    balanced_row n [] es en own least h = tt
    balanced_row n (m ∷ ms) es en own least h = (
      ground (arith, own, eq_iff r.node n.name, eq_iff r.node m.name),
      balanced_row n ms es en own least.1 h.1,
    )

    balanced_rows :
        (ns ms : List (NodeStatus F))
        → r.set ≡ set
        → r.node ≡ p.name
        → All (λ n. n.name ≡ p.name → load set k n ≡ p.same_set_vms) ns
        → All (λ m. p.same_set_vms ≤ load set k m) ms
        → All (λ n. All (λ m. load set k n ≤ load set k m + 1) ms) ns
        → All (λ n. All (λ m. load set ((id, r) ∷ k) n ≤ load set ((id, r) ∷ k) m + 1) ms) ns
    balanced_rows [] ms es en own least h = tt
    balanced_rows (n ∷ ns) ms es en own least h =
        (balanced_row n ms es en own.0 least h.0, balanced_rows ns ms es en own.1 least h.1)

module _ {F : Type 0} (compare_memory : Comparison F) (sort : SortFunc (NodeStatus F)) where
  Prefers-le :
      (strategy : Strategy) (memory : ℕ) (p : NodeStatus F) (ns : List (NodeStatus F))
      → Spreads strategy
      → All (Prefers compare_memory strategy memory p) ns
      → All (λ m. p.same_set_vms ≤ m.same_set_vms) ns
  Prefers-le strategy memory p [] s h = tt
  Prefers-le spread memory p (n ∷ ns) s h = (ground arith, Prefers-le spread memory p ns s h.1)
  Prefers-le round_robin memory p (n ∷ ns) s h =
      (ground arith, Prefers-le round_robin memory p ns s h.1)
  Prefers-le _ memory p (n ∷ ns) s h = absurd (ground arith)

  reservation : (set : String) (memory now : ℕ) → NodeStatus F → Reservation
  reservation set memory now p = record { at = now; node = p.name; set = set; memory = memory }

  -- What a pick that spreads returns: a lightest node, and the ledger with the reservation of it.
  pick-IsLightest :
      (w : IsWeakOrder compare_memory) (c : IsSort sort) (now ttl : ℕ) (l : Ledger)
      (n : NodeStatus F) (ns : List (NodeStatus F)) (set id : String) (memory : ℕ)
      (strategy : Strategy) (materialized : List String) (p : NodeStatus F) (l' : Ledger)
      → Spreads strategy
      → DistinctNames (n ∷ ns)
      → pick compare_memory sort now ttl l (n ∷ ns) set id memory strategy materialized
        ≡ some (p, l')
      → IsLightest set (delete id (expire now ttl materialized l)) (n ∷ ns) p
        × (l' ≡ (id, reservation set memory now p) ∷ delete id (expire now ttl materialized l))
  unfolding pick put reservation
  pick-IsLightest w c now ttl l n ns set id memory strategy done p l' s d e =
      let live = expire now ttl done l in
      let nodes : List (NodeStatus F) = n ∷ ns in
      let seen = map (loaded set (delete id live)) nodes in
      let (q, picked, choice) =
        select_node_lem compare_memory sort w c strategy seen memory (λ z. cc) in
      let e' : reserve compare_memory sort set id memory now live (some q) ≡ some (p, l') =
        ap (λ o. reserve compare_memory sort set id memory now live o)
          (sym picked
            ∙ ap (λ v. select_node compare_memory sort strategy v memory)
                (sym (account_all-loaded strategy set id s live nodes d)))
        ∙ e in
      let same : q ≡ p = cc in
      let light =
        subst (λ v. Memᴰ v seen × All (λ m. v.same_set_vms ≤ m.same_set_vms) seen) same
          (choice.0, Prefers-le strategy memory q seen s choice.1) in
      (
        (
          least-loaded set (delete id live) p nodes light.1,
          same_name_same_load set (delete id live) p nodes d light.0,
        ),
        ground arith,
      )

  -- For a weak order on the free memory and a sort that meets its contract: a pick of a strategy
  -- that spreads, over nodes with distinct names, keeps the set balanced. If by the machines seen
  -- and the live reservations of the other requests no node had over one machine of the set more
  -- than another, so it is with the new reservation.
  pub pick-IsBalanced :
      (w : IsWeakOrder compare_memory) (c : IsSort sort) (now ttl : ℕ) (l : Ledger)
      (nodes : List (NodeStatus F)) (set id : String) (memory : ℕ) (strategy : Strategy)
      (materialized : List String) (p : NodeStatus F) (l' : Ledger)
      → Spreads strategy
      → DistinctNames nodes
      → IsBalanced set nodes (delete id (expire now ttl materialized l))
      → pick compare_memory sort now ttl l nodes set id memory strategy materialized ≡ some (p, l')
      → IsBalanced set nodes l'
  unfolding reservation
  pick-IsBalanced w c now ttl l [] set id memory strategy done p l' s d b e = tt
  pick-IsBalanced w c now ttl l (n ∷ ns) set id memory strategy done p l' s d b e =
      let (light, after) =
        pick-IsLightest w c now ttl l n ns set id memory strategy done p l' s d e in
      subst (IsBalanced set (n ∷ ns)) (sym after) (
        balanced_rows set id (reservation set memory now p) (delete id (expire now ttl done l)) p
          (n ∷ ns) (n ∷ ns) refl refl light.1 light.0 b)
