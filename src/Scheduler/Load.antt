-- ===== src/Scheduler/Load.antt =====
-- The load of a node: the machines of a set that are seen there and those in flight.
use omni_infra_provider_prox.Base.{
  ℕ, ◌+◌, ◌≤◌, String, ◌≡◌, ◌∙◌, refl, sym, ap, true, false, ◌&&◌, ◌⊎◌, inl, inr, List, [], ◌∷◌,
  map, ◌=ₜ◌, if◌then◌else◌, All, arith, eq_iff, delete, Bool-cases,
}
use omni_infra_provider_prox.Scheduler.{
  NodeStatus, Strategy, spread, round_robin, Reservation, Ledger, apply_reservation, has_node,
  update_named, account, account_all,
}
use omni_infra_provider_prox.Scheduler.Order.{apply_reservation-KeepsName, has_node-update_named}

-- How many reservations of the set are on the node.
unfoldable pub in_flight : (set name : String) → Ledger → ℕ
in_flight set name [] = 0
in_flight set name ((id, r) ∷ l) =
    let rest = in_flight set name l in if r.set =ₜ set && r.node =ₜ name then rest + 1 else rest

-- The strategies that count the machines of the set.
abbrev pub Spreads : Strategy → Type 0
Spreads strategy = (strategy ≡ spread) ⊎ (strategy ≡ round_robin)

module _ {F : Type 0} where
  abbrev pub DistinctNames : List (NodeStatus F) → Type 0
  DistinctNames [] = Unit {0}
  DistinctNames (n ∷ ns) = (has_node n.name ns ≡ false) × DistinctNames ns

  -- The machines of the set on the node, those seen and those in flight.
  abbrev pub load : String → Ledger → NodeStatus F → ℕ
  load set l n = n.same_set_vms + in_flight set n.name l

  -- No node has over one machine more than another.
  abbrev pub IsBalanced : String → List (NodeStatus F) → Ledger → Type 0
  IsBalanced set nodes l = All (λ n. All (λ m. load set l n ≤ load set l m + 1) nodes) nodes

  abbrev pub loaded : String → Ledger → NodeStatus F → NodeStatus F
  loaded set l n = record n { same_set_vms = load set l n }

  abbrev at_name : String → (NodeStatus F → NodeStatus F) → NodeStatus F → NodeStatus F
  at_name x f n = if n.name =ₜ x then f n else n

  map-at_name_miss :
      (x : String) (f : NodeStatus F → NodeStatus F) (ns : List (NodeStatus F))
      → has_node x ns ≡ false
      → map (at_name x f) ns ≡ ns
  unfolding has_node
  map-at_name_miss x f [] h = refl
  map-at_name_miss x f (n ∷ ns) h = ground (arith, map-at_name_miss x f ns)

  update_named-map :
      (x : String) (f : NodeStatus F → NodeStatus F) (ns : List (NodeStatus F))
      → DistinctNames ns
      → update_named x f ns ≡ map (at_name x f) ns
  unfolding update_named
  update_named-map x f [] d = refl
  update_named-map x f (n ∷ ns) d = ground (
    arith,
    update_named-map x f ns d.1,
    map-at_name_miss x f ns,
    eq_iff n.name x,
    ap (λ z. has_node z ns) {x = n.name} {y = x},
  )

  update_named-DistinctNames :
      (x : String) (f : NodeStatus F → NodeStatus F) (ns : List (NodeStatus F))
      → ((n : NodeStatus F) → (f n).name ≡ n.name)
      → DistinctNames ns
      → DistinctNames (update_named x f ns)
  unfolding update_named
  update_named-DistinctNames x f [] k d = tt
  update_named-DistinctNames x f (n ∷ ns) k d =
      ground
        (arith, update_named-DistinctNames x f ns k d.1, has_node-update_named n.name x f ns k, k n)

  loaded-nil : (set : String) (ns : List (NodeStatus F)) → map (loaded set []) ns ≡ ns
  unfolding in_flight
  loaded-nil set [] = refl
  loaded-nil set (n ∷ ns) = ground (arith, loaded-nil set ns)

  map-map_eq :
      (f g h : NodeStatus F → NodeStatus F)
      → ((n : NodeStatus F) → f (g n) ≡ h n)
      → (ns : List (NodeStatus F)) → map f (map g ns) ≡ map h ns
  map-map_eq f g h e [] = refl
  map-map_eq f g h e (n ∷ ns) = ground (arith, e n, map-map_eq f g h e ns)

  map_eq :
      (f g : NodeStatus F → NodeStatus F)
      → ((n : NodeStatus F) → f n ≡ g n)
      → (ns : List (NodeStatus F)) → map f ns ≡ map g ns
  map_eq f g e [] = refl
  map_eq f g e (n ∷ ns) = ground (arith, e n, map_eq f g e ns)

  module _ (strategy : Strategy) (set id : String) (s : Spreads strategy) where
    account-DistinctNames :
        (e : String × Reservation) (ns : List (NodeStatus F))
        → DistinctNames ns
        → DistinctNames (account strategy set id e ns)
    unfolding account
    account-DistinctNames (i, r) ns d = ground (
      arith,
      update_named-DistinctNames r.node (λ n. apply_reservation strategy n r) ns
          (apply_reservation-KeepsName strategy r) d,
    )

    one_more :
        (i : String) (r : Reservation) (l : Ledger) (n : NodeStatus F)
        → (r.set =ₜ set) ≡ true
        → loaded set l (at_name r.node (λ n. apply_reservation strategy n r) n)
          ≡ loaded set ((i, r) ∷ l) n
    unfolding in_flight apply_reservation
    one_more i r l n h = ground (arith, s, eq_iff r.node n.name, eq_iff n.name r.node)

    not_more :
        (i : String) (r : Reservation) (l : Ledger) (n : NodeStatus F)
        → (r.set =ₜ set) ≡ false
        → loaded set l n ≡ loaded set ((i, r) ∷ l) n
    unfolding in_flight
    not_more i r l n h = ground arith

    loaded-account :
        (i : String) (r : Reservation) (l : Ledger) (ns : List (NodeStatus F))
        → DistinctNames ns
        → map (loaded set (delete id l)) (account strategy set id (i, r) ns)
          ≡ map (loaded set (delete id ((i, r) ∷ l))) ns
    unfolding account delete
    loaded-account i r l ns d = elim (Bool-cases (i =ₜ id)) [
      | inl own ↦ rw (own, account, delete)
      | inr other ↦ elim (Bool-cases (r.set =ₜ set)) [
        | inl same ↦
            rw (other, same, account, delete)
              (ap (map (loaded set (delete id l)))
                  (update_named-map r.node (λ n. apply_reservation strategy n r) ns d)
                ∙ map-map_eq (loaded set (delete id l))
                    (at_name r.node (λ n. apply_reservation strategy n r))
                    (loaded set ((i, r) ∷ delete id l)) (λ n. one_more i r (delete id l) n same) ns)
        | inr differs ↦
            rw (other, differs, account, delete)
              (map_eq (loaded set (delete id l)) (loaded set ((i, r) ∷ delete id l))
                (λ n. not_more i r (delete id l) n differs) ns)
      ]
    ]

    -- Accounting the ledger adds to each node what is in flight there, the request's own entry left out.
    pub account_all-loaded :
        (l : Ledger) (ns : List (NodeStatus F))
        → DistinctNames ns
        → account_all strategy set id l ns ≡ map (loaded set (delete id l)) ns
    unfolding account_all delete
    account_all-loaded [] ns d = sym (loaded-nil set ns)
    account_all-loaded ((i, r) ∷ l) ns d =
        account_all-loaded l (account strategy set id (i, r) ns) (account-DistinctNames (i, r) ns d)
        ∙ loaded-account i r l ns d
