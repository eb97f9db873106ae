-- ===== src/Scheduler/Reservations.antt =====
-- The ledger across `pick` and `release`: who holds a reservation, and that a retry changes nothing.
use omni_infra_provider_prox.Base.{
  ℕ, String, ◌≡◌, ◌≢◌, ◌∙◌, refl, sym, ap, true, false, Option, none, some, List, [], ◌∷◌, ◌=ₜ◌,
  if◌then◌else◌, Memᴰ, arith, eq_iff, lookup, delete, put, lookup-put, delete-delete, Bool-cases,
  inl, inr,
}
use omni_infra_provider_prox.Sorting.{Comparison, SortFunc, IsSort, IsWeakOrder}
use omni_infra_provider_prox.Scheduler.{
  NodeStatus, Strategy, Reservation, Ledger, apply_reservation, has_node, account, account_all,
  is_stale, expire, reserve, pick, release, select_node,
}
use omni_infra_provider_prox.Scheduler.Order.{apply_reservation-KeepsName, has_node-update_named}
use omni_infra_provider_prox.Scheduler.Selection.{select_node_lem}

-- No key stands twice, as in a Go map.
abbrev pub DistinctKeys : Ledger → Type 0
DistinctKeys [] = Unit {0}
DistinctKeys ((id, r) ∷ l) = (lookup id l ≡ none) × DistinctKeys l

-- What expiry leaves of an entry.
abbrev pub keep_live :
    (now ttl : ℕ) (materialized : List String) → String → Option Reservation → Option Reservation
keep_live now ttl done id none = none
keep_live now ttl done id (some r) = if is_stale now ttl done (id, r) then none else some r

module _ (now ttl : ℕ) (done : List String) where
  -- Expiry drops the stale entries, and no others.
  pub lookup-expire :
      (j : String) (l : Ledger)
      → DistinctKeys l
      → lookup j (expire now ttl done l) ≡ keep_live now ttl done j (lookup j l)
  unfolding lookup expire is_stale
  lookup-expire j [] d = refl
  lookup-expire j ((id, r) ∷ l) d =
      ground (arith, lookup-expire j l d.1, eq_iff id j, d.0, ap (λ z. lookup z l) {x = id} {y = j})

  expire-delete :
      (id : String) (l : Ledger)
      → expire now ttl done (delete id l) ≡ delete id (expire now ttl done l)
  unfolding delete expire is_stale
  expire-delete id [] = refl
  expire-delete id ((j, r) ∷ l) = ground (arith, expire-delete id l)

delete-miss :
    (id j : String) (r : Reservation) (l : Ledger)
    → (j =ₜ id) ≡ false
    → delete id ((j, r) ∷ l) ≡ (j, r) ∷ delete id l
unfolding delete
delete-miss id j r l h = rw h

module _ {F : Type 0} (strategy : Strategy) (set id : String) where
  account_all-delete :
      (l : Ledger) (ns : List (NodeStatus F))
      → account_all strategy set id (delete id l) ns ≡ account_all strategy set id l ns
  unfolding account_all account delete
  account_all-delete [] ns = refl
  account_all-delete ((j, r) ∷ l) ns = elim (Bool-cases (j =ₜ id)) [
    | inl own ↦ rw (own, account, account_all, delete) (account_all-delete l ns)
    | inr other ↦
        ap (λ m. account_all strategy set id m ns) (delete-miss id j r l other)
        ∙ account_all-delete l (account strategy set id (j, r) ns)
  ]

  has_node-account :
      (z : String) (e : String × Reservation) (ns : List (NodeStatus F))
      → has_node z (account strategy set id e ns) ≡ has_node z ns
  unfolding account
  has_node-account z (j, r) ns = ground (
    arith,
    has_node-update_named z r.node (λ n. apply_reservation strategy n r) ns
        (apply_reservation-KeepsName strategy r),
  )

  has_node-account_all :
      (z : String) (l : Ledger) (ns : List (NodeStatus F))
      → has_node z (account_all strategy set id l ns) ≡ has_node z ns
  unfolding account_all
  has_node-account_all z [] ns = refl
  has_node-account_all z (e ∷ l) ns =
      has_node-account_all z l (account strategy set id e ns) ∙ has_node-account z e ns

pub has_node_of_mem :
    {F : Type 0} (p : NodeStatus F) (ns : List (NodeStatus F))
    → Memᴰ p ns
    → has_node p.name ns ≡ true
unfolding has_node
has_node_of_mem p [] m = elim m [ ]
has_node_of_mem p (n ∷ ns) (Memᴰ.head e) = ground (arith, eq_iff n.name p.name, ap (λ q. q.name) e)
has_node_of_mem p (n ∷ ns) (Memᴰ.tail m) = ground (arith, has_node_of_mem p ns m)

has_node_head :
    {F : Type 0} (n : NodeStatus F) (ns : List (NodeStatus F)) → has_node n.name (n ∷ ns) ≡ true
unfolding has_node
has_node_head n ns = ground (arith, eq_iff n.name n.name)

not_empty : {F : Type 0} (z : String) (ns : List (NodeStatus F)) → has_node z ns ≡ true → ns ≢ []
unfolding has_node
not_empty z [] h = λ _. ground arith
not_empty z (n ∷ ns) h = λ e. cc

module _ {F : Type 0} (compare_memory : Comparison F) (sort : SortFunc (NodeStatus F)) where
  module _ (now ttl : ℕ) (l : Ledger) (set id : String) (memory : ℕ) (strategy : Strategy)
      (done : List String) where
    -- A retry picks as if the reservation of its first attempt had been released: the request's own
    -- entry counts neither for the pick nor in the ledger that it leaves.
    pub pick-release :
        (nodes : List (NodeStatus F))
        → pick compare_memory sort now ttl (release id l) nodes set id memory strategy done
          ≡ pick compare_memory sort now ttl l nodes set id memory strategy done
    unfolding pick release put
    pick-release nodes = rw (expire-delete now ttl done id l) (
        rw (account_all-delete strategy set id (expire now ttl done l) nodes) (
          recorded (
            select_node compare_memory sort strategy
              (account_all strategy set id (expire now ttl done l) nodes) memory)))
      where
        recorded :
            (o : Option (NodeStatus F))
            → reserve compare_memory sort set id memory now (delete id (expire now ttl done l)) o
              ≡ reserve compare_memory sort set id memory now (expire now ttl done l) o
        recorded none = refl
        recorded (some p) = ground (arith, delete-delete id (expire now ttl done l))

    abbrev reservation : NodeStatus F → Reservation
    reservation p = record { at = now; node = p.name; set = set; memory = memory }

    -- The picked node is one of the nodes, by its name, and the ledger that is left is known.
    pub pick-has_node :
        (w : IsWeakOrder compare_memory) (c : IsSort sort) (n : NodeStatus F)
        (ns : List (NodeStatus F))
        → (p : NodeStatus F) × (pick compare_memory sort now ttl l
              (n ∷ ns)
              set
              id
              memory
              strategy
              done
            ≡ some (p, put id (reservation p) (expire now ttl done l)))
          × (has_node p.name (n ∷ ns) ≡ true)
    unfolding pick
    pick-has_node w c n ns =
        let live = expire now ttl done l in
        let seen = account_all strategy set id live (n ∷ ns) in
        let full : has_node n.name seen ≡ true =
          has_node-account_all strategy set id n.name live (n ∷ ns) ∙ has_node_head n ns in
        let (p, picked, choice) =
          select_node_lem compare_memory sort w c strategy seen memory
            (not_empty n.name seen full) in
        (
          p,
          ap (reserve compare_memory sort set id memory now live) picked,
          sym (has_node-account_all strategy set id p.name live (n ∷ ns))
              ∙ has_node_of_mem p seen choice.0,
        )

    -- For a weak order on the free memory, a sort that meets its contract and a ledger with no key
    -- twice: with a node to choose from, `pick` returns one of the nodes, by its name, and leaves
    -- its reservation for the request beside the live reservations of the others.
    pub pick_lem :
        (w : IsWeakOrder compare_memory) (c : IsSort sort) (n : NodeStatus F)
        (ns : List (NodeStatus F))
        → DistinctKeys l
        → (p : NodeStatus F) × (l' : Ledger) × (pick compare_memory sort now ttl l
              (n ∷ ns)
              set
              id
              memory
              strategy
              done
            ≡ some (p, l'))
          × (has_node p.name (n ∷ ns) ≡ true)
          × ((j : String)
              → lookup j l' ≡ (
                  if id =ₜ j
                  then some (record { at = now; node = p.name; set = set; memory = memory })
                  else keep_live now ttl done j (lookup j l)))
    pick_lem w c n ns d =
        let (p, e, has) = pick-has_node w c n ns in
        (
          p,
          put id (reservation p) (expire now ttl done l),
          e,
          has,
          λ j. ground (
            arith,
            lookup-put id j (reservation p) (expire now ttl done l),
            lookup-expire now ttl done j l d,
          ),
        )
