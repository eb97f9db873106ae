-- ===== src/Scheduler/Wave.antt =====
-- A wave of picks: many machines of one set that come up at once, none of them listed yet.
use omni_infra_provider_prox.Base.{
  ℕ, ◌+◌, ◌≤◌, String, ◌≡◌, ◌∙◌, refl, sym, ap, subst, false, none, List, [], ◌∷◌, ◌=ₜ◌, All, arith,
  lookup, delete, put, delete_missing,
}
use omni_infra_provider_prox.Sorting.{Comparison, SortFunc, IsSort, IsWeakOrder}
use omni_infra_provider_prox.Scheduler.{NodeStatus, Strategy, Reservation, Ledger, expire, is_stale}
use omni_infra_provider_prox.Scheduler.Reservations.{pick-has_node}
use omni_infra_provider_prox.Scheduler.Balance.{pick-IsBalanced}
use omni_infra_provider_prox.Scheduler.Load.{Spreads, DistinctNames, IsBalanced}
use omni_infra_provider_prox.Scheduler.History.{
  SchedulerState, new_scheduler, Operation, picks, operate, operate_all,
}

-- A machine that is to be placed: when it asks, its request, and its memory.
pub record Demand : Type 0 where
  pub now : ℕ
  pub id : String
  pub memory : ℕ

abbrev pub DistinctIds : List Demand → Type 0
DistinctIds [] = Unit {0}
DistinctIds (d ∷ ds) = All (λ e. (d.id =ₜ e.id) ≡ false) ds × DistinctIds ds

-- The demands come while no reservation of the wave is too old.
abbrev pub IsWithin : (start ttl : ℕ) → List Demand → Type 0
IsWithin start ttl ds = All (λ d. (start ≤ d.now) × (d.now ≤ start + ttl)) ds

-- No reservation is from before the wave.
abbrev IsRecent : (start : ℕ) → Ledger → Type 0
IsRecent start l = All (λ e. start ≤ e.1.at) l

expire-IsRecent :
    (start now ttl : ℕ) (l : Ledger)
    → IsRecent start l
    → now ≤ start + ttl
    → expire now ttl [] l ≡ l
unfolding expire is_stale
expire-IsRecent start now ttl [] h k = refl
expire-IsRecent start now ttl ((id, r) ∷ l) h k =
    ground (arith, expire-IsRecent start now ttl l h.1 k)

absent_before :
    (id : String) (r : Reservation) (l : Ledger) (ds : List Demand)
    → All (λ e. (id =ₜ e.id) ≡ false) ds
    → All (λ e. lookup e.id l ≡ none) ds
    → All (λ e. lookup e.id ((id, r) ∷ l) ≡ none) ds
unfolding lookup
absent_before id r l [] h k = tt
absent_before id r l (d ∷ ds) h k = (rw h.0 k.0, absent_before id r l ds h.1 k.1)

module _ {F : Type 0} (first : NodeStatus F) (rest : List (NodeStatus F)) (set : String)
    (strategy : Strategy) where
  abbrev pub wave : List Demand → List (Operation F)
  wave [] = []
  wave (d ∷ ds) = picks d.now first rest set d.id d.memory strategy [] ∷ wave ds

  module _ (compare_memory : Comparison F) (sort : SortFunc (NodeStatus F))
      (w : IsWeakOrder compare_memory) (c : IsSort sort) (start ttl : ℕ) (s : Spreads strategy)
      (names : DistinctNames (first ∷ rest)) where
    abbrev with_ledger : Ledger → SchedulerState
    with_ledger l = record { reservations = l; ttl = ttl }

    -- One demand of the wave.
    demand_lem :
        (d : Demand) (l : Ledger)
        → IsRecent start l
        → d.now ≤ start + ttl
        → lookup d.id l ≡ none
        → IsBalanced set (first ∷ rest) l
        → (node : String) × (operate compare_memory sort
              (picks d.now first rest set d.id d.memory strategy [])
              (with_ledger l)
            ≡ with_ledger
                ((d.id, record { at = d.now; node = node; set = set; memory = d.memory }) ∷ l))
          × IsBalanced set
              (first ∷ rest)
              ((d.id, record { at = d.now; node = node; set = set; memory = d.memory }) ∷ l)
    unfolding put
    demand_lem d l recent within absent b =
        let live = expire-IsRecent start d.now ttl l recent within in
        let (p, e, has) =
          pick-has_node compare_memory sort d.now ttl l set d.id d.memory strategy [] w c first
            rest in
        let r : Reservation = record { at = d.now; node = p.name; set = set; memory = d.memory } in
        let same : delete d.id (expire d.now ttl [] l) ≡ l =
          ap (delete d.id) live ∙ delete_missing d.id l absent in
        let balanced =
          pick-IsBalanced compare_memory sort w c d.now ttl l (first ∷ rest) set d.id d.memory
            strategy [] p (put d.id r (expire d.now ttl [] l)) s names
            (subst (λ k. IsBalanced set (first ∷ rest) k) (sym same) b) e in
        (
          p.name,
          rw e (ap (λ k. with_ledger ((d.id, r) ∷ k)) same),
          subst (λ k. IsBalanced set (first ∷ rest) ((d.id, r) ∷ k)) same balanced,
        )

    wave_lem :
        (ds : List Demand) (l : Ledger)
        → IsRecent start l
        → DistinctIds ds
        → IsWithin start ttl ds
        → All (λ e. lookup e.id l ≡ none) ds
        → IsBalanced set (first ∷ rest) l
        → IsBalanced set
            (first ∷ rest)
            (operate_all compare_memory sort (wave ds) (with_ledger l)).reservations
    wave_lem [] l recent distinct within absent b = b
    wave_lem (d ∷ ds) l recent distinct within absent b =
        let (node, e, balanced) = demand_lem d l recent within.0.1 absent.0 b in
        let r : Reservation = record { at = d.now; node = node; set = set; memory = d.memory } in
        subst
          (λ t.
            IsBalanced set (first ∷ rest)
              (operate_all compare_memory sort (wave ds) t).reservations)
          (sym e)
          (wave_lem ds ((d.id, r) ∷ l) (within.0.0, recent) distinct.1 within.1
            (absent_before d.id r l ds distinct.0 absent.1) balanced)

  -- For a weak order on the free memory, a sort that meets its contract, a strategy that spreads and
  -- nodes with distinct names: if the machines seen of a set are spread over the nodes with a
  -- difference of one at most, and any number of distinct requests of the set ask a new scheduler one
  -- after the other, within the time for which a reservation lives and before any of the machines is
  -- listed, the machines seen and reserved are spread with a difference of one at most in the end.
  pub wave-IsBalanced :
      (compare_memory : Comparison F) (sort : SortFunc (NodeStatus F))
      (w : IsWeakOrder compare_memory) (c : IsSort sort) (start : ℕ) (ds : List Demand)
      → Spreads strategy
      → DistinctNames (first ∷ rest)
      → IsBalanced set (first ∷ rest) []
      → DistinctIds ds
      → IsWithin start new_scheduler.ttl ds
      → IsBalanced set
          (first ∷ rest)
          (operate_all compare_memory sort (wave ds) new_scheduler).reservations
  unfolding lookup
  wave-IsBalanced compare_memory sort w c start ds s names b distinct within =
      wave_lem compare_memory sort w c start new_scheduler.ttl s names ds [] tt distinct within
        (none_held ds) b
    where
      none_held : (ds : List Demand) → All (λ e. lookup {V = Reservation} e.id [] ≡ none) ds
      none_held [] = tt
      none_held (d ∷ ds) = (refl, none_held ds)
