-- ===== src/Scheduler/History.antt =====
-- The scheduler as an object: `newScheduler`, and any sequence of its operations. What it promises is said
-- on a map from requests to reservations, which knows nothing of how the ledger is kept.
use omni_infra_provider_prox.Base.{
  ℕ, String, ◌≡◌, ◌∙◌, refl, ap, true, Option, none, some, List, [], ◌∷◌, ◌=ₜ◌, if◌then◌else◌,
  arith, eq_iff, Bool-cases, inl, inr, lookup, delete, put, lookup-delete, lookup-put,
}
use omni_infra_provider_prox.Sorting.{Comparison, SortFunc, IsSort, IsWeakOrder}
use omni_infra_provider_prox.Scheduler.{
  NodeStatus, Strategy, Reservation, Ledger, has_node, expire, is_stale, pick, release,
  reservation_ttl,
}
use omni_infra_provider_prox.Scheduler.Reservations.{
  DistinctKeys, keep_live, lookup-expire, pick-has_node,
}

pub record SchedulerState : Type 0 where
  pub reservations : Ledger
  pub ttl : ℕ

abbrev pub new_scheduler : SchedulerState
new_scheduler = record { reservations = []; ttl = reservation_ttl }

-- A call of `pick` at an instant, for which the callers make sure that there is a first node, or of
-- `release`.
pub data Operation (F : Type 0) : Type 0 where
  picks :
      (now : ℕ) (first : NodeStatus F) (rest : List (NodeStatus F)) (set request_id : String)
      (memory : ℕ) (strategy : Strategy) (materialized : List String)
      → Operation F
  releases : String → Operation F

module _ {F : Type 0} where
  abbrev ledger_after : Ledger → Option (NodeStatus F × Ledger) → Ledger
  ledger_after l none = l
  ledger_after l (some (picked, l')) = l'

  module _ (compare_memory : Comparison F) (sort : SortFunc (NodeStatus F)) where
    abbrev changed : Operation F → SchedulerState → Ledger
    changed (picks now first rest set id memory strategy done) s =
        ledger_after (expire now s.ttl done s.reservations) (
          pick compare_memory sort now s.ttl s.reservations (first ∷ rest) set id memory strategy
            done)
    changed (releases id) s = release id s.reservations

    abbrev pub operate : Operation F → SchedulerState → SchedulerState
    operate op s = record s { reservations = changed op s }

    -- The operations in turn.
    abbrev pub operate_all : List (Operation F) → SchedulerState → SchedulerState
    operate_all [] s = s
    operate_all (op ∷ ops) s = operate_all ops (operate op s)

-- The view of a client: which request holds which reservation.
abbrev pub Holdings : Type 0
Holdings = String → Option Reservation

-- What an operation promises: a pick gives the request one reservation, for the instant, the set and the
-- memory asked for, on one of the nodes, and every other request keeps its own unless that is stale; a
-- release takes the reservation of the request and no other.
pub data Transition {F : Type 0} (ttl : ℕ) (before after : Holdings) : Operation F → Type 0 where
  placed :
      (now : ℕ) (first : NodeStatus F) (rest : List (NodeStatus F)) (set id : String) (memory : ℕ)
      (strategy : Strategy) (done : List String) (node : String)
      → has_node node (first ∷ rest) ≡ true
      → ((j : String)
          → after j ≡ (
              if id =ₜ j
              then some (record { at = now; node = node; set = set; memory = memory })
              else keep_live now ttl done j (before j)))
      → Transition ttl before after (picks now first rest set id memory strategy done)
  freed :
      (id : String)
      → ((j : String) → after j ≡ (if id =ₜ j then none else before j))
      → Transition ttl before after (releases id)

-- A run of the specification.
pub data Trace {F : Type 0} (ttl : ℕ) : Holdings → List (Operation F) → Holdings → Type 0 where
  stop : {before after : Holdings} → ((j : String) → after j ≡ before j) → Trace ttl before [] after
  next :
      {op : Operation F} {ops : List (Operation F)} {before middle after : Holdings}
      → Transition ttl before middle op
      → Trace ttl middle ops after
      → Trace ttl before (op ∷ ops) after

abbrev pub holdings : SchedulerState → Holdings
holdings s j = lookup j s.reservations

delete-DistinctKeys : (k : String) (l : Ledger) → DistinctKeys l → DistinctKeys (delete k l)
unfolding delete
delete-DistinctKeys k [] d = tt
delete-DistinctKeys k ((id, r) ∷ l) d =
    ground (arith, delete-DistinctKeys k l d.1, lookup-delete k id l, d.0)

expire-DistinctKeys :
    (now ttl : ℕ) (done : List String) (l : Ledger)
    → DistinctKeys l
    → DistinctKeys (expire now ttl done l)
unfolding expire
expire-DistinctKeys now ttl done [] d = tt
expire-DistinctKeys now ttl done ((id, r) ∷ l) d =
    let rest = expire-DistinctKeys now ttl done l d.1 in
    let missing : lookup id (expire now ttl done l) ≡ none =
      lookup-expire now ttl done id l d.1 ∙ ap (keep_live now ttl done id) d.0 in
    elim (Bool-cases (is_stale now ttl done (id, r))) [
      | inl stale ↦ rw stale rest
      | inr live ↦ rw live (missing, rest)
    ]

put-DistinctKeys :
    (k : String) (r : Reservation) (l : Ledger) → DistinctKeys l → DistinctKeys (put k r l)
unfolding put
put-DistinctKeys k r l d =
    (ground (arith, lookup-delete k k l, eq_iff k k), delete-DistinctKeys k l d)

module _ {F : Type 0} (compare_memory : Comparison F) (sort : SortFunc (NodeStatus F))
    (w : IsWeakOrder compare_memory) (c : IsSort sort) where
  -- What one operation does, seen on the holdings; no key stands twice behind it.
  operate_lem :
      (op : Operation F) (s : SchedulerState)
      → DistinctKeys s.reservations
      → Transition s.ttl (holdings s) (holdings (operate compare_memory sort op s)) op
        × DistinctKeys (operate compare_memory sort op s).reservations
  unfolding release
  operate_lem (releases id) s d =
      (freed id (λ j. lookup-delete id j s.reservations), delete-DistinctKeys id s.reservations d)
  operate_lem (picks now first rest set id memory strategy done) s d =
      let (p, e, has) =
        pick-has_node compare_memory sort now s.ttl s.reservations set id memory strategy done w c
          first rest in
      let r : Reservation = record { at = now; node = p.name; set = set; memory = memory } in
      let live = expire now s.ttl done s.reservations in
      rw e (
        placed now first rest set id memory strategy done p.name has (λ j.
            ground
              (arith, lookup-put id j r live, lookup-expire now s.ttl done j s.reservations d)),
        put-DistinctKeys id r live (expire-DistinctKeys now s.ttl done s.reservations d),
      )

  operate_all-Trace :
      (ops : List (Operation F)) (s : SchedulerState)
      → DistinctKeys s.reservations
      → Trace s.ttl (holdings s) ops (holdings (operate_all compare_memory sort ops s))
  operate_all-Trace [] s d = stop (λ j. refl)
  operate_all-Trace (op ∷ ops) s d =
      let (moved, kept) = operate_lem op s d in
      next moved (operate_all-Trace ops (operate compare_memory sort op s) kept)

  -- For a weak order on the free memory and a sort that meets its contract: any sequence of calls of
  -- `pick` and `release` on a new scheduler is a run of the specification, which is a map from
  -- requests to reservations. A pick gives the request one reservation on one of the nodes and lets
  -- every other request keep its own unless that is stale, and a release takes the reservation of the
  -- request and no other.
  pub new_scheduler-Trace :
      (ops : List (Operation F))
      → Trace reservation_ttl
          (λ _. none)
          ops
          (holdings (operate_all compare_memory sort ops new_scheduler))
  unfolding lookup
  new_scheduler-Trace ops = operate_all-Trace ops new_scheduler tt
