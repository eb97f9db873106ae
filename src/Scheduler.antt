-- ===== src/Scheduler.antt =====
-- internal/pkg/provider/scheduler.go, and `nodeStatus` and `pickNode` of provision.go. The mutex makes
-- each operation one step, so an operation is a function of the ledger. `float64` is a parameter, with
-- `cmp.Compare` on it; instants are nanoseconds. Counts of machines stay natural numbers: they are
-- bounded by what was listed, far below 2 ^ 63.
pub mod Selection
pub mod Order
pub mod Reservations
pub mod Load
pub mod Balance
pub mod History
pub mod Wave
mod Tests
use Prim.Native.Nat.{compare, Ordering}
use Prim.Native.String.{compare as compare_text}
use omni_infra_provider_prox.Base.{
  ℕ, ◌+◌, ◌-◌, ◌^◌, min, String, ◌^^◌, Bool, true, false, not, ◌||◌, Option, none, some, List, [],
  ◌∷◌, ltb, leb, ◌=ₜ◌, if◌then◌else◌, contains, Map, delete, put, quoted,
}
use omni_infra_provider_prox.Errors.{Result, ok, err, error_new}
use omni_infra_provider_prox.Sorting.{Comparison, SortFunc, negate, then_by}
use omni_infra_provider_prox.Sorting.Orders.{first_of_slice}

pub data Strategy : Type 0 where
  spread fewer_vms round_robin binpack : Strategy

unfoldable pub parse_strategy : String → Result Strategy
unfolding quoted
parse_strategy s =
    if s =ₜ "" || s =ₜ "spread"
    then ok spread
    else if s =ₜ "fewer-vms"
    then ok fewer_vms
    else if s =ₜ "round-robin"
    then ok round_robin
    else if s =ₜ "binpack"
    then ok binpack
    else err (error_new ("unknown placement strategy " ^^ quoted s))

pub record Reservation : Type 0 where
  pub at : ℕ
  pub node : String
  pub set : String
  pub memory : ℕ

pub record NodeStatus (F : Type 0) : Type 0 where
  pub name : String
  pub memory_free : F
  pub free_mem : ℕ
  pub same_set_vms : ℕ
  pub total_vms : ℕ

abbrev pub Ledger : Type 0
Ledger = Map Reservation

-- `time.Time.Sub` stops at the largest duration.
abbrev pub elapsed : ℕ → ℕ → ℕ
elapsed now at = min (now - at) (2 ^ 63 - 1)

-- `reservationTTL`, an hour
abbrev pub reservation_ttl : ℕ
reservation_ttl = 3600000000000

-- The test of the first loop of `pick`: the machine is there, or the reservation is too old.
unfoldable pub is_stale : (now ttl : ℕ) (materialized : List String) → String × Reservation → Bool
is_stale now ttl materialized (id, r) = contains materialized id || ltb ttl (elapsed now r.at)

-- What that loop leaves of the ledger.
unfoldable pub expire : (now ttl : ℕ) (materialized : List String) → Ledger → Ledger
unfolding is_stale
expire now ttl materialized [] = []
expire now ttl materialized (entry ∷ ledger) =
    let rest = expire now ttl materialized ledger in
    if is_stale now ttl materialized entry then rest else entry ∷ rest

module _ {F : Type 0} where
  unfoldable pub apply_reservation : Strategy → NodeStatus F → Reservation → NodeStatus F
  apply_reservation fewer_vms ns r = record ns { total_vms = ns.total_vms + 1 }
  apply_reservation binpack ns r =
      if leb r.memory ns.free_mem
      then record ns { free_mem = ns.free_mem - r.memory }
      else record ns { free_mem = 0 }
  apply_reservation spread ns r = record ns { same_set_vms = ns.same_set_vms + 1 }
  apply_reservation round_robin ns r = record ns { same_set_vms = ns.same_set_vms + 1 }

  unfoldable pub has_node : String → List (NodeStatus F) → Bool
  has_node name [] = false
  has_node name (n ∷ ns) = n.name =ₜ name || has_node name ns

  -- `byName[name]` points at the last node of that name, and the call writes through the pointer.
  unfoldable pub update_named :
      String → (NodeStatus F → NodeStatus F) → List (NodeStatus F) → List (NodeStatus F)
  unfolding has_node
  update_named name f [] = []
  update_named name f (n ∷ ns) =
      let rest = update_named name f ns in
      if has_node name ns then n ∷ rest else if n.name =ₜ name then f n ∷ ns else n ∷ ns

  -- The body of the second loop of `pick`.
  unfoldable pub account :
      Strategy
      → (set request_id : String) → String × Reservation
      → List (NodeStatus F)
      → List (NodeStatus F)
  unfolding update_named apply_reservation
  account strategy set request_id (id, r) nodes =
      if id =ₜ request_id || not (r.set =ₜ set)
      then nodes
      else update_named r.node (λ ns. apply_reservation strategy ns r) nodes

  unfoldable pub account_all :
      Strategy → (set request_id : String) → Ledger → List (NodeStatus F) → List (NodeStatus F)
  unfolding account
  account_all strategy set request_id [] nodes = nodes
  account_all strategy set request_id (entry ∷ ledger) nodes =
      account_all strategy set request_id ledger (account strategy set request_id entry nodes)

  module _ (compare_memory : Comparison F) where
    unfoldable pub compare_spread : Comparison (NodeStatus F)
    compare_spread a b =
        then_by (compare a.same_set_vms b.same_set_vms)
          (negate (compare_memory a.memory_free b.memory_free))

    unfoldable pub compare_fewer_vms : Comparison (NodeStatus F)
    compare_fewer_vms a b =
        then_by (compare a.total_vms b.total_vms)
          (negate (compare_memory a.memory_free b.memory_free))

  unfoldable pub compare_round_robin : Comparison (NodeStatus F)
  compare_round_robin a b =
      then_by (compare a.same_set_vms b.same_set_vms) (compare_text a.name b.name)

  unfoldable pub compare_binpack : ℕ → Comparison (NodeStatus F)
  compare_binpack memory a b =
      let a_fits = leb memory a.free_mem in
      let b_fits = leb memory b.free_mem in
      if a_fits
      then (if b_fits then compare a.free_mem b.free_mem else Ordering.lt)
      else if b_fits
      then Ordering.gt
      else negate (compare a.free_mem b.free_mem)

  module _ (compare_memory : Comparison F) (sort : SortFunc (NodeStatus F)) where
    -- none is the panic of `nodes[0]` on an empty slice
    unfoldable pub pick_node : List (NodeStatus F) → Option (NodeStatus F)
    pick_node nodes = first_of_slice (sort (compare_spread compare_memory) nodes)

    unfoldable pub pick_binpack : ℕ → List (NodeStatus F) → Option (NodeStatus F)
    pick_binpack memory nodes = first_of_slice (sort (compare_binpack memory) nodes)

    unfoldable pub select_node : Strategy → List (NodeStatus F) → ℕ → Option (NodeStatus F)
    unfolding pick_node pick_binpack
    select_node fewer_vms nodes memory =
        first_of_slice (sort (compare_fewer_vms compare_memory) nodes)
    select_node round_robin nodes memory = first_of_slice (sort compare_round_robin nodes)
    select_node binpack nodes memory = pick_binpack memory nodes
    select_node spread nodes memory = pick_node nodes

    reserve :
        (set request_id : String) (memory now : ℕ)
        → Ledger
        → Option (NodeStatus F)
        → Option (NodeStatus F × Ledger)
    reserve set request_id memory now ledger none = none
    reserve set request_id memory now ledger (some picked) = some (
      picked,
      put request_id (record { at = now; node = picked.name; set = set; memory = memory }) ledger,
    )

    unfoldable pub pick :
        (now ttl : ℕ)
        → Ledger
        → List (NodeStatus F)
        → (set request_id : String) (memory : ℕ) → Strategy
        → (materialized : List String) → Option (NodeStatus F × Ledger)
    unfolding reserve
    pick now ttl ledger nodes set request_id memory strategy materialized =
        let live = expire now ttl materialized ledger in
        reserve set request_id memory now live
          (select_node strategy (account_all strategy set request_id live nodes) memory)

unfoldable pub release : String → Ledger → Ledger
release request_id ledger = delete request_id ledger
