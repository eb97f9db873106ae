-- ===== src/Scheduler/Order.antt =====
-- The ledger is a Go map, so `pick` meets the reservations in any order. What it accounts on the nodes
-- does not depend on that order.
use omni_infra_provider_prox.Base.{
  ℕ, String, ◌≡◌, ◌∙◌, refl, ap, subst, List, [], ◌∷◌, Permᴰ, Bool, true, false, arith, eq_iff,
  if◌then◌else◌, Bool-cases, inl, inr, ◌⊎◌, Option, none, some, put, delete-perm,
}
use mathlib.Core.List.Permᴰ
use omni_infra_provider_prox.Sorting.{Comparison, SortFunc}
use omni_infra_provider_prox.Scheduler.{
  NodeStatus, Strategy, Reservation, Ledger, apply_reservation, has_node, update_named, account,
  account_all, is_stale, expire, pick, select_node, reserve,
}

module _ {F : Type 0} where
  abbrev pub KeepsName : (NodeStatus F → NodeStatus F) → Type 0
  KeepsName f = (n : NodeStatus F) → (f n).name ≡ n.name

  pub has_node-update_named :
      (z x : String) (f : NodeStatus F → NodeStatus F) (ns : List (NodeStatus F))
      → KeepsName f
      → has_node z (update_named x f ns) ≡ has_node z ns
  unfolding has_node update_named
  has_node-update_named z x f [] k = refl
  has_node-update_named z x f (n ∷ ns) k = ground (arith, k n, has_node-update_named z x f ns k)

  update_named_comm :
      (x y : String) (f g : NodeStatus F → NodeStatus F)
      → KeepsName f
      → KeepsName g
      → ((n : NodeStatus F) → f (g n) ≡ g (f n))
      → (ns : List (NodeStatus F))
      → update_named x f (update_named y g ns) ≡ update_named y g (update_named x f ns)
  unfolding update_named
  update_named_comm x y f g kf kg c [] = refl
  update_named_comm x y f g kf kg c (n ∷ ns) = ground (
    arith,
    c n,
    kf n,
    kg n,
    kf (g n),
    kg (f n),
    has_node-update_named x y g ns kg,
    has_node-update_named y x f ns kf,
    update_named_comm x y f g kf kg c ns,
    eq_iff n.name x,
    eq_iff n.name y,
  )

  pub apply_reservation-KeepsName :
      (strategy : Strategy) (r : Reservation) → KeepsName (λ n. apply_reservation strategy n r)
  unfolding apply_reservation
  apply_reservation-KeepsName strategy r n = ground arith

  apply_reservation_comm :
      (strategy : Strategy) (r q : Reservation) (n : NodeStatus F)
      → apply_reservation strategy (apply_reservation strategy n q) r
        ≡ apply_reservation strategy (apply_reservation strategy n r) q
  unfolding apply_reservation
  apply_reservation_comm strategy r q n = ground arith

  module _ (strategy : Strategy) (set request_id : String) where
    account_comm :
        (e e' : String × Reservation) (ns : List (NodeStatus F))
        → account strategy set request_id e (account strategy set request_id e' ns)
          ≡ account strategy set request_id e' (account strategy set request_id e ns)
    unfolding account
    account_comm (i, r) (j, q) ns = ground (
      arith,
      update_named_comm r.node q.node (λ n. apply_reservation strategy n r)
          (λ n. apply_reservation strategy n q) (apply_reservation-KeepsName strategy r)
          (apply_reservation-KeepsName strategy q) (apply_reservation_comm strategy r q) ns,
    )

    -- Two orders of one ledger are accounted alike.
    pub account_all-perm :
        {l m : Ledger}
        → Permᴰ l m
        → (ns : List (NodeStatus F))
        → account_all strategy set request_id l ns ≡ account_all strategy set request_id m ns
    unfolding account_all
    account_all-perm Permᴰ.nil ns = refl
    account_all-perm (Permᴰ.cons {b = b} {l₁ = l} e d) ns =
        ap (λ a. account_all strategy set request_id l (account strategy set request_id a ns)) e
        ∙ account_all-perm d (account strategy set request_id b ns)
    account_all-perm (Permᴰ.swap {a = a} {b = b} {l = l} e e') ns = cc (e, e', account_comm b a ns)
    account_all-perm (Permᴰ.trans d d') ns = account_all-perm d ns ∙ account_all-perm d' ns

module _ (now ttl : ℕ) (done : List String) where
  expire-swap :
      (a b : String × Reservation) (l : Ledger)
      → Permᴰ (expire now ttl done (a ∷ b ∷ l)) (expire now ttl done (b ∷ a ∷ l))
  unfolding expire
  expire-swap a b l =
      split (is_stale now ttl done a) (is_stale now ttl done b) (expire now ttl done l)
    where
      split :
          (p q : Bool) (m : Ledger)
          → Permᴰ
              (if p then (if q then m else b ∷ m) else a ∷ (if q then m else b ∷ m))
              (if q then (if p then m else a ∷ m) else b ∷ (if p then m else a ∷ m))
      split true true m = Permᴰ.refl m
      split true false m = Permᴰ.refl (b ∷ m)
      split false true m = Permᴰ.refl (a ∷ m)
      split false false m = Permᴰ.swap refl refl

  -- Expiry of two orders of one ledger leaves two orders of one ledger.
  expire-perm : {l m : Ledger} → Permᴰ l m → Permᴰ (expire now ttl done l) (expire now ttl done m)
  unfolding expire
  expire-perm Permᴰ.nil = Permᴰ.nil
  expire-perm (Permᴰ.cons {a = a} {b = b} {l₁ = l} {l₂ = m} e d) =
      subst (λ c. Permᴰ (expire now ttl done (a ∷ l)) (expire now ttl done (c ∷ m))) e
        (elim (Bool-cases (is_stale now ttl done a)) [
          | inl stale ↦ rw (stale, expire) (expire-perm d)
          | inr live ↦ rw (live, expire) (Permᴰ.cons refl (expire-perm d))
        ])
  expire-perm (Permᴰ.swap {a = a} {b = b} {a' = a'} {b' = b'} {l = l} e e') =
      subst (λ c. Permᴰ (expire now ttl done (a ∷ b ∷ l)) (expire now ttl done (c ∷ b' ∷ l))) e'
        (subst (λ c. Permᴰ (expire now ttl done (a ∷ b ∷ l)) (expire now ttl done (b ∷ c ∷ l))) e
          (expire-swap a b l))
  expire-perm (Permᴰ.trans d d') = Permᴰ.trans (expire-perm d) (expire-perm d')

module _ {F : Type 0} (compare_memory : Comparison F) (sort : SortFunc (NodeStatus F)) where
  -- The picks from two orders of one ledger: both panic, or both pick the same node and leave two
  -- orders of one ledger.
  abbrev pub SamePick : Option (NodeStatus F × Ledger) → Option (NodeStatus F × Ledger) → Type 0
  SamePick p q =
      ((p ≡ none) × (q ≡ none))
      ⊎ ((n : NodeStatus F) × (l : Ledger) × (m : Ledger) × (p ≡ some (n, l))
          × (q ≡ some (n, m))
          × Permᴰ l m)

  -- `pick` picks the same node in whichever order it meets the entries of the ledger, and the ledgers
  -- that it leaves are two orders of one ledger.
  pub pick-perm :
      (now ttl : ℕ) {l m : Ledger} (nodes : List (NodeStatus F)) (set request_id : String)
      (memory : ℕ) (strategy : Strategy) (materialized : List String)
      → Permᴰ l m
      → SamePick
          (pick compare_memory sort now ttl l nodes set request_id memory strategy materialized)
          (pick compare_memory sort now ttl m nodes set request_id memory strategy materialized)
  unfolding pick put
  pick-perm now ttl {l} {m} nodes set request_id memory strategy done d =
      let d' = expire-perm now ttl done d in
      rw (account_all-perm strategy set request_id d' nodes) (
        reserved
          (select_node compare_memory sort strategy
            (account_all strategy set request_id (expire now ttl done m) nodes) memory)
          d')
    where
      reserved :
          (o : Option (NodeStatus F)) {x y : Ledger}
          → Permᴰ x y
          → SamePick
              (reserve compare_memory sort set request_id memory now x o)
              (reserve compare_memory sort set request_id memory now y o)
      reserved none p = inl (refl, refl)
      reserved (some n) {x} {y} p =
          inr (n, _, _, refl, refl, Permᴰ.cons refl (delete-perm request_id p))
