-- ===== src/Provision/Pools/Ensuring.antt =====
-- `ensurePool`: which pool it creates.
use omni_infra_provider_prox.Base.{
  String, ◌≡◌, refl, Bool, true, false, not, [], ◌∷◌, ◌=ₜ◌, if◌then◌else◌, eq_iff, Bool-cases, inl,
  inr,
}
use omni_infra_provider_prox.Api.{Client, Request, pools, new_pool}
use omni_infra_provider_prox.Exec.{pure, lift, call, ◌>>=◌}
use omni_infra_provider_prox.Exec.Rules.{Sends, Sends-bind, Sends-pure, Sends-call, Sends-map_error}
use omni_infra_provider_prox.Provision.Pools.{
  pool_comment, pool_create_decision, is_listed, find_pool_in_list, ensure_pool,
}

-- The list of the pools, and the creation of the set's pool, marked as the provider's.
abbrev pub IsPoolRequest : (set : String) → Request → Type 0
IsPoolRequest set pools = Unit {0}
IsPoolRequest set (new_pool id comment) = (id ≡ set) × (comment ≡ pool_comment)
IsPoolRequest set _ = ⊥

module _ {S : Type 0} (client : Client S) (id set : String) where
  -- The part of the step behind the list.
  decided :
      (exists : Bool)
      → Sends (IsPoolRequest set) (
          lift {S = S} (pool_create_decision exists id set) >>= λ create.
          if not create then pure tt else call client (new_pool id pool_comment))
  unfolding pool_create_decision lift pure call ◌>>=◌
  decided true = record { at = λ w. ([], refl, tt) }
  decided false = elim (Bool-cases (id =ₜ set)) [
    | inl same ↦ rw same (record {
      at = λ w. (new_pool id pool_comment ∷ [], refl, (((eq_iff id set).0 same, refl), tt));
    })
    | inr other ↦ rw other (record { at = λ w. ([], refl, tt) })
  ]

  -- Whatever Proxmox answers, `ensurePool` only lists the pools and creates none but the pool named as the
  -- machine request set, with the comment that the cleanup looks for.
  pub ensure_pool-Sends : Sends (IsPoolRequest set) (ensure_pool client id set)
  unfolding ensure_pool find_pool_in_list
  ensure_pool-Sends =
      Sends-bind _ _
        (Sends-bind _ _ (Sends-map_error _ _ (Sends-call client pools tt)) (λ ps. Sends-pure _))
        (λ found. decided (is_listed found))
