-- ===== src/Provision/Pools.antt =====
-- Proxmox pools: `poolCreateDecision`, `findPoolInList`, `ensurePool` and `cleanupPool`. Log lines are
-- left out; the pool mutex makes each operation one step.
pub mod Cleanup
pub mod Ensuring
use omni_infra_provider_prox.Base.{
  String, ◌^^◌, Bool, true, false, not, ◌||◌, Option, none, some, List, [], ◌∷◌, ◌=ₜ◌,
  if◌then◌else◌, quoted,
}
use omni_infra_provider_prox.Errors.{Error, Result, ok, err, error_new, wrap}
use omni_infra_provider_prox.Api.{Client, Pool, PoolDetail, pools, pool, new_pool, pool_delete}
use omni_infra_provider_prox.Exec.{M, pure, fail, lift, attempt, map_error, call, ◌>>=◌, ◌>>◌}

abbrev pub pool_comment : String
pool_comment = "managed by omni-infra-provider-proxmox"

unfoldable pub pool_create_decision : (exists : Bool) (pool_id set : String) → Result Bool
pool_create_decision true pool_id set = ok false
pool_create_decision false pool_id set =
    if pool_id =ₜ set
    then ok true
    else err (
        error_new (
          "proxmox pool "
          ^^ (quoted pool_id
              ^^ " does not exist; create it in Proxmox or leave \"pool\" empty to use the machine request set id")))

-- The comment of the pool in the list; none stands for `exists = false`.
unfoldable pub listed_comment : String → List Pool → Option String
listed_comment id [] = none
listed_comment id (p ∷ ps) = if p.pool_id =ₜ id then some p.comment else listed_comment id ps

abbrev pub is_listed : Option String → Bool
is_listed none = false
is_listed (some comment) = true

abbrev pub no_members : PoolDetail → Bool
no_members d = elim d.members [ [] ↦ true | m ∷ ms ↦ false ]

module _ {S : Type 0} (client : Client S) where
  unfoldable pub find_pool_in_list : String → M S (Option String)
  find_pool_in_list id = do
    ps ← map_error (λ e. wrap "failed to list proxmox pools: " e "") (call client pools)
    pure (listed_comment id ps)

  unfoldable pub ensure_pool : (id set : String) → M S (Unit {0})
  ensure_pool id set = do
    found ← find_pool_in_list id
    create ← lift (pool_create_decision (is_listed found) id set)
    if not create then pure tt else call client (new_pool id pool_comment)

  -- The part behind the detail request: an error of the deletion is only logged.
  unfoldable pub delete_if_empty : String → Result PoolDetail → M S (Unit {0})
  delete_if_empty id (err e) = pure tt
  delete_if_empty id (ok detail) =
      if not (detail.comment =ₜ pool_comment) || not (no_members detail)
      then pure tt
      else do _ ← attempt (call client (pool_delete id)); pure tt

  unfoldable pub cleanup_listed : String → Result (Option String) → M S (Unit {0})
  cleanup_listed id (err e) = pure tt
  cleanup_listed id (ok none) = pure tt
  cleanup_listed id (ok (some comment)) =
      if not (comment =ₜ pool_comment)
      then pure tt
      else do detail ← attempt (call client (pool id)); delete_if_empty id detail

  unfoldable pub cleanup_pool : String → M S (Unit {0})
  cleanup_pool id = do found ← attempt (find_pool_in_list id); cleanup_listed id found
