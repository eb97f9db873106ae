-- ===== src/Provision/Pools/Cleanup.antt =====
-- `cleanupPool` and `ensurePool` against what Proxmox answers.
use omni_infra_provider_prox.Base.{
  String, ◌≡◌, ◌∙◌, refl, sym, ap, true, false, none, some, List, [], ◌∷◌, ◌⊎◌, inl, inr, arith,
  ◌=ₜ◌, Bool-cases, Option-cases, subst, eq_iff,
}
use omni_infra_provider_prox.Errors.{Error, Result, ok, err, Result-cases}
use omni_infra_provider_prox.Api.{Client, Pool, PoolDetail, pools, pool, pool_delete}
use omni_infra_provider_prox.Exec.{World, call, ◌>>=◌}
use omni_infra_provider_prox.Provision.Pools.{
  pool_comment, listed_comment, no_members, find_pool_in_list, delete_if_empty, cleanup_listed,
  cleanup_pool,
}

module _ {S : Type 0} (client : Client S) (id : String) where
  -- The server state behind the list request.
  abbrev pub after_list : World S → S
  after_list w = (client pools w.server).1

  -- Proxmox answers that the provider made the pool, in the list and in its detail, and that nothing
  -- is in it.
  pub record IsOwnAndEmpty (w : World S) : Type 0 where
    pub all : List Pool
    pub listed : (client pools w.server).0 ≡ ok all
    pub own : listed_comment id all ≡ some pool_comment
    pub detail : PoolDetail
    pub loaded : (client (pool id) (after_list w)).0 ≡ ok detail
    pub still_own : detail.comment ≡ pool_comment
    pub empty : detail.members ≡ []

  no_members_lem : (d : PoolDetail) → no_members d ≡ true → d.members ≡ []
  no_members_lem d h = elim_members d.members h
    where
      elim_members : (l : List String) → elim l [ [] ↦ true | m ∷ ms ↦ false ] ≡ true → l ≡ []
      elim_members [] h = refl
      elim_members (m ∷ ms) h = absurd (ground arith)

  abbrev listing : World S → World S
  listing w = record w { server = after_list w; log = pools ∷ w.log }

  abbrev loading : World S → World S
  loading w = record w {
    server = (client (pool id) (after_list w)).1;
    log = pool id ∷ pools ∷ w.log;
  }

  abbrev deleting : World S → World S
  deleting w = record w {
    server = (client (pool_delete id) (loading w).server).1;
    log = pool_delete id ∷ pool id ∷ pools ∷ w.log;
  }

  module _ (w : World S) where
    unlisted :
        (e : Error)
        → (client pools w.server).0 ≡ err e
        → cleanup_pool client id w ≡ (ok tt, listing w)
    unfolding cleanup_pool cleanup_listed find_pool_in_list ◌>>=◌ call
    unlisted e h = ground (arith, h)

    module _ (all : List Pool) (h : (client pools w.server).0 ≡ ok all) where
      missing : listed_comment id all ≡ none → cleanup_pool client id w ≡ (ok tt, listing w)
      unfolding cleanup_pool cleanup_listed find_pool_in_list ◌>>=◌ call
      missing k = ground (arith, h, k)

      foreign :
          (c : String)
          → listed_comment id all ≡ some c
          → (c =ₜ pool_comment) ≡ false
          → cleanup_pool client id w ≡ (ok tt, listing w)
      unfolding cleanup_pool cleanup_listed find_pool_in_list ◌>>=◌ call
      foreign c k f = ground (arith, h, k, f)

      module _ (c : String) (k : listed_comment id all ≡ some c)
          (own : (c =ₜ pool_comment) ≡ true) where
        loaded_next :
            cleanup_pool client id w
            ≡ delete_if_empty client id (client (pool id) (after_list w)).0 (loading w)
        unfolding cleanup_pool cleanup_listed find_pool_in_list ◌>>=◌ call
        loaded_next = ground (arith, h, k, own)

  -- The end of the cleanup, from a pool that the list says is the provider's.
  deletion :
      (w : World S) (detail : PoolDetail)
      → (delete_if_empty client id (ok detail) (loading w) ≡ (ok tt, loading w))
        ⊎ ((delete_if_empty client id (ok detail) (loading w) ≡ (ok tt, deleting w))
            × ((detail.comment =ₜ pool_comment) ≡ true)
            × (no_members detail ≡ true))
  unfolding delete_if_empty ◌>>=◌ call
  deletion w detail = elim (Bool-cases (detail.comment =ₜ pool_comment)) [
    | inr other ↦ inl (ground (arith, other))
    | inl same ↦ elim (Bool-cases (no_members detail)) [
      | inl empty ↦ inr (ground (arith, same, empty), same, empty)
      | inr full ↦ inl (ground (arith, same, full))
    ]
  ]

  -- What a run of the cleanup may have done.
  abbrev pub CleanupOf : World S → Result (Unit {0}) × World S → Type 0
  CleanupOf w o =
      (o.0 ≡ ok tt)
      × ((o.1.log ≡ pools ∷ w.log)
          ⊎ (o.1.log ≡ pool id ∷ pools ∷ w.log)
          ⊎ ((o.1.log ≡ pool_delete id ∷ pool id ∷ pools ∷ w.log) × IsOwnAndEmpty w))

  only_listed : (w : World S) → CleanupOf w (ok tt, listing w)
  only_listed w = (refl, inl refl)

  own_cleanup :
      (w : World S) (all : List Pool)
      → (client pools w.server).0 ≡ ok all
      → (c : String) → listed_comment id all ≡ some c
      → (c =ₜ pool_comment) ≡ true
      → CleanupOf w (cleanup_pool client id w)
  own_cleanup w all h c k own = elim (Result-cases (client (pool id) (after_list w)).0) [
    | inr (e, lost) ↦
        subst (CleanupOf w)
          (sym
            (loaded_next w all h c k own ∙ ap (λ r. delete_if_empty client id r (loading w)) lost))
          (unfold delete_if_empty ◌>>=◌ in (refl, inr (inl refl)))
    | inl (detail, loaded) ↦
        let next =
          loaded_next w all h c k own ∙ ap (λ r. delete_if_empty client id r (loading w)) loaded in
        elim (deletion w detail) [
          | inl kept ↦ subst (CleanupOf w) (sym (next ∙ kept)) (refl, inr (inl refl))
          | inr (gone, same, empty) ↦ subst (CleanupOf w) (sym (next ∙ gone)) (
            refl,
            inr (
                inr (
                  refl,
                  record {
                    all = all;
                    listed = h;
                    own = k ∙ ap some ((eq_iff c pool_comment).0 own);
                    detail = detail;
                    loaded = loaded;
                    still_own = (eq_iff detail.comment pool_comment).0 same;
                    empty = no_members_lem detail empty;
                  },
                )),
          )
        ]
  ]

  -- Cleanup of a pool never fails, and asks for the deletion of that pool only after Proxmox answered
  -- that the provider made it and that it is empty.
  pub cleanup_pool_lem : (w : World S) → CleanupOf w (cleanup_pool client id w)
  cleanup_pool_lem w = elim (Result-cases (client pools w.server).0) [
    | inr (e, h) ↦ subst (CleanupOf w) (sym (unlisted w e h)) (only_listed w)
    | inl (all, h) ↦ elim (Option-cases (listed_comment id all)) [
      | inl k ↦ subst (CleanupOf w) (sym (missing w all h k)) (only_listed w)
      | inr (c, k) ↦ elim (Bool-cases (c =ₜ pool_comment)) [
        | inl own ↦ own_cleanup w all h c k own
        | inr other ↦ subst (CleanupOf w) (sym (foreign w all h c k other)) (only_listed w)
      ]
    ]
  ]
