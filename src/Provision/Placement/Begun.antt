-- ===== src/Provision/Placement/Begun.antt =====
-- The step `pickNode` up to the node list.
use omni_infra_provider_prox.Base.{ℕ, String, ◌≡◌, refl, Bool, not, List, ◌∷◌, ◌=ₜ◌, if◌then◌else◌}
use omni_infra_provider_prox.Errors.{Error, Result, ok, err, error_new}
use omni_infra_provider_prox.Api.{Client, NodeInfo, VirtualMachine, nodes}
use omni_infra_provider_prox.Data.{Context, Data}
use omni_infra_provider_prox.Exec.{World, M, fail, call, ◌>>=◌}
use omni_infra_provider_prox.Sorting.{Comparison, SortFunc}
use omni_infra_provider_prox.Scheduler.{NodeStatus}
use omni_infra_provider_prox.Provision.Placement.{
  use_configured, auto_select, pick_node_step, is_empty,
}

module _ {S F : Type 0} (client : Client S) (ratio : ℕ → ℕ → F) (no_memory : F)
    (vm_has_tag : VirtualMachine → String → Bool) (compare_memory : Comparison F)
    (sort : SortFunc (NodeStatus F)) where
  -- The step behind the node list.
  abbrev pub placing : (now : ℕ) → Context → Data → List NodeInfo → M S (Unit {0})
  placing now pctx cfg infos =
      if is_empty infos
      then fail (error_new "no nodes available")
      else if not (cfg.node =ₜ "")
      then use_configured cfg.node infos
      else auto_select client ratio no_memory vm_has_tag compare_memory sort now pctx cfg infos

  module _ (now : ℕ) (pctx : Context) (w : World S) (new : w.machine.node ≡ "") where
    abbrev pub run : Result (Unit {0}) × World S
    run = pick_node_step client ratio no_memory vm_has_tag compare_memory sort now pctx w

    pub run_undecoded : (e : Error) → pctx.provider_data ≡ err e → run.0 ≡ err e
    unfolding pick_node_step ◌>>=◌
    run_undecoded e h = rw (new, h) refl

    pub run_unlisted :
        (cfg : Data) (e : Error)
        → pctx.provider_data ≡ ok cfg
        → (client nodes w.server).0 ≡ err e
        → run.0 ≡ err e
    unfolding pick_node_step ◌>>=◌ call
    run_unlisted cfg e h k = rw (new, h, k) refl

    pub run_listed :
        (cfg : Data) (infos : List NodeInfo)
        → pctx.provider_data ≡ ok cfg
        → (client nodes w.server).0 ≡ ok infos
        → run
          ≡ placing now pctx cfg infos
              (record w { server = (client nodes w.server).1; log = nodes ∷ w.log })
    unfolding pick_node_step ◌>>=◌ call
    run_listed cfg infos h k = rw (new, h, k) refl
