-- ===== src/Provision/Run/Placing.antt =====
-- What the step pickNode maintains, of what the machines share.
use omni_infra_provider_prox.Base.{
  Map, ℕ, String, refl, Bool, not, Option, none, some, List, [], ◌∷◌, ◌=ₜ◌,
}
use omni_infra_provider_prox.Api.{Client, NodeInfo, VirtualMachine, nodes, node, virtual_machines}
use omni_infra_provider_prox.Data.{Context, Data}
use omni_infra_provider_prox.Exec.Frames.{
  IsStable, Shared, Keeps, Keeps-set_machine, Keeps-modify, Keeps-bind, Keeps-map_error, Keeps-pure,
  Keeps-fail, Keeps-call, Keeps-lift, Keeps-if, Keeps-machine, Keeps-gets,
}
use omni_infra_provider_prox.Sorting.{Comparison, SortFunc}
use omni_infra_provider_prox.Scheduler.{Strategy, NodeStatus, Ledger}
use omni_infra_provider_prox.Ha.Members.{node_online}
use omni_infra_provider_prox.Provision.Placement.{
  count_on_node, survey, index_panic, pick_result, node_result, choose, auto_select, pick_node_step,
  is_empty, in_set,
}
use omni_infra_provider_prox.Provision.Run.Working.{use_configured-Keeps}

module _ {S F : Type 0} (client : Client S) (kept : S → String → Map String → Type 0)
    (stable : IsStable client (Shared kept)) (ratio : ℕ → ℕ → F) (no_memory : F)
    (vm_has_tag : VirtualMachine → String → Bool) where
  count_on_node-Keeps :
      (tag : String) (info : NodeInfo) (names : List String)
      → Keeps (Shared kept) (count_on_node client ratio no_memory vm_has_tag tag info names)
  unfolding count_on_node
  count_on_node-Keeps tag info names =
      Keeps-bind _ _ (Keeps-map_error _ _ (Keeps-call _ (node info.node) refl stable)) λ n.
        Keeps-bind _ _ (Keeps-map_error _ _ (Keeps-call _ (virtual_machines n) refl stable))
          λ vms. Keeps-pure _

  survey-Keeps :
      (count : Bool) (tag : String) (infos : List NodeInfo) (names : List String)
      → Keeps (Shared kept) (survey client ratio no_memory vm_has_tag count tag infos names)
  unfolding survey
  survey-Keeps count tag [] names = Keeps-pure _
  survey-Keeps count tag (info ∷ rest) names =
      Keeps-if (not (info.status =ₜ node_online)) _ _ (survey-Keeps count tag rest names) (
        Keeps-bind _ _ (Keeps-if count _ _ (count_on_node-Keeps tag info names) (Keeps-pure _))
          λ seen. Keeps-bind _ _ (survey-Keeps count tag rest seen.1) (λ others. Keeps-pure _))

  pick_result-Keeps :
      (o : Option (NodeStatus F × Ledger))
      → Keeps (Shared kept) (pick_result client ratio no_memory vm_has_tag o)
  unfolding pick_result index_panic
  pick_result-Keeps none = Keeps-fail _
  pick_result-Keeps (some (picked, ledger)) =
      Keeps-bind _ _ (Keeps-modify _ (λ w h. h)) (λ _. Keeps-pure picked)

  node_result-Keeps :
      (o : Option (NodeStatus F))
      → Keeps (Shared kept) (node_result client ratio no_memory vm_has_tag o)
  unfolding node_result index_panic
  node_result-Keeps none = Keeps-fail _
  node_result-Keeps (some picked) = Keeps-pure picked

  module _ (compare_memory : Comparison F) (sort : SortFunc (NodeStatus F)) (now : ℕ)
      (pctx : Context) where
    choose-Keeps :
        (cfg : Data) (strategy : Strategy) (infos : List (NodeStatus F)) (names : List String)
        → Keeps (Shared kept) (
            choose client ratio no_memory vm_has_tag compare_memory sort now pctx cfg strategy infos
              names)
    unfolding choose
    choose-Keeps cfg strategy infos names =
        Keeps-if (not (in_set pctx.machine_request_set_id)) _ _ (node_result-Keeps _)
          (Keeps-bind _ _ (Keeps-gets _) (λ ledger. pick_result-Keeps _))

    auto_select-Keeps :
        (cfg : Data) (infos : List NodeInfo)
        → Keeps
            (Shared kept)
            (auto_select client ratio no_memory vm_has_tag compare_memory sort now pctx cfg infos)
    unfolding auto_select
    auto_select-Keeps cfg infos = Keeps-bind _ _ (Keeps-lift _) λ strategy.
        Keeps-bind _ _ (survey-Keeps _ _ infos []) λ seen.
          Keeps-if (is_empty seen.0) _ _ (Keeps-fail _) (
            Keeps-bind _ _ (choose-Keeps cfg strategy seen.0 seen.1)
              (λ picked. Keeps-set_machine _ (λ w h. h)))

    pub pick_node_step-Keeps :
        Keeps
          (Shared kept)
          (pick_node_step client ratio no_memory vm_has_tag compare_memory sort now pctx)
    unfolding pick_node_step
    pick_node_step-Keeps = Keeps-bind _ _ Keeps-machine λ m.
        Keeps-if (not (m.node =ₜ "")) _ _ (Keeps-pure tt) (
          Keeps-bind _ _ (Keeps-lift pctx.provider_data) λ cfg.
            Keeps-bind _ _ (Keeps-call _ nodes refl stable) λ infos.
              Keeps-if (is_empty infos) _ _ (Keeps-fail _) (
                Keeps-if (not (cfg.node =ₜ "")) _ _
                  (use_configured-Keeps client kept stable cfg.node infos)
                  (auto_select-Keeps cfg infos)))
