-- ===== src/Provision/Placement/Answered.antt =====
-- The step `pickNode` where Proxmox answers what it is asked.
use omni_infra_provider_prox.Base.{
  ℕ, String, ◌≡◌, ◌∙◌, refl, ap, Bool, true, false, not, List, [], ◌∷◌, arith, ◌=ₜ◌, if◌then◌else◌,
}
use omni_infra_provider_prox.Errors.{Result, ok, err, error_new}
use omni_infra_provider_prox.Api.{Client, NodeInfo, VirtualMachine, nodes}
use omni_infra_provider_prox.Data.{Context, Data}
use omni_infra_provider_prox.Exec.{World, fail, set_machine, ◌>>=◌}
use omni_infra_provider_prox.Exec.Triples.{Ends, Ends-given, Ends-fail, Ends-if, Ends-bind}
use omni_infra_provider_prox.Exec.Passing.{
  IsOk, Passes, Passes-pure, Passes-lift, Passes-if, Passes-modify, Passes-then,
}
use omni_infra_provider_prox.Sorting.{Comparison, SortFunc, IsWeakOrder, IsSort}
use omni_infra_provider_prox.Scheduler.{
  Strategy, spread, NodeStatus, Ledger, parse_strategy, pick, pick_node, select_node,
  reservation_ttl,
}
use omni_infra_provider_prox.Scheduler.Selection.{select_node_lem}
use omni_infra_provider_prox.Scheduler.Reservations.{pick-has_node}
use omni_infra_provider_prox.Provision.Placement.Begun.{placing, run_listed}
use omni_infra_provider_prox.Exec.{gets}
use omni_infra_provider_prox.Provision.Placement.{
  choose, auto_select, pick_node_step, is_empty, pick_result, node_result, in_set, set_id,
  memory_bytes,
}
use omni_infra_provider_prox.Provision.Placement.Surveyed.{any_online, IsReadable, survey-Gets}

-- What the step returns for a machine whose class names no node.
abbrev pub outcome : List NodeInfo → Result (Unit {0})
outcome infos =
    if is_empty infos
    then err (error_new "no nodes available")
    else if any_online infos
    then ok tt
    else err (error_new "no online nodes available for provisioning")

module _ {S F : Type 0} (client : Client S) (ratio : ℕ → ℕ → F) (no_memory : F)
    (vm_has_tag : VirtualMachine → String → Bool) where
  module _ (compare_memory : Comparison F) (sort : SortFunc (NodeStatus F))
      (o : IsWeakOrder compare_memory) (c : IsSort sort) where
    set-Passes :
        (n : NodeStatus F) (ns : List (NodeStatus F)) (now : ℕ) (ledger : Ledger) (set id : String)
        (memory : ℕ) (strategy : Strategy) (names : List String)
        → Passes (
            pick_result client ratio no_memory vm_has_tag (
              pick compare_memory sort now reservation_ttl ledger
                (n ∷ ns)
                set
                id
                memory
                strategy
                names))
    unfolding pick_result
    set-Passes n ns now ledger set id memory strategy names =
        let (p, e, has) =
          pick-has_node compare_memory sort now reservation_ttl ledger set id memory strategy names
            o c n ns in
        rw e (Passes-then _ _ (Passes-modify _) (λ _. Passes-pure p))

    alone-Passes :
        (n : NodeStatus F) (ns : List (NodeStatus F))
        → Passes
            (node_result client ratio no_memory vm_has_tag (pick_node compare_memory sort (n ∷ ns)))
    unfolding node_result select_node
    alone-Passes n ns =
        let (p, e, choice) = select_node_lem compare_memory sort o c spread (n ∷ ns) 0 (λ q. cc) in
        rw e (Passes-pure p)

    choose-Passes :
        (now : ℕ) (pctx : Context) (cfg : Data) (strategy : Strategy) (n : NodeStatus F)
        (ns : List (NodeStatus F)) (names : List String)
        → Passes (
            choose client ratio no_memory vm_has_tag compare_memory sort now pctx cfg strategy
              (n ∷ ns)
              names)
    unfolding choose gets
    choose-Passes now pctx cfg strategy n ns names =
        Passes-if (not (in_set pctx.machine_request_set_id)) _ _ (alone-Passes n ns) (
          Passes-then _ _ (record { at = λ w _. tt })
            λ ledger.
              set-Passes n ns now ledger (set_id pctx.machine_request_set_id) pctx.request_id
                (memory_bytes cfg.memory) strategy names)

    -- The answer is this one.
    abbrev Returns : Result (Unit {0}) → Result (Unit {0}) → World S → Type 0
    Returns expected r w = r ≡ expected

    chosen :
        (now : ℕ) (pctx : Context) (cfg : Data) (strategy : Strategy) (ns : List (NodeStatus F))
        (names : List String) (online : Bool)
        → Ends {S = S}
            (λ _. is_empty ns ≡ not online)
            (if is_empty ns
              then fail (error_new "no online nodes available for provisioning")
              else do
                picked ←
                    choose client ratio no_memory vm_has_tag compare_memory sort now pctx cfg
                      strategy ns names
                set_machine (λ m. record m { node = picked.name }))
            (Returns (
              if online
              then ok tt
              else err (error_new "no online nodes available for provisioning")))
    unfolding set_machine
    chosen now pctx cfg strategy [] names true = Ends-given _ _ λ h. absurd (ground arith)
    chosen now pctx cfg strategy [] names false = Ends-fail _ (λ w _. refl)
    chosen now pctx cfg strategy (n ∷ ns) names true = Ends-given _ _ λ h.
        Passes-then _ _ (choose-Passes now pctx cfg strategy n ns names)
          λ picked. record { at = λ w _. refl }
    chosen now pctx cfg strategy (n ∷ ns) names false = Ends-given _ _ λ h. absurd (ground arith)

    selected :
        (now : ℕ) (pctx : Context) (cfg : Data) (infos : List NodeInfo)
        → IsReadable client infos
        → IsOk (parse_strategy cfg.placement_strategy)
        → Ends
            (λ _. Unit {0})
            (auto_select client ratio no_memory vm_has_tag compare_memory sort now pctx cfg infos)
            (Returns (
              if any_online infos
              then ok tt
              else err (error_new "no online nodes available for provisioning")))
    unfolding auto_select
    selected now pctx cfg infos readable known = Passes-then _ _ (Passes-lift _ known) λ strategy.
        Ends-bind _ _ (survey-Gets client ratio no_memory vm_has_tag _ _ infos [] readable)
          (λ e w bad. absurd bad)
          λ seen. chosen now pctx cfg strategy seen.0 seen.1 (any_online infos)

    rest-Returns :
        (now : ℕ) (pctx : Context) (cfg : Data) (infos : List NodeInfo)
        → IsReadable client infos
        → cfg.node ≡ ""
        → IsOk (parse_strategy cfg.placement_strategy)
        → Ends
            (λ _. Unit {0})
            (placing client ratio no_memory vm_has_tag compare_memory sort now pctx cfg infos)
            (Returns (outcome infos))
    rest-Returns now pctx cfg infos readable free known =
        Ends-if (is_empty infos) _ _ (λ none. Ends-fail _ (λ w _. rw none refl))
          λ some.
            Ends-if (not (cfg.node =ₜ "")) _ _
              (λ named. absurd (let e = ap (λ t. t =ₜ "") free in ground (arith, named, e)))
              (λ _. rw some (selected now pctx cfg infos readable known))

    -- For a weak order on the free memory and a sort that meets its contract: if Proxmox lists the
    -- nodes, those that it lists as online can be reached and list their machines, as `IsReadable`
    -- says, and the class can be read, names no node and has a placement strategy that is known, then
    -- for a machine without a node `pickNode` succeeds if a listed node is online, and otherwise
    -- returns the error that says so.
    pub pick_node_step-outcome :
        (now : ℕ) (pctx : Context) (cfg : Data) (infos : List NodeInfo) (w : World S)
        → IsReadable client infos
        → w.machine.node ≡ ""
        → pctx.provider_data ≡ ok cfg
        → cfg.node ≡ ""
        → IsOk (parse_strategy cfg.placement_strategy)
        → (client nodes w.server).0 ≡ ok infos
        → (pick_node_step client ratio no_memory vm_has_tag compare_memory sort now pctx w).0
          ≡ outcome infos
    pick_node_step-outcome now pctx cfg infos w readable new decoded free known listed =
        let e =
          run_listed client ratio no_memory vm_has_tag compare_memory sort now pctx w new cfg infos
            decoded listed in
        ap (λ q. q.0) e ∙ (rest-Returns now pctx cfg infos readable free known).at _ tt
