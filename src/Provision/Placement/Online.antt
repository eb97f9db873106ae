-- ===== src/Provision/Placement/Online.antt =====
-- The step `pickNode` places a machine on an online node.
use omni_infra_provider_prox.Base.{
  ℕ, String, ◌≡◌, refl, sym, subst, Bool, true, not, List, [], ◌∷◌, arith, ◌=ₜ◌, if◌then◌else◌, inl,
  inr,
}
use omni_infra_provider_prox.Errors.{ok, error_new, Result-cases}
use omni_infra_provider_prox.Api.{Client, NodeInfo, VirtualMachine, nodes}
use omni_infra_provider_prox.Data.{Context, Data}
use omni_infra_provider_prox.Exec.{World, pure, fail, modify, set_machine, ◌>>=◌}
use omni_infra_provider_prox.Exec.Triples.{
  Ends, Ends-ok, Ends-any, Ends-given, OnOk, Ends-pure, Ends-fail, Ends-if, Ends-bind,
}
use omni_infra_provider_prox.Sorting.{Comparison, SortFunc, IsWeakOrder, IsSort}
use omni_infra_provider_prox.Scheduler.{
  Strategy, spread, NodeStatus, Ledger, pick, pick_node, select_node, reservation_ttl,
}
use omni_infra_provider_prox.Scheduler.Selection.{select_node_lem}
use omni_infra_provider_prox.Scheduler.Reservations.{pick-has_node, has_node_of_mem}
use omni_infra_provider_prox.Ha.Members.{node_online}
use omni_infra_provider_prox.Provision.Placement.{
  node_status, with_vms, count_on_node, survey, choose, auto_select, pick_node_step, is_empty,
  pick_result, node_result, in_set, set_id, memory_bytes,
}
use omni_infra_provider_prox.Provision.Placement.Listed.{
  is_online, AllOnline, AllOnline-later, online_of_has, online_head, Placed, configured_online,
}
use omni_infra_provider_prox.Provision.Placement.Begun.{
  placing, run, run_undecoded, run_unlisted, run_listed,
}

-- The names of the nodes that the survey lists are those of online nodes.
module _ {S F : Type 0} (client : Client S) (ratio : ℕ → ℕ → F) (no_memory : F)
    (vm_has_tag : VirtualMachine → String → Bool) where
  abbrev Named : String → NodeStatus F × List String → World S → Type 0
  Named name seen w = seen.0.name ≡ name

  count_on_node-name :
      (tag : String) (info : NodeInfo) (names : List String)
      → Ends
          (λ _. Unit {0})
          (count_on_node client ratio no_memory vm_has_tag tag info names)
          (OnOk (Named info.node))
  unfolding count_on_node with_vms node_status
  count_on_node-name tag info names =
      Ends-bind _ _ (Ends-any _) (λ e w _. tt)
        λ n. Ends-bind _ _ (Ends-any _) (λ e w _. tt) λ vms. Ends-pure _ (λ w _. refl)

  seen-name :
      (count : Bool) (tag : String) (info : NodeInfo) (names : List String)
      → Ends
          (λ _. Unit {0})
          (if count
            then count_on_node client ratio no_memory vm_has_tag tag info names
            else pure (node_status ratio no_memory info, names))
          (OnOk (Named info.node))
  seen-name count tag info names =
      Ends-if count _ _ (λ _. count_on_node-name tag info names)
        (λ _. Ends-pure _ (λ w _. unfold node_status in refl))

  survey-online :
      (count : Bool) (tag : String) (infos : List NodeInfo) (names : List String)
      → Ends
          (λ _. Unit {0})
          (survey client ratio no_memory vm_has_tag count tag infos names)
          (OnOk (λ r _. AllOnline infos r.0))
  unfolding survey
  survey-online count tag [] names = Ends-pure _ (λ w _. tt)
  survey-online count tag (info ∷ rest) names =
      Ends-if (not (info.status =ₜ node_online)) _ _
        (λ _. Ends-ok _ (survey-online count tag rest names) (λ r w. AllOnline-later info rest r.0))
        (λ on.
          Ends-bind _ _ (seen-name count tag info names) (λ e w _. tt)
            λ seen. Ends-given (seen.0.name ≡ info.node) _ λ same.
              Ends-bind _ _ (survey-online count tag rest seen.1) (λ e w _. tt)
                λ others. Ends-pure _ (λ w h. (
                  subst (λ t. is_online t (info ∷ rest) ≡ true) (sym same)
                      (online_head info rest (ground arith)),
                  AllOnline-later info rest others.0 h,
                )))

  module _ (compare_memory : Comparison F) (sort : SortFunc (NodeStatus F))
      (o : IsWeakOrder compare_memory) (c : IsSort sort) where
    abbrev Chosen : List NodeInfo → NodeStatus F → World S → Type 0
    Chosen infos picked w = is_online picked.name infos ≡ true

    set-Chosen :
        (infos : List NodeInfo) (online : List (NodeStatus F)) (n : NodeStatus F)
        (ns : List (NodeStatus F)) (now : ℕ) (ledger : Ledger) (set id : String) (memory : ℕ)
        (strategy : Strategy) (names : List String)
        → AllOnline infos (n ∷ ns)
        → Ends
            (λ _. Unit {0})
            (pick_result client ratio no_memory vm_has_tag (
              pick compare_memory sort now reservation_ttl ledger
                (n ∷ ns)
                set
                id
                memory
                strategy
                names))
            (OnOk (Chosen infos))
    unfolding pick_result modify
    set-Chosen infos online n ns now ledger set id memory strategy names h =
        let (p, e, has) =
          pick-has_node compare_memory sort now reservation_ttl ledger set id memory strategy names
            o c n ns in
        rw e (
          Ends-bind _ _ (Ends-any _) (λ e w _. tt)
            (λ _. Ends-pure p (λ w _. online_of_has infos p.name (n ∷ ns) h has)))

    alone-Chosen :
        (infos : List NodeInfo) (n : NodeStatus F) (ns : List (NodeStatus F))
        → AllOnline infos (n ∷ ns)
        → Ends
            (λ _. Unit {0})
            (node_result client ratio no_memory vm_has_tag (pick_node compare_memory sort (n ∷ ns)))
            (OnOk (Chosen infos))
    unfolding node_result select_node
    alone-Chosen infos n ns h =
        let (p, e, choice) = select_node_lem compare_memory sort o c spread (n ∷ ns) 0 (λ q. cc) in
        rw e (
          Ends-pure p
            (λ w _. online_of_has infos p.name (n ∷ ns) h (has_node_of_mem p (n ∷ ns) choice.0)))

    chosen :
        (now : ℕ) (pctx : Context) (cfg : Data) (strategy : Strategy) (infos : List NodeInfo)
        (n : NodeStatus F) (ns : List (NodeStatus F)) (names : List String)
        → AllOnline infos (n ∷ ns)
        → Ends
            (λ _. Unit {0})
            (choose client ratio no_memory vm_has_tag compare_memory sort now pctx cfg strategy
              (n ∷ ns)
              names)
            (OnOk (Chosen infos))
    unfolding choose
    chosen now pctx cfg strategy infos n ns names h =
        Ends-if (not (in_set pctx.machine_request_set_id)) _ _ (λ _. alone-Chosen infos n ns h)
          (λ _.
            Ends-bind _ _ (Ends-any _) (λ e w _. tt)
              λ ledger.
                set-Chosen infos (n ∷ ns) n ns now ledger (set_id pctx.machine_request_set_id)
                  pctx.request_id (memory_bytes cfg.memory) strategy names h)

    placed :
        (infos : List NodeInfo) (p : NodeStatus F)
        → Ends {S = S}
            (Chosen infos p)
            (set_machine (λ m. record m { node = p.name }))
            (Placed infos)
    unfolding set_machine
    placed infos p = record { at = λ w h. h }

    selected :
        (now : ℕ) (pctx : Context) (cfg : Data) (infos : List NodeInfo)
        → Ends
            (λ _. Unit {0})
            (auto_select client ratio no_memory vm_has_tag compare_memory sort now pctx cfg infos)
            (Placed infos)
    unfolding auto_select
    selected now pctx cfg infos =
        Ends-bind _ _ (Ends-any _) (λ e w _. tt)
          λ strategy.
            Ends-bind _ _ (survey-online _ _ infos []) (λ e w _. tt)
              λ seen. rest strategy seen.0 seen.1
      where
        rest :
            (strategy : Strategy) (ns : List (NodeStatus F)) (names : List String)
            → Ends {S = S}
                (λ _. AllOnline infos ns)
                (if is_empty ns
                  then fail (error_new "no online nodes available for provisioning")
                  else do
                    picked ←
                        choose client ratio no_memory vm_has_tag compare_memory sort now pctx cfg
                          strategy ns names
                    set_machine (λ m. record m { node = picked.name }))
                (Placed infos)
        rest strategy [] names = Ends-fail _ (λ w _. tt)
        rest strategy (n ∷ ns) names = Ends-given (AllOnline infos (n ∷ ns)) _ λ h.
            Ends-bind _ _ (chosen now pctx cfg strategy infos n ns names h) (λ e w _. tt)
              (placed infos)

    rest-Placed :
        (now : ℕ) (pctx : Context) (cfg : Data) (infos : List NodeInfo)
        → Ends
            (λ _. Unit {0})
            (placing client ratio no_memory vm_has_tag compare_memory sort now pctx cfg infos)
            (Placed infos)
    rest-Placed now pctx cfg infos =
        Ends-if (is_empty infos) _ _ (λ _. Ends-fail _ (λ w _. tt))
          (λ _.
            Ends-if (not (cfg.node =ₜ "")) _ _ (λ _. configured_online cfg.node infos)
              (λ _. selected now pctx cfg infos))

    -- For a weak order on the free memory and a sort that meets its contract: when `pickNode`
    -- succeeds for a machine without a node, the machine's node is one that Proxmox lists as
    -- online, whether the user named it, the scheduler picked it, or the plain choice did.
    pub pick_node_step-online :
        (now : ℕ) (pctx : Context) (w : World S)
        → w.machine.node ≡ ""
        → (pick_node_step client ratio no_memory vm_has_tag compare_memory sort now pctx w).0
          ≡ ok tt
        → (infos : List NodeInfo) × ((client nodes w.server).0 ≡ ok infos)
          × (is_online
                (pick_node_step client ratio no_memory vm_has_tag compare_memory sort now pctx
                  w).1.machine.node
                infos
              ≡ true)
    pick_node_step-online now pctx w new h = elim (Result-cases pctx.provider_data) [
      | inr (e, lost) ↦ absurd (
          cc (
            h,
            run_undecoded client ratio no_memory vm_has_tag compare_memory sort now pctx w new e
                lost,
          ))
      | inl (cfg, decoded) ↦ elim (Result-cases (client nodes w.server).0) [
        | inr (e, lost) ↦ absurd (
            cc (
              h,
              run_unlisted client ratio no_memory vm_has_tag compare_memory sort now pctx w new cfg
                  e decoded lost,
            ))
        | inl (infos, listed) ↦
            let e =
              run_listed client ratio no_memory vm_has_tag compare_memory sort now pctx w new cfg
                infos decoded listed in
            (
              infos,
              listed,
              subst
                  (λ r.
                    OnOk (λ _ (v : World S). is_online v.machine.node infos ≡ true) r
                      (run client ratio no_memory vm_has_tag compare_memory sort now pctx w new).1)
                  h
                  (subst (λ q. Placed infos q.0 q.1) (sym e)
                    ((rest-Placed now pctx cfg infos).at _ tt)),
            )
      ]
    ]
