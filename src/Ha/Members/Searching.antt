-- ===== src/Ha/Members/Searching.antt =====
-- `FindVMNode`: what the search has seen.
use omni_infra_provider_prox.Base.{
  subst, ℕ, String, ◌≡◌, refl, true, false, not, Option, none, some, ◌⊎◌, inl, inr, List, [], ◌∷◌,
  arith, ◌=ₜ◌, All,
}
use omni_infra_provider_prox.Errors.{Error, Result, ok, err, wrap}
use omni_infra_provider_prox.Api.{Client, NodeInfo, VirtualMachine, nodes, node, virtual_machines}
use omni_infra_provider_prox.Exec.{World, M}
use omni_infra_provider_prox.Exec.Triples.{
  Answers, asked, attempted, Ends, OnOk, Ends-ok, Ends-given, Ends-pure, Ends-fail, Ends-if,
  Ends-weaken, Ends-bind, Ends-map_error,
}
use omni_infra_provider_prox.Ha.Classify.{is_node_unreachable}
use omni_infra_provider_prox.Ha.Members.Finding.{IsFound, find_vm_node-IsFound}
use omni_infra_provider_prox.Ha.Members.{
  node_online, found_vm, unless_unreachable, scan_nodes, find_vm_node,
}

module _ {S : Type 0} (client : Client S) (vmid : ℕ) where
  -- The node could not be reached, when it was asked for or when its machines were.
  abbrev pub IsUnreachable : NodeInfo → Type 0
  IsUnreachable info =
      (e : Error) × (is_node_unreachable e ≡ true)
      × (Answers client (node info.node) (err e)
          ⊎ ((known_as : String) × Answers client (node info.node) (ok known_as)
              × Answers client (virtual_machines known_as) (err e)))

  -- The node was asked for and listed its machines, and none has the id.
  abbrev pub IsElsewhere : NodeInfo → Type 0
  IsElsewhere info =
      (known_as : String) × (vms : List VirtualMachine) × Answers client (node info.node)
        (ok known_as)
      × Answers client (virtual_machines known_as) (ok vms)
      × (found_vm vmid vms ≡ false)

  abbrev pub IsWithout : NodeInfo → Type 0
  IsWithout info = ((info.status =ₜ node_online) ≡ false) ⊎ (IsUnreachable info ⊎ IsElsewhere info)

  -- Nothing was found, and so none of the nodes has it.
  abbrev Nowhere : List NodeInfo → Option String → World S → Type 0
  Nowhere infos none w = All IsWithout infos
  Nowhere infos (some name) w = Unit {0}

  and_rest :
      (info : NodeInfo) (rest : List NodeInfo)
      → IsWithout info
      → (o : Option String) (w : World S) → Nowhere rest o w
      → Nowhere (info ∷ rest) o w
  and_rest info rest h none w hs = (h, hs)
  and_rest info rest h (some name) w hs = tt

  unless_unreachable-Nowhere :
      {A : Type 0} (infos : List NodeInfo) (context : String) (r : Result A)
      (k : A → M S (Option String)) (skip : M S (Option String))
      → ((a : A) → r ≡ ok a → Ends (λ _. Unit {0}) (k a) (OnOk (Nowhere infos)))
      → ((e : Error)
          → r ≡ err e
          → is_node_unreachable e ≡ true
          → Ends (λ _. Unit {0}) skip (OnOk (Nowhere infos)))
      → Ends (λ _. Unit {0}) (unless_unreachable client context r k skip) (OnOk (Nowhere infos))
  unless_unreachable-Nowhere infos context (ok a) k skip h s = h a refl
  unless_unreachable-Nowhere infos context (err e) k skip h s =
      Ends-if (is_node_unreachable e) _ _ (s e refl)
        (λ _. Ends-fail (wrap context e "") (λ w _. tt))

  scan_nodes-Nowhere :
      (infos : List NodeInfo)
      → Ends (λ _. Unit {0}) (scan_nodes client vmid infos) (OnOk (Nowhere infos))
  unfolding scan_nodes
  scan_nodes-Nowhere [] = Ends-pure _ (λ w _. tt)
  scan_nodes-Nowhere (ns ∷ rest) =
      let skip = λ (h : IsWithout ns).
        Ends-ok {R = Nowhere (ns ∷ rest)} _ (scan_nodes-Nowhere rest) (and_rest ns rest h) in
      Ends-if (not (ns.status =ₜ node_online)) _ _ (λ off. skip (inl (ground (arith, off))))
        λ _.
          Ends-bind _ _ (attempted client (node ns.node)) (λ e w _. tt)
            λ got. Ends-given (Answers client (node ns.node) got) _ λ node_said.
              unless_unreachable-Nowhere (ns ∷ rest) _ got _ _
                (λ name named.
                  Ends-bind _ _ (attempted client (virtual_machines name)) (λ e w _. tt)
                    λ listed.
                      Ends-given (Answers client (virtual_machines name) listed) _ λ list_said.
                        unless_unreachable-Nowhere (ns ∷ rest) _ listed _ _
                          (λ vms same.
                            Ends-if (found_vm vmid vms) _ _ (λ _. Ends-pure _ (λ w _. tt))
                              λ absent. skip (
                                inr (
                                  inr (
                                    name,
                                    vms,
                                    subst (Answers client (node ns.node)) named node_said,
                                    subst (Answers client (virtual_machines name)) same list_said,
                                    absent,
                                  ))))
                          (λ e lost far. skip (
                            inr (
                              inl (
                                e,
                                far,
                                inr (
                                  name,
                                  subst (Answers client (node ns.node)) named node_said,
                                  subst (Answers client (virtual_machines name)) lost list_said,
                                ),
                              )))))
                (λ e lost far.
                  skip (
                    inr (inl (e, far, inl (subst (Answers client (node ns.node)) lost node_said)))))

  -- Proxmox listed the nodes, and on none of them is the machine.
  abbrev pub IsNowhere : Type 0
  IsNowhere = (infos : List NodeInfo) × Answers client nodes (ok infos) × All IsWithout infos

  abbrev pub Missed : Option String → World S → Type 0
  Missed none w = IsNowhere
  Missed (some name) w = Unit {0}

  of_listing :
      (infos : List NodeInfo)
      → Answers client nodes (ok infos)
      → (o : Option String) (w : World S) → Nowhere infos o w
      → Missed o w
  of_listing infos said none w h = (infos, said, h)
  of_listing infos said (some name) w h = tt

  pub find_vm_node-Missed : Ends (λ _. Unit {0}) (find_vm_node client vmid) (OnOk Missed)
  unfolding find_vm_node
  find_vm_node-Missed =
      Ends-bind {Q = OnOk (λ infos _. Answers client nodes (ok infos))} _ _
        (Ends-map_error _ _ (Ends-weaken _ (asked client nodes))) (λ e w _. tt)
        λ infos.
          Ends-given (Answers client nodes (ok infos)) _
            λ said. Ends-ok _ (scan_nodes-Nowhere infos) (of_listing infos said)

  find_vm_node-IsNowhere : (w : World S) → (find_vm_node client vmid w).0 ≡ ok none → IsNowhere
  find_vm_node-IsNowhere w h =
      subst (λ r. OnOk Missed r (find_vm_node client vmid w).1) h (find_vm_node-Missed.at w tt)

  -- What a search that does not fail has come to.
  abbrev pub SearchOf : Option String → Type 0
  SearchOf none = IsNowhere
  SearchOf (some name) =
      (infos : List NodeInfo) × Answers client nodes (ok infos) × IsFound client vmid infos name

  -- A node that `FindVMNode` finds is in the list of nodes that Proxmox gave and is online there, and
  -- under the name by which Proxmox answered for this node, it listed a machine of the id. When it
  -- finds none and does not fail, Proxmox listed the nodes, and each of them is not online, or could
  -- not be reached, or listed its machines, none of which has the id.
  pub find_vm_node_lem :
      (w : World S) (o : Option String) → (find_vm_node client vmid w).0 ≡ ok o → SearchOf o
  find_vm_node_lem w none h = find_vm_node-IsNowhere w h
  find_vm_node_lem w (some name) h =
      let (infos, said, found) = find_vm_node-IsFound client vmid w name h in
      (infos, (w.server, said), found)
