-- ===== src/Ha/Members/Finding.antt =====
-- `FindVMNode`: what the scan finds.
use omni_infra_provider_prox.Base.{
  ◌≢◌, subst, ℕ, String, ◌≡◌, ◌∙◌, refl, sym, true, not, Option, none, some, List, [], ◌∷◌, inl,
  inr, arith, ◌=ₜ◌, Memᴰ,
}
use omni_infra_provider_prox.Errors.{Error, Result, ok, err, wrap, Result-cases}
use omni_infra_provider_prox.Api.{Client, NodeInfo, VirtualMachine, nodes, node, virtual_machines}
use omni_infra_provider_prox.Exec.{World, M, call, ◌>>=◌}
use omni_infra_provider_prox.Exec.Triples.{
  Answers, attempted, Ends, OnOk, Ends-ok, Ends-given, Ends-pure, Ends-fail, Ends-if, Ends-bind,
}
use omni_infra_provider_prox.Ha.Classify.{is_node_unreachable}
use omni_infra_provider_prox.Ha.Members.{
  node_online, found_vm, unless_unreachable, scan_nodes, find_vm_node,
}

-- The node is listed as online among `infos`, and its
-- machines, listed under the name by which Proxmox answered for it, have the id.
pub record IsFound {S : Type 0} (client : Client S) (vmid : ℕ) (infos : List NodeInfo)
    (name : String) : Type 0 where
  pub info : NodeInfo
  pub is_listed : Memᴰ info infos
  pub is_named : info.node ≡ name
  pub online : (info.status =ₜ node_online) ≡ true
  pub known_as : String
  pub reached : Answers client (node name) (ok known_as)
  pub machines : List VirtualMachine
  pub answered : Answers client (virtual_machines known_as) (ok machines)
  pub has_it : found_vm vmid machines ≡ true

abbrev pub FoundOr : {S : Type 0} → Client S → ℕ → List NodeInfo → Option String → Type 0
FoundOr client vmid infos none = Unit {0}
FoundOr client vmid infos (some name) = IsFound client vmid infos name

module _ {S : Type 0} (client : Client S) (vmid : ℕ) where
  abbrev Scanned : List NodeInfo → Option String → World S → Type 0
  Scanned infos o w = FoundOr client vmid infos o

  later :
      (info : NodeInfo) (rest : List NodeInfo) (o : Option String)
      → FoundOr client vmid rest o
      → FoundOr client vmid (info ∷ rest) o
  later info rest none h = tt
  later info rest (some name) h = record {
    info = h.info;
    is_listed = Memᴰ.tail h.is_listed;
    is_named = h.is_named;
    online = h.online;
    known_as = h.known_as;
    reached = h.reached;
    machines = h.machines;
    answered = h.answered;
    has_it = h.has_it;
  }

  unless_unreachable-Scanned :
      {A : Type 0} (infos : List NodeInfo) (context : String) (r : Result A)
      (k : A → M S (Option String)) (skip : M S (Option String))
      → ((a : A) → r ≡ ok a → Ends (λ _. Unit {0}) (k a) (OnOk (Scanned infos)))
      → Ends (λ _. Unit {0}) skip (OnOk (Scanned infos))
      → Ends (λ _. Unit {0}) (unless_unreachable client context r k skip) (OnOk (Scanned infos))
  unless_unreachable-Scanned infos context (ok a) k skip h s = h a refl
  unless_unreachable-Scanned infos context (err e) k skip h s =
      Ends-if (is_node_unreachable e) _ _ (λ _. s) (λ _. Ends-fail (wrap context e "") (λ w _. tt))

  scan_nodes-Scanned :
      (infos : List NodeInfo)
      → Ends (λ _. Unit {0}) (scan_nodes client vmid infos) (OnOk (Scanned infos))
  unfolding scan_nodes
  scan_nodes-Scanned [] = Ends-pure _ (λ w _. tt)
  scan_nodes-Scanned (ns ∷ rest) =
      let skip =
        Ends-ok {R = Scanned (ns ∷ rest)} _ (scan_nodes-Scanned rest) (λ o w. later ns rest o) in
      Ends-if (not (ns.status =ₜ node_online)) _ _ (λ _. skip)
        λ on.
          Ends-bind _ _ (attempted client (node ns.node)) (λ e w _. tt)
            λ got. Ends-given (Answers client (node ns.node) got) _ λ said.
              unless_unreachable-Scanned (ns ∷ rest) _ got _ _
                (λ name known.
                  Ends-bind _ _ (attempted client (virtual_machines name)) (λ e w _. tt)
                    λ listed. Ends-given (Answers client (virtual_machines name) listed) _ λ from.
                      unless_unreachable-Scanned (ns ∷ rest) _ listed _ _
                        (λ vms same.
                          Ends-if (found_vm vmid vms) _ _
                            (λ has. Ends-pure _ (λ w _. record {
                              info = ns;
                              is_listed = Memᴰ.head refl;
                              is_named = refl;
                              online = ground (arith, on);
                              known_as = name;
                              reached = (said.0, said.1 ∙ known);
                              machines = vms;
                              answered = (from.0, from.1 ∙ same);
                              has_it = has;
                            }))
                            (λ _. skip))
                        skip)
                skip

  listed_run :
      (w : World S) (infos : List NodeInfo)
      → (client nodes w.server).0 ≡ ok infos
      → find_vm_node client vmid w
        ≡ scan_nodes client vmid infos
            (record w { server = (client nodes w.server).1; log = nodes ∷ w.log })
  unfolding find_vm_node ◌>>=◌ call
  listed_run w infos h = rw h refl

  unlisted_run :
      (w : World S) (e : Error) (name : String)
      → (client nodes w.server).0 ≡ err e
      → (find_vm_node client vmid w).0 ≢ ok (some name)
  unfolding find_vm_node ◌>>=◌ call
  unlisted_run w e name h = rw h (λ q. ground arith)

  -- A node that `FindVMNode` finds is in the list that Proxmox answered with, is online there, and
  -- Proxmox listed a machine of the id under a name of a node.
  pub find_vm_node-IsFound :
      (w : World S) (name : String)
      → (find_vm_node client vmid w).0 ≡ ok (some name)
      → (infos : List NodeInfo) × ((client nodes w.server).0 ≡ ok infos)
        × IsFound client vmid infos name
  find_vm_node-IsFound w name h = elim (Result-cases (client nodes w.server).0) [
    | inl (infos, listed) ↦
        let e = listed_run w infos listed in
        (
          infos,
          listed,
          subst (λ r. OnOk (Scanned infos) r (find_vm_node client vmid w).1) h
              (subst (λ q. OnOk (Scanned infos) q.0 q.1) (sym e)
                ((scan_nodes-Scanned infos).at _ tt)),
        )
    | inr (e, lost) ↦ absurd (unlisted_run w e name lost h)
  ]
