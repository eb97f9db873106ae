-- ===== src/Provision/Placement/Surveyed.antt =====
-- The survey of the nodes where those that are online answer.
use omni_infra_provider_prox.Base.{
  ℕ, String, ◌≡◌, refl, Bool, true, false, not, ◌||◌, List, [], ◌∷◌, arith, ◌=ₜ◌, if◌then◌else◌,
}
use omni_infra_provider_prox.Errors.{Error, Result, ok, err}
use omni_infra_provider_prox.Api.{
  Client, Request, Response, NodeInfo, VirtualMachine, node, virtual_machines,
}
use omni_infra_provider_prox.Exec.{World, pure, call}
use omni_infra_provider_prox.Exec.Triples.{Answers, Ends, Ends-given, Ends-pure, Ends-if, Ends-bind}
use omni_infra_provider_prox.Exec.Passing.{
  IsOk, Gets, Passes, Passes-pure, Passes-map_error, Passes-then,
}
use omni_infra_provider_prox.Ha.Members.{node_online}
use omni_infra_provider_prox.Exec.{M, map_error, map_result}
use omni_infra_provider_prox.Provision.Placement.Listed.{is_online, online_head}
use omni_infra_provider_prox.Provision.Placement.{node_status, count_on_node, survey, is_empty}

unfoldable pub any_online : List NodeInfo → Bool
any_online [] = false
any_online (info ∷ rest) = (info.status =ₜ node_online) || any_online rest

-- The nodes that are listed as online can be reached, and list their machines under the name by which they
-- answer.
pub record IsReadable {S : Type 0} (client : Client S) (infos : List NodeInfo) : Type 0 where
  pub reaches :
      (name : String) (s : S) → is_online name infos ≡ true → IsOk (client (node name) s).0
  pub lists :
      (name known_as : String) (s : S)
      → is_online name infos ≡ true
      → Answers client (node name) (ok known_as)
      → IsOk (client (virtual_machines known_as) s).0

rest-IsReadable :
    {S : Type 0} (client : Client S) (info : NodeInfo) (rest : List NodeInfo)
    → IsReadable client (info ∷ rest)
    → IsReadable client rest
unfolding is_online
rest-IsReadable client info rest h = record {
  reaches = λ name s on. h.reaches name s (ground arith);
  lists = λ name known_as s on said. h.lists name known_as s (ground arith) said;
}

module _ {S F : Type 0} (client : Client S) (ratio : ℕ → ℕ → F) (no_memory : F)
    (vm_has_tag : VirtualMachine → String → Bool) where
  -- The request gets through, and what follows knows the answer.
  read :
      (r : Request)
      → ((s : S) → IsOk (client r s).0)
      → Ends (λ _. Unit {0}) (call client r) (Gets (λ a _. Answers client r (ok a)))
  unfolding call
  read r h = record { at = λ w _. got w (client r w.server).0 refl (h w.server) }
    where
      got :
          (w : World S) (a : Result (Response r))
          → (client r w.server).0 ≡ a
          → IsOk a
          → Gets (λ b (_ : World S). Answers client r (ok b)) a (call client r w).1
      got w (ok b) e h = (w.server, e)
      got w (err x) e h = absurd h

  explained :
      {A : Type 0} {Q : A → World S → Type 0} (f : Error → Error) (m : M S A)
      → Ends (λ _. Unit {0}) m (Gets Q)
      → Ends (λ _. Unit {0}) (map_error f m) (Gets Q)
  unfolding map_error
  explained {Q} f m h = record { at = λ w _. same (m w).0 (m w).1 (h.at w tt) }
    where
      same : (r : Result _) (v : World S) → Gets Q r v → Gets Q (map_result f r) v
      same (ok a) v q = q
      same (err e) v q = absurd q

  count_on_node-Passes :
      (tag : String) (info : NodeInfo) (rest : List NodeInfo) (names : List String)
      → IsReadable client (info ∷ rest)
      → (info.status =ₜ node_online) ≡ true
      → Passes (count_on_node client ratio no_memory vm_has_tag tag info names)
  unfolding count_on_node
  count_on_node-Passes tag info rest names readable on =
      let listed = online_head info rest on in
      Ends-bind _ _
        (explained _ _ (read (node info.node) (λ s. readable.reaches info.node s listed)))
        (λ e w bad. absurd bad)
        λ n. Ends-given (Answers client (node info.node) (ok n)) _ λ said.
          Passes-then _ _
            (Passes-map_error _ _
              (passed (virtual_machines n) (λ s. readable.lists info.node n s listed said)))
            λ vms. Passes-pure _
    where
      passed : (r : Request) → ((s : S) → IsOk (client r s).0) → Passes (call client r)
      passed r h = unfold call in record { at = λ w _. h w.server }

  -- The survey has a node exactly if a listed node is online.
  pub survey-Gets :
      (count : Bool) (tag : String) (infos : List NodeInfo) (names : List String)
      → IsReadable client infos
      → Ends
          (λ _. Unit {0})
          (survey client ratio no_memory vm_has_tag count tag infos names)
          (Gets (λ r _. is_empty r.0 ≡ not (any_online infos)))
  unfolding survey any_online
  survey-Gets count tag [] names readable = Ends-pure _ (λ w _. refl)
  survey-Gets count tag (info ∷ rest) names readable =
      let later = rest-IsReadable client info rest readable in
      Ends-if (not (info.status =ₜ node_online)) _ _
        (λ off.
          let offline : (info.status =ₜ node_online) ≡ false = ground (arith, off) in
          rw offline (survey-Gets count tag rest names later))
        (λ on. Passes-then _ _ (seen count (ground (arith, on))) λ one.
          Ends-bind _ _ (survey-Gets count tag rest one.1 later) (λ e w bad. absurd bad)
            λ others. Ends-pure _ (λ w _. ground arith))
    where
      seen :
          (b : Bool)
          → (info.status =ₜ node_online) ≡ true
          → Passes (
              if b
              then count_on_node client ratio no_memory vm_has_tag tag info names
              else pure (node_status ratio no_memory info, names))
      seen true on = count_on_node-Passes tag info rest names readable on
      seen false on = Passes-pure _
