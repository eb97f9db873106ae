-- ===== src/Provision/Placement/Listed.antt =====
-- The nodes that Proxmox lists as online, and the step that takes the node that the user named.
use omni_infra_provider_prox.Base.{
  String, ◌≡◌, subst, Bool, true, false, ◌&&◌, ◌||◌, List, [], ◌∷◌, All, arith, ◌=ₜ◌, eq_iff,
  text_eq_refl, Bool-cases, inl, inr,
}
use omni_infra_provider_prox.Errors.{Result}
use omni_infra_provider_prox.Api.{NodeInfo}
use omni_infra_provider_prox.Exec.{World, fail, set_machine}
use omni_infra_provider_prox.Exec.Triples.{Ends, Ends-ok, OnOk}
use omni_infra_provider_prox.Scheduler.{NodeStatus, has_node}
use omni_infra_provider_prox.Ha.Members.{node_online}
use omni_infra_provider_prox.Provision.Placement.{use_configured}

-- Proxmox lists a node of that name as online.
unfoldable pub is_online : String → List NodeInfo → Bool
is_online name [] = false
is_online name (info ∷ rest) =
    (info.node =ₜ name && info.status =ₜ node_online) || is_online name rest

abbrev pub AllOnline : {F : Type 0} → List NodeInfo → List (NodeStatus F) → Type 0
AllOnline infos = All (λ n. is_online n.name infos ≡ true)

pub AllOnline-later :
    {F : Type 0} (info : NodeInfo) (rest : List NodeInfo) (ns : List (NodeStatus F))
    → AllOnline rest ns
    → AllOnline (info ∷ rest) ns
unfolding is_online
AllOnline-later info rest [] h = tt
AllOnline-later info rest (n ∷ ns) h = (ground (arith, h.0), AllOnline-later info rest ns h.1)

pub online_of_has :
    {F : Type 0} (infos : List NodeInfo) (z : String) (ns : List (NodeStatus F))
    → AllOnline infos ns
    → has_node z ns ≡ true
    → is_online z infos ≡ true
unfolding has_node
online_of_has infos z [] h k = absurd (ground arith)
online_of_has infos z (n ∷ ns) h k = elim (Bool-cases (n.name =ₜ z)) [
  | inl same ↦ subst (λ t. is_online t infos ≡ true) ((eq_iff n.name z).0 same) h.0
  | inr other ↦ online_of_has infos z ns h.1 (ground arith)
]

pub online_head :
    (info : NodeInfo) (rest : List NodeInfo)
    → (info.status =ₜ node_online) ≡ true
    → is_online info.node (info ∷ rest) ≡ true
unfolding is_online
online_head info rest h = ground (arith, h, text_eq_refl info.node)

abbrev pub Placed : {S : Type 0} → List NodeInfo → Result (Unit {0}) → World S → Type 0
Placed infos = OnOk (λ _ w. is_online w.machine.node infos ≡ true)

module _ {S : Type 0} where
  pub configured_online :
      (name : String) (infos : List NodeInfo)
      → Ends {S = S} (λ _. Unit {0}) (use_configured name infos) (Placed infos)
  unfolding use_configured is_online fail set_machine
  configured_online name [] = record { at = λ w _. tt }
  configured_online name (info ∷ rest) = record {
    at = λ w _. elim (Bool-cases (info.node =ₜ name)) [
      | inl same ↦ elim (Bool-cases (info.status =ₜ node_online)) [
        | inl on ↦ rw (same, on) (ground arith)
        | inr off ↦ rw (same, off) tt
      ]
      | inr other ↦ rw other (
          (Ends-ok {Q = λ _ v. is_online v.machine.node rest ≡ true} (use_configured name rest)
              (configured_online name rest) (λ _ v h. ground (arith, h))).at
            w tt)
    ];
  }
