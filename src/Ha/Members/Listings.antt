-- ===== src/Ha/Members/Listings.antt =====
-- `setMembers`: the listings that its scan reads, and what it takes from them.
use omni_infra_provider_prox.Base.{
  ℕ, String, ◌≡◌, ◌∙◌, refl, ap, subst, Bool, true, false, not, ◌&&◌, ◌||◌, inl, inr, List, [], ◌∷◌,
  arith, ◌=ₜ◌, if◌then◌else◌, contains, eq_iff, Bool-cases,
}
use omni_infra_provider_prox.Errors.{ok}
use omni_infra_provider_prox.Api.{Client, NodeInfo, VirtualMachine, node, virtual_machines}
use omni_infra_provider_prox.Exec.{World}
use omni_infra_provider_prox.Exec.Triples.{
  Answers, asked, Ends, OnOk, Ends-ok, Ends-given, Ends-pure, Ends-if, Ends-weaken, Ends-bind,
  Ends-map_error,
}
use omni_infra_provider_prox.Ha.Names.{has_tag, vm_sid}
use omni_infra_provider_prox.Ha.Members.{node_online, add_key, add_members, scan_members}

-- Whether a listing has a machine of this sid with the tag.
abbrev pub has_tagged : (sep : ℕ) (want sid : String) → List VirtualMachine → Bool
has_tagged sep want sid [] = false
has_tagged sep want sid (vm ∷ vms) =
    (vm_sid vm.vmid =ₜ sid && has_tag sep vm.tags want) || has_tagged sep want sid vms

abbrev pub any_tagged : (sep : ℕ) (want sid : String) → List (List VirtualMachine) → Bool
any_tagged sep want sid [] = false
any_tagged sep want sid (vms ∷ listings) =
    has_tagged sep want sid vms || any_tagged sep want sid listings

contains-add_key :
    (k sid : String) (keys : List String)
    → contains (add_key k keys) sid ≡ (k =ₜ sid || contains keys sid)
unfolding add_key
contains-add_key k sid keys = elim (Bool-cases (contains keys k)) [
  | inr missing ↦ rw missing refl
  | inl there ↦ rw there (elim (Bool-cases (k =ₜ sid)) [
    | inr other ↦ rw other refl
    | inl same ↦ rw same (subst (λ s. contains keys s ≡ true) ((eq_iff k sid).0 same) there)
  ])
]

module _ (sep : ℕ) (registered : List String) (want : String) where
  -- Who is a member of the set by what was listed.
  abbrev pub is_member : (sid : String) → List (List VirtualMachine) → Bool
  is_member sid listings = contains registered sid && any_tagged sep want sid listings

  one-member :
      (vm : VirtualMachine) (members : List String) (sid : String)
      → contains
          (if contains registered (vm_sid vm.vmid) && has_tag sep vm.tags want
            then add_key (vm_sid vm.vmid) members
            else members)
          sid
        ≡ (contains members sid
            || (contains registered sid && (vm_sid vm.vmid =ₜ sid && has_tag sep vm.tags want)))
  one-member vm members sid = elim (Bool-cases (vm_sid vm.vmid =ₜ sid)) [
    | inl same ↦
        let e : contains registered (vm_sid vm.vmid) ≡ contains registered sid =
          ap (λ s. contains registered s) ((eq_iff (vm_sid vm.vmid) sid).0 same) in
        ground (arith, contains-add_key (vm_sid vm.vmid) sid members, same, e)
    | inr other ↦ ground (arith, contains-add_key (vm_sid vm.vmid) sid members, other)
  ]

  pub contains-add_members :
      (vms : List VirtualMachine) (members : List String) (sid : String)
      → contains (add_members sep registered want vms members) sid
        ≡ (contains members sid || (contains registered sid && has_tagged sep want sid vms))
  unfolding add_members
  contains-add_members [] members sid = ground arith
  contains-add_members (vm ∷ vms) members sid =
      contains-add_members vms _ sid ∙ ground (arith, one-member vm members sid)

module _ {S : Type 0} (client : Client S) where
  -- The listings that Proxmox gave of the machines of the nodes that are online, in the order of the nodes.
  pub data Listed : List NodeInfo → List (List VirtualMachine) → Type 0 where
    done : Listed [] []
    offline :
        (info : NodeInfo) {infos : List NodeInfo} {listings : List (List VirtualMachine)}
        → (info.status =ₜ node_online) ≡ false
        → Listed infos listings
        → Listed (info ∷ infos) listings
    online :
        (info : NodeInfo) (known_as : String) (vms : List VirtualMachine) {infos : List NodeInfo}
        {listings : List (List VirtualMachine)}
        → (info.status =ₜ node_online) ≡ true
        → Answers client (node info.node) (ok known_as)
        → Answers client (virtual_machines known_as) (ok vms)
        → Listed infos listings
        → Listed (info ∷ infos) (vms ∷ listings)

  module _ (sep : ℕ) (registered : List String) (want : String) where
    -- The members that the scan found, beside those that it started with.
    abbrev pub Adds : List NodeInfo → List String → List String → World S → Type 0
    Adds infos members found w =
        (listings : List (List VirtualMachine)) × Listed infos listings
        × ((sid : String)
            → contains found sid
              ≡ (contains members sid || is_member sep registered want sid listings))

    Adds-none : (members : List String) (w : World S) → Adds [] members members w
    Adds-none members w = ([], done, λ sid. ground arith)

    Adds-offline :
        (info : NodeInfo) (rest : List NodeInfo) (members : List String)
        → (info.status =ₜ node_online) ≡ false
        → (found : List String) (w : World S) → Adds rest members found w
        → Adds (info ∷ rest) members found w
    Adds-offline info rest members off found w (listings, listed, same) =
        (listings, offline info off listed, same)

    Adds-online :
        (info : NodeInfo) (known_as : String) (vms : List VirtualMachine) (rest : List NodeInfo)
        (members : List String)
        → (info.status =ₜ node_online) ≡ true
        → Answers client (node info.node) (ok known_as)
        → Answers client (virtual_machines known_as) (ok vms)
        → (found : List String) (w : World S)
        → Adds rest (add_members sep registered want vms members) found w
        → Adds (info ∷ rest) members found w
    Adds-online info known_as vms rest members on named said found w (listings, listed, same) = (
      vms ∷ listings,
      online info known_as vms on named said listed,
      λ sid. same sid ∙ ground (arith, contains-add_members sep registered want vms members sid),
    )

    pub scan_members-Adds :
        (infos : List NodeInfo) (members : List String)
        → Ends
            (λ _. Unit {0})
            (scan_members client sep registered want infos members)
            (OnOk (Adds infos members))
    unfolding scan_members
    scan_members-Adds [] members = Ends-pure members (λ w _. Adds-none members w)
    scan_members-Adds (ns ∷ rest) members =
        Ends-if (not (ns.status =ₜ node_online)) _ _
          (λ off.
            Ends-ok _ (scan_members-Adds rest members)
              (Adds-offline ns rest members (ground (arith, off))))
          λ on.
            Ends-bind {Q = OnOk (λ n _. Answers client (node ns.node) (ok n))} _ _
              (Ends-map_error _ _ (Ends-weaken _ (asked client (node ns.node)))) (λ e w h. tt)
              λ name. Ends-given (Answers client (node ns.node) (ok name)) _ λ named.
                Ends-bind {Q = OnOk (λ vms _. Answers client (virtual_machines name) (ok vms))} _ _
                  (Ends-map_error _ _ (Ends-weaken _ (asked client (virtual_machines name))))
                  (λ e w h. tt)
                  λ vms. Ends-given (Answers client (virtual_machines name) (ok vms)) _ λ said.
                    Ends-ok _ (scan_members-Adds rest (add_members sep registered want vms members))
                      (Adds-online ns name vms rest members (ground (arith, on)) named said)
