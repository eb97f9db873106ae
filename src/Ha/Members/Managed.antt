-- ===== src/Ha/Members/Managed.antt =====
-- `setMembers`: the members that it returns.
use Prim.Native.String.{compare as compare_text}
use mathlib.Core.List.{Permᴰ}
use mathlib.Core.List.Permᴰ
use omni_infra_provider_prox.Base.{
  ℕ, String, ◌≡◌, ◌∙◌, refl, sym, ap, subst, true, false, not, ◌&&◌, Option, none, some, List, [],
  ◌∷◌, inl, inr, arith, ◌=ₜ◌, if◌then◌else◌, All, Memᴰ, contains, eq_iff, Bool-cases, ◌^^◌,
}
use omni_infra_provider_prox.Errors.{Result, ok, err, wrap}
use omni_infra_provider_prox.Api.{Client, NodeInfo, VirtualMachine, ha_resources, nodes}
use omni_infra_provider_prox.Exec.{World, pure, attempt, map_error, call, ◌>>=◌}
use omni_infra_provider_prox.Exec.Triples.{
  Ends, Ends-ok, OnOk, Ends-any, Ends-given, Ends-pure, Ends-if, Ends-bind,
}
use omni_infra_provider_prox.Sorting.Orders.{All-perm}
use omni_infra_provider_prox.Sorting.Insertion.{insertion_sort, insertion_sort-IsSort}
use omni_infra_provider_prox.Ha.Classify.{classified}
use omni_infra_provider_prox.Ha.Names.{has_tag, machine_request_tag, vm_sid}
use omni_infra_provider_prox.Ha.Members.{
  node_online, add_key, registered_sids, add_members, tolerate, scan_members, set_members,
}

-- No text stands twice.
abbrev pub Distinct : List String → Type 0
Distinct [] = Unit {0}
Distinct (x ∷ xs) = (contains xs x ≡ false) × Distinct xs

pub contains-perm : (s : String) {xs ys : List String} → Permᴰ xs ys → contains xs s ≡ contains ys s
contains-perm s Permᴰ.nil = refl
contains-perm s (Permᴰ.cons e p) = ground (arith, e, contains-perm s p)
contains-perm s (Permᴰ.swap e f) = ground (arith, e, f)
contains-perm s (Permᴰ.trans p q) = contains-perm s p ∙ contains-perm s q

perm-Distinct : {xs ys : List String} → Permᴰ xs ys → Distinct xs → Distinct ys
perm-Distinct Permᴰ.nil d = tt
perm-Distinct (Permᴰ.cons {a = a} {b = b} {l₂ = ys} e p) d =
    (subst (λ x. contains ys x ≡ false) e (sym (contains-perm a p) ∙ d.0), perm-Distinct p d.1)
perm-Distinct (Permᴰ.swap {a = a} {b = b} e f) d = ground (arith, e, f, eq_iff a b, eq_iff b a)
perm-Distinct (Permᴰ.trans p q) d = perm-Distinct q (perm-Distinct p d)

registered-listed :
    (regs : List (Option String)) (sid : String)
    → contains (registered_sids regs) sid ≡ true
    → Memᴰ (some sid) regs
unfolding registered_sids add_key
registered-listed [] sid h = absurd (ground arith)
registered-listed (none ∷ rs) sid h = Memᴰ.tail (registered-listed rs sid h)
registered-listed (some s ∷ rs) sid h = elim (Bool-cases (s =ₜ sid)) [
  | inl same ↦ Memᴰ.head (ap (λ t. some t) (sym ((eq_iff s sid).0 same)))
  | inr other ↦ Memᴰ.tail (registered-listed rs sid (ground arith))
]

-- Every member is registered, and none stands twice.
abbrev pub AreManaged : List String → List String → Type 0
AreManaged registered members =
    All (λ sid. contains registered sid ≡ true) members × Distinct members

add_key-AreManaged :
    (registered members : List String) (sid : String)
    → contains registered sid ≡ true
    → AreManaged registered members
    → AreManaged registered (add_key sid members)
unfolding add_key
add_key-AreManaged registered members sid h m = elim (Bool-cases (contains members sid)) [
  | inl there ↦ rw there m
  | inr missing ↦ rw missing ((h, m.0), (missing, m.1))
]

module _ (sep : ℕ) (registered : List String) (want : String) where
  add_members-AreManaged :
      (vms : List VirtualMachine) (members : List String)
      → AreManaged registered members
      → AreManaged registered (add_members sep registered want vms members)
  unfolding add_members
  add_members-AreManaged [] members m = m
  add_members-AreManaged (vm ∷ vms) members m = add_members-AreManaged vms _ (added vm)
    where
      added :
          (vm : VirtualMachine)
          → AreManaged registered (
              if contains registered (vm_sid vm.vmid) && has_tag sep vm.tags want
              then add_key (vm_sid vm.vmid) members
              else members)
      added vm = elim (Bool-cases (contains registered (vm_sid vm.vmid))) [
        | inr missing ↦ rw missing m
        | inl there ↦ elim (Bool-cases (has_tag sep vm.tags want)) [
          | inl tagged ↦
              rw (there, tagged) (add_key-AreManaged registered members (vm_sid vm.vmid) there m)
          | inr other ↦ rw (there, other) m
        ]
      ]

  scan_members-AreManaged :
      {S : Type 0} (client : Client S) (infos : List NodeInfo) (members : List String)
      → AreManaged registered members
      → Ends
          (λ _. Unit {0})
          (scan_members client sep registered want infos members)
          (OnOk (λ ms w. AreManaged registered ms))
  unfolding scan_members
  scan_members-AreManaged client [] members m = Ends-pure members (λ w _. m)
  scan_members-AreManaged client (ns ∷ rest) members m =
      Ends-if (not (ns.status =ₜ node_online)) _ _
        (λ _. scan_members-AreManaged client rest members m)
        λ _.
          Ends-bind _ _ (Ends-any _) (λ e w h. tt)
            λ name.
              Ends-bind _ _ (Ends-any _) (λ e w h. tt)
                λ vms. scan_members-AreManaged client rest _ (add_members-AreManaged vms members m)

module _ {S : Type 0} (client : Client S) (regs : List (Option String)) where
  abbrev Managed : List String → World S → Type 0
  Managed ms w = All (λ sid. Memᴰ (some sid) regs) ms × Distinct ms

  all_listed :
      (ms : List String)
      → All (λ sid. contains (registered_sids regs) sid ≡ true) ms
      → All (λ sid. Memᴰ (some sid) regs) ms
  all_listed [] h = tt
  all_listed (m ∷ ms) h = (registered-listed regs m h.0, all_listed ms h.1)

  self-AreManaged :
      (self : String)
      → AreManaged
          (registered_sids regs)
          (if contains (registered_sids regs) self then self ∷ [] else [])
  self-AreManaged self = elim (Bool-cases (contains (registered_sids regs) self)) [
    | inl there ↦ rw there ((there, tt), (refl, tt))
    | inr missing ↦ rw missing (tt, tt)
  ]

  sorted-Managed :
      (ms : List String)
      → AreManaged (registered_sids regs) ms
      → (w : World S) → Managed (insertion_sort compare_text ms) w
  sorted-Managed ms m w =
      let order = Permᴰ.symm (insertion_sort-IsSort.perm compare_text ms) in
      (
        all_listed _ (All-perm (λ sid. contains (registered_sids regs) sid ≡ true) order m.0),
        perm-Distinct order m.1,
      )

  listing :
      Ends
        (λ w. (client ha_resources w.server).0 ≡ ok regs)
        (attempt (classified (call client ha_resources)))
        (OnOk (λ listed w. listed ≡ ok regs))
  unfolding attempt map_error call
  listing = record { at = λ w e. rw e refl }

  tolerated :
      (listed : Result (List (Option String)))
      → Ends (λ _. listed ≡ ok regs) (tolerate {S = S} listed) (OnOk (λ rs w. rs ≡ regs))
  tolerated (ok rs) = Ends-pure rs (λ w e. ground arith)
  tolerated (err x) = Ends-given _ _ (λ e. absurd (ground arith))

  scanned :
      (sep : ℕ) (set self : String) (rs : List (Option String))
      → rs ≡ regs
      → Ends
          (λ _. Unit {0})
          (map_error (λ e. wrap "failed to list nodes: " e "") (call client nodes) >>= λ infos.
            scan_members client sep
              (registered_sids rs)
              (machine_request_tag ^^ set)
              infos
              (if contains (registered_sids rs) self then self ∷ [] else [])
            >>= λ members. pure (insertion_sort compare_text members))
          (OnOk Managed)
  scanned sep set self rs e =
      subst
        (λ r.
          Ends (λ _. Unit {0})
            (map_error (λ e. wrap "failed to list nodes: " e "") (call client nodes) >>= λ infos.
              scan_members client sep (registered_sids r) (machine_request_tag ^^ set) infos
                (if contains (registered_sids r) self then self ∷ [] else [])
              >>= λ members. pure (insertion_sort compare_text members))
            (OnOk Managed))
        (sym e)
        (Ends-bind _ _ (Ends-any _) (λ e w h. tt)
          λ infos.
            Ends-bind _ _
              (scan_members-AreManaged sep (registered_sids regs) (machine_request_tag ^^ set)
                client infos _ (self-AreManaged self))
              (λ e w h. tt)
              (λ members. Ends-given _ _ λ m. Ends-pure _ (λ w _. sorted-Managed members m w)))

  -- If Proxmox answered with a list of HA resources: when `setMembers` succeeds, every sid that it
  -- returns is the sid of one of these resources, and none stands twice.
  pub set_members-AreManaged :
      (sep : ℕ) (set self : String) (w : World S) (ms : List String)
      → (client ha_resources w.server).0 ≡ ok regs
      → (set_members client sep set self w).0 ≡ ok ms
      → All (λ sid. Memᴰ (some sid) regs) ms × Distinct ms
  unfolding set_members
  set_members-AreManaged sep set self w ms answer h =
      let steps : Ends (λ w. (client ha_resources w.server).0 ≡ ok regs)
          (set_members client sep set self) (OnOk Managed) =
        Ends-bind _ _ listing (λ e w h. tt)
          λ listed.
            Ends-bind _ _ (tolerated listed) (λ e w h. tt)
              λ rs. Ends-given _ _ (scanned sep set self rs) in
      subst (λ r. OnOk Managed r (set_members client sep set self w).1) h (steps.at w answer)

-- Whatever Proxmox answers, `setMembers` returns no sid twice.
pub set_members-Distinct :
    {S : Type 0} (client : Client S) (sep : ℕ) (set self : String)
    → Ends
        (λ _. Unit {0})
        (set_members client sep set self)
        (OnOk (λ ms (_ : World S). Distinct ms))
unfolding set_members
set_members-Distinct client sep set self =
    Ends-bind _ _ (Ends-any _) (λ e w h. tt)
      λ listed.
        Ends-bind _ _ (Ends-any _) (λ e w h. tt)
          λ rs. Ends-ok _ (scanned client rs sep set self rs refl) (λ ms w h. h.1)
