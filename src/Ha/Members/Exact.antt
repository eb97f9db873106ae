-- ===== src/Ha/Members/Exact.antt =====
-- `setMembers`: exactly which members it returns.
use Prim.Native.String.{compare as compare_text}
use omni_infra_provider_prox.Base.{
  ℕ, String, ◌≡◌, ◌∙◌, refl, sym, ap, subst, Bool, true, ◌&&◌, ◌||◌, Option, ◌⊎◌, inl, inr, List,
  [], ◌∷◌, arith, ◌=ₜ◌, if◌then◌else◌, contains, eq_iff, Bool-cases, ◌^^◌,
}
use omni_infra_provider_prox.Errors.{Error, Result, ok, err, errors_is, not_found}
use omni_infra_provider_prox.Api.{Client, NodeInfo, VirtualMachine, ha_resources, nodes}
use omni_infra_provider_prox.Exec.{World, attempt, map_error, map_result, call}
use omni_infra_provider_prox.Exec.Triples.{
  Answers, asked, Ends, OnOk, Ends-given, Ends-pure, Ends-fail, Ends-if, Ends-weaken, Ends-bind,
  Ends-map_error,
}
use omni_infra_provider_prox.Sorting.Insertion.{insertion_sort, insertion_sort-IsSort}
use omni_infra_provider_prox.Ha.Classify.{classify, classified}
use omni_infra_provider_prox.Ha.Names.{machine_request_tag}
use omni_infra_provider_prox.Ha.Members.{registered_sids, tolerate, set_members}
use omni_infra_provider_prox.Ha.Members.Managed.{contains-perm}
use omni_infra_provider_prox.Ha.Members.Listings.{any_tagged, Listed, Adds, scan_members-Adds}

module _ {S : Type 0} (client : Client S) where
  -- The registered resources, as Proxmox answered; none, if it answered that it found none.
  abbrev pub IsRead : List (Option String) → Type 0
  IsRead regs =
      Answers client ha_resources (ok regs)
      ⊎ ((regs ≡ [])
          × ((e : Error) × Answers client ha_resources (err e)
              × (errors_is (classify e) not_found ≡ true)))

  -- The members `ms` are those that are registered, and are the machine itself or a machine with the tag of
  -- the set in a listing of a node that is online.
  pub record IsExact (sep : ℕ) (set self : String) (ms : List String) : Type 0 where
    pub regs : List (Option String)
    pub read : IsRead regs
    pub infos : List NodeInfo
    pub nodes_listed : Answers client nodes (ok infos)
    pub listings : List (List VirtualMachine)
    pub machines_listed : Listed client infos listings
    pub exact :
        (sid : String)
        → contains ms sid ≡ (
            contains (registered_sids regs) sid
            && (self =ₜ sid || any_tagged sep (machine_request_tag ^^ set) sid listings))

  -- What the listing of the resources came to.
  abbrev Seen : Result (List (Option String)) → World S → Type 0
  Seen (ok rs) w = Answers client ha_resources (ok rs)
  Seen (err x) w = (e : Error) × Answers client ha_resources (err e) × (x ≡ classify e)

  seen : Ends (λ _. Unit {0}) (attempt (classified (call client ha_resources))) (OnOk Seen)
  unfolding attempt map_error call
  seen = record {
    at = λ w _. told w.server (client ha_resources w.server).0 refl (call client ha_resources w).1;
  }
    where
      told :
          (s : S) (r : Result (List (Option String)))
          → (client ha_resources s).0 ≡ r
          → (w : World S) → Seen (map_result classify r) w
      told s (ok rs) e w = (s, e)
      told s (err x) e w = (x, (s, e), refl)

  tolerated :
      (listed : Result (List (Option String)))
      → Ends (Seen listed) (tolerate listed) (OnOk (λ regs _. IsRead regs))
  tolerated (ok rs) = Ends-pure rs (λ w said. inl said)
  tolerated (err x) =
      Ends-if (errors_is x not_found) _ _
        (λ missing. Ends-pure [] (λ w said.
          inr (refl, (said.0, said.1, ap (λ y. errors_is y not_found) (sym said.2) ∙ missing))))
        (λ _. Ends-fail _ (λ w _. tt))

  module _ (sep : ℕ) (set self : String) where
    abbrev tag : String
    tag = machine_request_tag ^^ set

    abbrev own : List (Option String) → List String
    own regs = if contains (registered_sids regs) self then self ∷ [] else []

    with_own :
        (regs : List (Option String)) (sid : String) (tagged : Bool)
        → (contains (own regs) sid || (contains (registered_sids regs) sid && tagged))
          ≡ (contains (registered_sids regs) sid && (self =ₜ sid || tagged))
    with_own regs sid tagged = elim (Bool-cases (self =ₜ sid)) [
      | inl same ↦
          let e : contains (registered_sids regs) self ≡ contains (registered_sids regs) sid =
            ap (λ s. contains (registered_sids regs) s) ((eq_iff self sid).0 same) in
          ground (arith, e, same)
      | inr other ↦ ground (arith, other)
    ]

    sorted-IsExact :
        (regs : List (Option String)) (infos : List NodeInfo) (found : List String) (w : World S)
        → IsRead regs
        → Answers client nodes (ok infos)
        → Adds client sep (registered_sids regs) tag infos (own regs) found w
        → IsExact sep set self (insertion_sort compare_text found)
    sorted-IsExact regs infos found w read said (listings, listed, same) = record {
      regs = regs;
      read = read;
      infos = infos;
      nodes_listed = said;
      listings = listings;
      machines_listed = listed;
      exact = λ sid.
          contains-perm sid (insertion_sort-IsSort.perm compare_text found)
          ∙ same sid
          ∙ with_own regs sid (any_tagged sep tag sid listings);
    }

    set_members-Ends :
        Ends
          (λ _. Unit {0})
          (set_members client sep set self)
          (OnOk (λ ms _. IsExact sep set self ms))
    unfolding set_members
    set_members-Ends =
        Ends-bind _ _ seen (λ e w h. tt)
          λ listed.
            Ends-bind _ _ (tolerated listed) (λ e w h. tt)
              λ regs. Ends-given (IsRead regs) _ λ read.
                Ends-bind {Q = OnOk (λ infos _. Answers client nodes (ok infos))} _ _
                  (Ends-map_error _ _ (Ends-weaken _ (asked client nodes))) (λ e w h. tt)
                  λ infos. Ends-given (Answers client nodes (ok infos)) _ λ said.
                    Ends-bind _ _
                      (scan_members-Adds client sep (registered_sids regs) tag infos (own regs))
                      (λ e w h. tt)
                      λ found.
                        Ends-pure _ (λ w adds. sorted-IsExact regs infos found w read said adds)

    -- When `setMembers` succeeds, it returns exactly the sids that are registered, by the list of HA
    -- resources that Proxmox gave, and that are the machine's own or that of a machine with the tag of
    -- the set in the listings that Proxmox gave of all nodes that it lists as online.
    pub set_members-IsExact :
        (w : World S) (ms : List String)
        → (set_members client sep set self w).0 ≡ ok ms
        → IsExact sep set self ms
    set_members-IsExact w ms h =
        subst (λ r. OnOk (λ ms _. IsExact sep set self ms) r (set_members client sep set self w).1)
          h (set_members-Ends.at w tt)
