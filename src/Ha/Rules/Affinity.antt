-- ===== src/Ha/Rules/Affinity.antt =====
-- The affinity rules of a machine request set: what is sent.
use omni_infra_provider_prox.Base.{
  subst, ℕ, ◌≤◌, ltb, String, ◌≡◌, refl, false, List, [], ◌∷◌, arith, join, length, zero, suc,
}
use omni_infra_provider_prox.Errors.{Result, ok, err}
use omni_infra_provider_prox.Api.{
  Client, Request, NodeInfo, new_ha_rule, ha_rule, ha_rule_update, ha_resources, nodes, node,
  virtual_machines,
}
use omni_infra_provider_prox.Exec.{World, M, call}
use omni_infra_provider_prox.Exec.Triples.{OnOk}
use omni_infra_provider_prox.Ha.Members.Managed.{Distinct, set_members-Distinct}
use omni_infra_provider_prox.Exec.Rules.{
  Sends, Sends-after, Sends-bind, Sends-if, Sends-pure, Sends-attempt, Sends-map_error, Sends-call,
  sends_rules,
}
use omni_infra_provider_prox.Ha.Classify.{classify, classified}
use omni_infra_provider_prox.Ha.Options.{Config}
use omni_infra_provider_prox.Ha.Names.{rule_name, resource_affinity_suffix}
use omni_infra_provider_prox.Ha.Members.{set_members, scan_members, tolerate}
use omni_infra_provider_prox.Ha.Rules.{
  get_rule, after_update, add_round, add_rounds, add_to_rule, after_create, create_or_adopt,
  create_resource_affinity, after_add, ensure_resource_affinity, soft,
}

-- What the step for the resource-affinity rule may send: reads, edits of that rule, and its creation
-- with two different members at least.
abbrev pub IsAffinityRequest : String → Request → Type 0
IsAffinityRequest name (ha_rule n) = n ≡ name
IsAffinityRequest name (ha_rule_update n opt) = n ≡ name
IsAffinityRequest name ha_resources = Unit {0}
IsAffinityRequest name nodes = Unit {0}
IsAffinityRequest name (node n) = Unit {0}
IsAffinityRequest name (virtual_machines n) = Unit {0}
IsAffinityRequest name (new_ha_rule opt) =
    (opt.rule ≡ name)
    × (opt.rule_type ≡ "resource-affinity")
    × (members : List String) × (opt.resources ≡ join "," members)
    × (2 ≤ length members)
    × Distinct members
IsAffinityRequest name _ = ⊥

at_least_two : (l : List String) → ltb (length l) 2 ≡ false → 2 ≤ length l
at_least_two l h = ground arith

module _ {S : Type 0} (client : Client S) (name : String) where
  abbrev Fits : {A : Type 0} → M S A → Type 0
  Fits m = Sends (IsAffinityRequest name) m

  get_rule-Fits : Fits (get_rule client name)
  unfolding get_rule
  get_rule-Fits = Sends-map_error classify _ (Sends-call client (ha_rule name) refl)

  after_update-Fits :
      (sid : String) (again : M S (Unit {0})) (r : Result (Unit {0}))
      → Fits again
      → Fits (after_update client name sid again r)
  unfolding after_update
  after_update-Fits sid again (ok _) h = search sends_rules
  after_update-Fits sid again (err e) h = search sends_rules

  add_round-Fits :
      (sid : String) (again : M S (Unit {0})) → Fits again → Fits (add_round client name sid again)
  unfolding add_round
  add_round-Fits sid again h = search (sends_rules, get_rule-Fits, after_update-Fits) depth 9

  add_rounds-Fits : (n : ℕ) (sid : String) → Fits (add_rounds client n name sid)
  unfolding add_rounds
  add_rounds-Fits zero sid = search sends_rules
  add_rounds-Fits (suc n) sid = add_round-Fits sid _ (add_rounds-Fits n sid)

  add_to_rule-Fits : (sid : String) → Fits (add_to_rule client name sid)
  unfolding add_to_rule
  add_to_rule-Fits sid = add_rounds-Fits 10 sid

  scan_members-Fits :
      (tag_separator : ℕ) (registered : List String) (want : String) (infos : List NodeInfo)
      (members : List String)
      → Fits (scan_members client tag_separator registered want infos members)
  unfolding scan_members
  scan_members-Fits sep reg want [] members = search sends_rules
  scan_members-Fits sep reg want (ns ∷ rest) members =
      let more = λ (ms : List String). scan_members-Fits sep reg want rest ms in
      search (sends_rules, more) depth 9

  tolerate-Fits : (r : Result _) → Fits (tolerate {S = S} r)
  tolerate-Fits (ok rs) = search sends_rules
  tolerate-Fits (err e) = search sends_rules

  set_members-Fits :
      (tag_separator : ℕ) (set self : String) → Fits (set_members client tag_separator set self)
  unfolding set_members
  set_members-Fits sep set self =
      search (sends_rules, tolerate-Fits, scan_members-Fits, tt) depth 12

  after_create-Fits : (sid : String) (r : Result (Unit {0})) → Fits (after_create client name sid r)
  unfolding after_create
  after_create-Fits sid (ok _) = search sends_rules
  after_create-Fits sid (err e) = search (sends_rules, add_to_rule-Fits)

  create_or_adopt-Fits :
      (sid : String) (create : M S (Unit {0}))
      → Fits create
      → Fits (create_or_adopt client name sid create)
  unfolding create_or_adopt
  create_or_adopt-Fits sid create h = search (sends_rules, after_create-Fits)

  soft-Fits : (r : Result (Unit {0})) → Fits (soft client r)
  soft-Fits (ok _) = search sends_rules
  soft-Fits (err e) = search sends_rules

  create_rule-Fits :
      (members : List String) (affinity : String)
      → 2 ≤ length members
      → Distinct members
      → Fits (
          classified (
            call client (
              new_ha_rule (record {
                rule = name;
                rule_type = "resource-affinity";
                resources = join "," members;
                nodes = "";
                strict = false;
                affinity = affinity;
              }))))
  create_rule-Fits members affinity h d = Sends-map_error classify _ (
      Sends-call client
        (new_ha_rule (record {
          rule = name;
          rule_type = "resource-affinity";
          resources = join "," members;
          nodes = "";
          strict = false;
          affinity = affinity;
        }))
        (refl, refl, members, refl, h, d))

  create_resource_affinity-Fits :
      (tag_separator : ℕ) (set sid : String) (cfg : Config)
      → Fits (create_resource_affinity client tag_separator name set sid cfg)
  unfolding create_resource_affinity
  create_resource_affinity-Fits sep set sid cfg =
      Sends-after _ _ (set_members-Fits sep set sid) λ w members e.
        Sends-if (ltb (length members) 2) _ _ (λ _. Sends-pure tt)
          λ enough.
            Sends-bind _ _
              (Sends-attempt _ (
                create_or_adopt-Fits sid _ (
                  create_rule-Fits members cfg.resource_affinity (at_least_two members enough)
                    (distinct w members e))))
              soft-Fits
    where
      distinct :
          (w : World S) (members : List String)
          → (set_members client sep set sid w).0 ≡ ok members
          → Distinct members
      distinct w members e =
          subst (λ r. OnOk (λ ms (_ : World S). Distinct ms) r (set_members client sep set sid w).1)
            e ((set_members-Distinct client sep set sid).at w tt)

  after_add-Fits :
      (tag_separator : ℕ) (set sid : String) (cfg : Config) (r : Result (Unit {0}))
      → Fits (after_add client tag_separator name set sid cfg r)
  unfolding after_add
  after_add-Fits sep set sid cfg (ok _) = search sends_rules
  after_add-Fits sep set sid cfg (err e) = search (sends_rules, create_resource_affinity-Fits)

-- The step for the resource-affinity rule never deletes or registers anything, edits no rule but
-- the set's own, and creates that one with two members at least, as Proxmox asks, of which none
-- stands twice.
pub ensure_resource_affinity-Sends :
    {S : Type 0} (client : Client S) (tag_separator : ℕ) (set sid : String) (cfg : Config)
    → Sends
        (IsAffinityRequest (rule_name set resource_affinity_suffix))
        (ensure_resource_affinity client tag_separator set sid cfg)
unfolding ensure_resource_affinity
ensure_resource_affinity-Sends client sep set sid cfg = search (
  sends_rules,
  add_to_rule-Fits client (rule_name set resource_affinity_suffix),
  after_add-Fits client (rule_name set resource_affinity_suffix),
)
