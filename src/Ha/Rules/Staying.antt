-- ===== src/Ha/Rules/Staying.antt =====
-- The editing of the rules, and the rules that have the machine already.
use omni_infra_provider_prox.Base.{
  ℕ, zero, suc, ltb, String, ◌≡◌, ◌∙◌, refl, sym, ap, subst, true, false, Option, List, [], ◌∷◌,
  ◌=ₜ◌, contains, contains-append_self, length, eq_iff, Bool-cases, inl, inr,
}
use omni_infra_provider_prox.Errors.{Result, ok, err}
use omni_infra_provider_prox.Api.{
  Client, Request, NodeInfo, HaRule, HaRuleCreateOption, ha_rule, ha_rule_update, new_ha_rule,
}
use omni_infra_provider_prox.Exec.{World, M, call}
use omni_infra_provider_prox.Ha.Classify.{classify, classified}
use omni_infra_provider_prox.Ha.Names.{split_csv}
use omni_infra_provider_prox.Ha.Names.Csv.{IsMember}
use omni_infra_provider_prox.Ha.Options.{Config}
use omni_infra_provider_prox.Ha.Members.{tolerate, scan_members, set_members}
use omni_infra_provider_prox.Ha.Rules.{
  with_member, get_rule, after_update, add_round, add_rounds, add_to_rule, after_create,
  create_or_adopt, soft, create_resource_affinity, after_add, ensure_resource_affinity,
  add_to_rules,
}
use omni_infra_provider_prox.Ha.Rules.Editing.{HasMember, sent_members}
use omni_infra_provider_prox.Ha.Rules.Sharing.{
  edits, IsSharedStore, Stays, Stays-pure, Stays-attempt, Stays-map_error, Stays-if, Stays-bind,
  stay_rules,
}

module _ {S : Type 0} (client : Client S) (rules : S → String → Option HaRule)
    (shared : IsSharedStore client rules) (sid : String) (member : IsMember sid)
    (name : String) where
  abbrev Kept : {A : Type 0} → M S A → Type 0
  Kept m = Stays rules name sid m

  call-Kept : (r : Request) → edits name r ≡ false → Kept (call client r)
  unfolding call
  call-Kept r e = record { at = λ w h. shared.keeps w.server r name sid e h }

  has_member : (rule : HaRule) → contains (split_csv (with_member rule sid).resources) sid ≡ true
  unfolding with_member
  has_member rule =
      ap (λ l. contains l sid) (sent_members rule.resources sid member)
      ∙ contains-append_self (split_csv rule.resources) sid

  own_update-Kept :
      (rule : HaRule) → Kept (call client (ha_rule_update name (with_member rule sid)))
  unfolding call
  own_update-Kept rule = record {
    at = λ w h. answered w h (client (ha_rule_update name (with_member rule sid)) w.server).0 refl;
  }
    where
      answered :
          (w : World S)
          → HasMember rules w.server name sid
          → (a : Result (Unit {0}))
          → (client (ha_rule_update name (with_member rule sid)) w.server).0 ≡ a
          → HasMember rules
              (client (ha_rule_update name (with_member rule sid)) w.server).1
              name
              sid
      answered w h (ok _) e =
          let (r, there, all) = shared.store.writes w.server name (with_member rule sid) e in
          (r, there, all sid (has_member rule))
      answered w h (err x) e = shared.refuses w.server name sid (with_member rule sid) x e h

  update-Kept :
      (n : String) (rule : HaRule) → Kept (call client (ha_rule_update n (with_member rule sid)))
  update-Kept n rule = elim (Bool-cases (n =ₜ name)) [
    | inr other ↦ call-Kept (ha_rule_update n (with_member rule sid)) other
    | inl same ↦
        subst (λ m. Kept (call client (ha_rule_update m (with_member rule sid))))
          (sym ((eq_iff n name).0 same)) (own_update-Kept rule)
  ]

  get_rule-Kept : (n : String) → Kept (get_rule client n)
  unfolding get_rule
  get_rule-Kept n = Stays-map_error classify _ (call-Kept (ha_rule n) refl)

  after_update-Kept :
      (n : String) (again : M S (Unit {0})) (r : Result (Unit {0}))
      → Kept again
      → Kept (after_update client n sid again r)
  unfolding after_update
  after_update-Kept n again (ok _) h = search stay_rules
  after_update-Kept n again (err e) h = search stay_rules

  add_round-Kept :
      (n : String) (again : M S (Unit {0})) → Kept again → Kept (add_round client n sid again)
  unfolding add_round
  add_round-Kept n again h =
      search (stay_rules, get_rule-Kept, update-Kept, after_update-Kept) depth 9

  add_rounds-Kept : (k : ℕ) (n : String) → Kept (add_rounds client k n sid)
  unfolding add_rounds
  add_rounds-Kept zero n = search stay_rules
  add_rounds-Kept (suc k) n = add_round-Kept n _ (add_rounds-Kept k n)

  pub add_to_rule-Kept : (n : String) → Kept (add_to_rule client n sid)
  unfolding add_to_rule
  add_to_rule-Kept n = add_rounds-Kept 10 n

  pub add_to_rules-Kept : (names : List String) → Kept (add_to_rules client names sid)
  unfolding add_to_rules
  add_to_rules-Kept [] = Stays-pure tt
  add_to_rules-Kept (n ∷ ns) = Stays-bind _ _ (add_to_rule-Kept n) (λ _. add_to_rules-Kept ns)

  scan_members-Kept :
      (sep : ℕ) (registered : List String) (want : String) (infos : List NodeInfo)
      (members : List String)
      → Kept (scan_members client sep registered want infos members)
  unfolding scan_members
  scan_members-Kept sep reg want [] members = search stay_rules
  scan_members-Kept sep reg want (ns ∷ rest) members =
      let more = λ (ms : List String). scan_members-Kept sep reg want rest ms in
      search (stay_rules, call-Kept, more) depth 9

  tolerate-Kept : (r : Result (List (Option String))) → Kept (tolerate {S = S} r)
  tolerate-Kept (ok rs) = search stay_rules
  tolerate-Kept (err e) = search stay_rules

  set_members-Kept : (sep : ℕ) (set self : String) → Kept (set_members client sep set self)
  unfolding set_members
  set_members-Kept sep set self =
      search (stay_rules, call-Kept, tolerate-Kept, scan_members-Kept) depth 12

  after_create-Kept : (n : String) (r : Result (Unit {0})) → Kept (after_create client n sid r)
  unfolding after_create
  after_create-Kept n (ok _) = search stay_rules
  after_create-Kept n (err e) = search (stay_rules, add_to_rule-Kept)

  create_or_adopt-Kept :
      (n : String) (create : M S (Unit {0}))
      → Kept create
      → Kept (create_or_adopt client n sid create)
  unfolding create_or_adopt
  create_or_adopt-Kept n create h = search (stay_rules, after_create-Kept)

  soft-Kept : (r : Result (Unit {0})) → Kept (soft client r)
  soft-Kept (ok _) = search stay_rules
  soft-Kept (err e) = search stay_rules

  create_rule-Kept : (opt : HaRuleCreateOption) → Kept (classified (call client (new_ha_rule opt)))
  create_rule-Kept opt = Stays-map_error classify _ (call-Kept (new_ha_rule opt) refl)

  create_resource_affinity-Kept :
      (sep : ℕ) (n set : String) (cfg : Config)
      → Kept (create_resource_affinity client sep n set sid cfg)
  unfolding create_resource_affinity
  create_resource_affinity-Kept sep n set cfg =
      Stays-bind _ _ (set_members-Kept sep set sid) λ members.
        Stays-if (ltb (length members) 2) _ _ (Stays-pure tt) (
          Stays-bind _ _ (Stays-attempt _ (create_or_adopt-Kept n _ (create_rule-Kept _)))
            soft-Kept)

  after_add-Kept :
      (sep : ℕ) (n set : String) (cfg : Config) (r : Result (Unit {0}))
      → Kept (after_add client sep n set sid cfg r)
  unfolding after_add
  after_add-Kept sep n set cfg (ok _) = search stay_rules
  after_add-Kept sep n set cfg (err e) = search (stay_rules, create_resource_affinity-Kept)

  pub ensure_resource_affinity-Kept :
      (sep : ℕ) (set : String) (cfg : Config)
      → Kept (ensure_resource_affinity client sep set sid cfg)
  unfolding ensure_resource_affinity
  ensure_resource_affinity-Kept sep set cfg =
      search (stay_rules, add_to_rule-Kept, after_add-Kept) depth 9
