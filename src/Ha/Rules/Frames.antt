-- ===== src/Ha/Rules/Frames.antt =====
-- What the work on the affinity rules leaves alone: whatever requests do not reach.
use omni_infra_provider_prox.Base.{
  ℕ, zero, suc, String, refl, Bool, true, false, Option, List, [], ◌∷◌, ltb, length,
}
use omni_infra_provider_prox.Errors.{Result, ok, err}
use omni_infra_provider_prox.Api.{Client, NodeInfo, HaRuleCreateOption, ha_rule, new_ha_rule}
use omni_infra_provider_prox.Exec.{World, M, call}
use omni_infra_provider_prox.Exec.Frames.{
  IsStable, Keeps, Keeps-call, Keeps-map_error, Keeps-bind, Keeps-if, Keeps-pure, Keeps-attempt,
  frame_rules,
}
use omni_infra_provider_prox.Ha.Options.{Config}
use omni_infra_provider_prox.Ha.Classify.{classify, classified}
use omni_infra_provider_prox.Ha.Members.{tolerate, scan_members, set_members}
use omni_infra_provider_prox.Ha.Rules.{
  get_rule, after_update, add_round, add_rounds, add_to_rule, after_create, create_or_adopt,
  after_node_affinity, ensure_node_affinity, soft, create_resource_affinity, after_add,
  ensure_resource_affinity, add_to_rules, when_m, sync_rules,
}

module _ {S : Type 0} (client : Client S) (inv : World S → Type 0)
    (local : IsStable client inv) where
  get_rule-Keeps : (name : String) → Keeps inv (get_rule client name)
  unfolding get_rule
  get_rule-Keeps name = Keeps-map_error classify _ (Keeps-call client (ha_rule name) refl local)

  after_update-Keeps :
      (name sid : String) (again : M S (Unit {0})) (r : Result (Unit {0}))
      → Keeps inv again
      → Keeps inv (after_update client name sid again r)
  unfolding after_update
  after_update-Keeps name sid again (ok _) h = search frame_rules
  after_update-Keeps name sid again (err e) h = search frame_rules

  add_round-Keeps :
      (name sid : String) (again : M S (Unit {0}))
      → Keeps inv again
      → Keeps inv (add_round client name sid again)
  unfolding add_round
  add_round-Keeps name sid again h =
      search (frame_rules, get_rule-Keeps, after_update-Keeps) depth 9

  add_rounds-Keeps : (n : ℕ) (name sid : String) → Keeps inv (add_rounds client n name sid)
  unfolding add_rounds
  add_rounds-Keeps zero name sid = search frame_rules
  add_rounds-Keeps (suc n) name sid = add_round-Keeps name sid _ (add_rounds-Keeps n name sid)

  add_to_rule-Keeps : (name sid : String) → Keeps inv (add_to_rule client name sid)
  unfolding add_to_rule
  add_to_rule-Keeps name sid = add_rounds-Keeps 10 name sid

  after_create-Keeps :
      (name sid : String) (r : Result (Unit {0})) → Keeps inv (after_create client name sid r)
  unfolding after_create
  after_create-Keeps name sid (ok _) = search frame_rules
  after_create-Keeps name sid (err e) = search (frame_rules, add_to_rule-Keeps)

  create_or_adopt-Keeps :
      (name sid : String) (create : M S (Unit {0}))
      → Keeps inv create
      → Keeps inv (create_or_adopt client name sid create)
  unfolding create_or_adopt
  create_or_adopt-Keeps name sid create h = search (frame_rules, after_create-Keeps)

  after_node_affinity-Keeps :
      (name sid : String) (r : Result (Unit {0}))
      → Keeps inv (after_node_affinity client name sid r)
  unfolding after_node_affinity
  after_node_affinity-Keeps name sid (ok _) = search frame_rules
  after_node_affinity-Keeps name sid (err e) =
      search (frame_rules, add_to_rule-Keeps, get_rule-Keeps) depth 9

  ensure_node_affinity-Keeps :
      (set sid : String) (cfg : Config) → Keeps inv (ensure_node_affinity client set sid cfg)
  unfolding ensure_node_affinity
  ensure_node_affinity-Keeps set sid cfg = search (frame_rules, after_node_affinity-Keeps) depth 9

  soft-Keeps : (r : Result (Unit {0})) → Keeps inv (soft client r)
  soft-Keeps (ok _) = search frame_rules
  soft-Keeps (err e) = search frame_rules

  scan_members-Keeps :
      (sep : ℕ) (registered : List String) (want : String) (infos : List NodeInfo)
      (members : List String)
      → Keeps inv (scan_members client sep registered want infos members)
  unfolding scan_members
  scan_members-Keeps sep reg want [] members = search frame_rules
  scan_members-Keeps sep reg want (ns ∷ rest) members =
      let more = λ (ms : List String). scan_members-Keeps sep reg want rest ms in
      search (frame_rules, more) depth 9

  tolerate-Keeps : (r : Result (List (Option String))) → Keeps inv (tolerate {S = S} r)
  tolerate-Keeps (ok rs) = search frame_rules
  tolerate-Keeps (err e) = search frame_rules

  set_members-Keeps : (sep : ℕ) (set self : String) → Keeps inv (set_members client sep set self)
  unfolding set_members
  set_members-Keeps sep set self = search (frame_rules, tolerate-Keeps, scan_members-Keeps) depth 12

  create_rule-Keeps :
      (opt : HaRuleCreateOption) → Keeps inv (classified (call client (new_ha_rule opt)))
  create_rule-Keeps opt =
      Keeps-map_error classify _ (Keeps-call client (new_ha_rule opt) refl local)

  create_resource_affinity-Keeps :
      (sep : ℕ) (name set sid : String) (cfg : Config)
      → Keeps inv (create_resource_affinity client sep name set sid cfg)
  unfolding create_resource_affinity
  create_resource_affinity-Keeps sep name set sid cfg =
      Keeps-bind _ _ (set_members-Keeps sep set sid) λ members.
        Keeps-if (ltb (length members) 2) _ _ (Keeps-pure tt) (
          Keeps-bind _ _ (Keeps-attempt _ (create_or_adopt-Keeps name sid _ (create_rule-Keeps _)))
            soft-Keeps)

  after_add-Keeps :
      (sep : ℕ) (name set sid : String) (cfg : Config) (r : Result (Unit {0}))
      → Keeps inv (after_add client sep name set sid cfg r)
  unfolding after_add
  after_add-Keeps sep name set sid cfg (ok _) = search frame_rules
  after_add-Keeps sep name set sid cfg (err e) =
      search (frame_rules, create_resource_affinity-Keeps)

  ensure_resource_affinity-Keeps :
      (sep : ℕ) (set sid : String) (cfg : Config)
      → Keeps inv (ensure_resource_affinity client sep set sid cfg)
  unfolding ensure_resource_affinity
  ensure_resource_affinity-Keeps sep set sid cfg =
      search (frame_rules, add_to_rule-Keeps, after_add-Keeps) depth 9

  add_to_rules-Keeps :
      (names : List String) (sid : String) → Keeps inv (add_to_rules client names sid)
  unfolding add_to_rules
  add_to_rules-Keeps [] sid = search frame_rules
  add_to_rules-Keeps (name ∷ names) sid =
      Keeps-bind _ _ (add_to_rule-Keeps name sid) (λ _. add_to_rules-Keeps names sid)

  when_m-Keeps : (b : Bool) (m : M S (Unit {0})) → Keeps inv m → Keeps inv (when_m client b m)
  when_m-Keeps true m h = h
  when_m-Keeps false m h = search frame_rules

  pub sync_rules-Keeps :
      (sep : ℕ) (set sid : String) (cfg : Config) → Keeps inv (sync_rules client sep set sid cfg)
  unfolding sync_rules
  sync_rules-Keeps sep set sid cfg =
      search
        (
          frame_rules, when_m-Keeps, ensure_node_affinity-Keeps, ensure_resource_affinity-Keeps,
          add_to_rules-Keeps,
        )
        depth 12
