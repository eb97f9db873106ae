-- ===== src/Ha/Rules/Membership.antt =====
-- What `SyncRules` reaches.
use omni_infra_provider_prox.Base.{
  ℕ, ltb, String, ◌≡◌, ◌∙◌, refl, ap, subst, Bool, true, false, not, Option, List, [], ◌∷◌, ◌++◌,
  ◌=ₜ◌, if◌then◌else◌, All, contains, contains-append_self, join, length, Bool-cases, inl, inr,
}
use omni_infra_provider_prox.Errors.{Result, ok, err, errors_is}
use omni_infra_provider_prox.Api.{Client, HaRule, HaRuleCreateOption, new_ha_rule}
use omni_infra_provider_prox.Exec.{World, M, map_error, map_result, call, ◌>>=◌}
use omni_infra_provider_prox.Ha.Classify.{classify, classified}
use omni_infra_provider_prox.Ha.Names.{split_csv, rule_name, node_affinity_suffix}
use omni_infra_provider_prox.Ha.Names.Csv.{IsMember}
use omni_infra_provider_prox.Ha.Options.{Config}
use omni_infra_provider_prox.Ha.Rules.{
  add_to_rule, ensure_resource_affinity, add_to_rules, when_m, after_node_affinity,
  ensure_node_affinity, sync_rules,
}
use omni_infra_provider_prox.Ha.Rules.Editing.{HasMember}
use omni_infra_provider_prox.Base.{◌&&◌, All-append}
use omni_infra_provider_prox.Ha.Names.Csv.{split_csv-join}
use omni_infra_provider_prox.Ha.Rules.{rule_retries}
use omni_infra_provider_prox.Ha.Rules.Editing.{add_rounds-Done}
use omni_infra_provider_prox.Exec.Triples.{
  Ends, OnOk, Ends-pure, Ends-fail, Ends-every, Ends-attempt, Ends-any, Ends-if, Ends-bind, Ends-ok,
}
use omni_infra_provider_prox.Ha.Rules.Sharing.{IsSharedStore, Stays, Stays-pure}
use omni_infra_provider_prox.Ha.Rules.Staying.{add_to_rules-Kept, ensure_resource_affinity-Kept}

-- The rules that a machine of the set is to be in, but for the one of the set's resource affinity, which
-- waits for a second member.
abbrev pub expected_rules : (set : String) → Config → List String
expected_rules set cfg =
    (if not (set =ₜ "") && ltb 0 (length cfg.node_affinity_nodes)
      then rule_name set node_affinity_suffix ∷ []
      else [])
    ++ cfg.rules

module _ {S : Type 0} (client : Client S) (rules : S → String → Option HaRule)
    (shared : IsSharedStore client rules) (sid : String) (member : IsMember sid) where
  abbrev Has : World S → String → Type 0
  Has w name = HasMember rules w.server name sid

  abbrev HasAll : List String → Result (Unit {0}) → World S → Type 0
  HasAll names = OnOk (λ _ w. All (Has w) names)

  abbrev Kept : M S (Unit {0}) → Type 0
  Kept m = (name : String) → Stays rules name sid m

  All-Kept :
      (m : M S (Unit {0})) (names : List String) (w : World S)
      → Kept m
      → All (Has w) names
      → All (Has (m w).1) names
  All-Kept m [] w k h = tt
  All-Kept m (n ∷ ns) w k h = ((k n).at w h.0, All-Kept m ns w k h.1)

  -- What was reached before a step that keeps it, and what the step reaches.
  both :
      (before after : List String) (m : M S (Unit {0}))
      → Kept m
      → Ends (λ _. Unit {0}) m (HasAll after)
      → Ends (λ w. All (Has w) before) m (HasAll (before ++ after))
  both before after m k e = record {
    at = λ w h. joined (m w).0 (m w).1 (All-Kept m before w k h) (e.at w tt);
  }
    where
      joined :
          (r : Result (Unit {0})) (v : World S)
          → All (Has v) before
          → HasAll after r v
          → HasAll (before ++ after) r v
      joined (ok _) v h l = All-append (Has v) before after h l
      joined (err x) v h l = tt

  add_to_rule-Has :
      (name : String) → Ends (λ _. Unit {0}) (add_to_rule client name sid) (HasAll (name ∷ []))
  unfolding add_to_rule
  add_to_rule-Has name =
      Ends-ok _ (add_rounds-Done client rules shared.store name sid member rule_retries)
        (λ a w h. (h, tt))

  add_to_rules-Has :
      (names : List String) → Ends (λ _. Unit {0}) (add_to_rules client names sid) (HasAll names)
  unfolding add_to_rules
  add_to_rules-Has [] = Ends-every _ (λ a. tt)
  add_to_rules-Has (name ∷ names) =
      Ends-bind _ _ (add_to_rule-Has name) (λ e w h. h)
        λ _.
          both (name ∷ []) names (add_to_rules client names sid)
            (λ n. add_to_rules-Kept client rules shared sid member n names) (add_to_rules-Has names)

  own_list : contains (split_csv sid) sid ≡ true
  unfolding join
  own_list =
      ap (λ l. contains l sid) (split_csv-join (sid ∷ []) (member, tt))
      ∙ contains-append_self [] sid

  create-Has :
      (opt : HaRuleCreateOption)
      → opt.resources ≡ sid
      → Ends (λ _. Unit {0}) (classified (call client (new_ha_rule opt))) (HasAll (opt.rule ∷ []))
  unfolding map_error call
  create-Has opt sent = record { at = λ w _. answered w (client (new_ha_rule opt) w.server).0 refl }
    where
      answered :
          (w : World S) (a : Result (Unit {0}))
          → (client (new_ha_rule opt) w.server).0 ≡ a
          → HasAll (opt.rule ∷ []) (map_result classify a) (call client (new_ha_rule opt) w).1
      answered w (ok _) e =
          let (r, there, all) = shared.creates w.server opt e in
          ((r, there, all sid (ap (λ t. contains (split_csv t) sid) sent ∙ own_list)), tt)
      answered w (err x) e = tt

  after_node_affinity-Has :
      (name : String) (r : Result (Unit {0}))
      → Ends (HasAll (name ∷ []) r) (after_node_affinity client name sid r) (HasAll (name ∷ []))
  unfolding after_node_affinity
  after_node_affinity-Has name (ok _) = Ends-pure tt (λ w h. h)
  after_node_affinity-Has name (err e) =
      Ends-if (not (errors_is e _)) _ _ (λ _. Ends-fail _ (λ w h. tt))
        (λ _. Ends-bind _ _ (Ends-any _) (λ e w h. tt) (λ _. add_to_rule-Has name))

  ensure_node_affinity-Has :
      (set : String) (cfg : Config)
      → Ends
          (λ _. Unit {0})
          (ensure_node_affinity client set sid cfg)
          (HasAll (rule_name set node_affinity_suffix ∷ []))
  unfolding ensure_node_affinity
  ensure_node_affinity-Has set cfg =
      Ends-bind {Q = λ r w. OnOk (HasAll (rule_name set node_affinity_suffix ∷ [])) r w} _ _
        (Ends-attempt _ (create-Has _ refl)) (λ e w h. tt) (after_node_affinity-Has _)

  resource_affinity-Kept :
      (b : Bool) (sep : ℕ) (set : String) (cfg : Config)
      → Kept (when_m client b (ensure_resource_affinity client sep set sid cfg))
  resource_affinity-Kept true sep set cfg n =
      ensure_resource_affinity-Kept client rules shared sid member n sep set cfg
  resource_affinity-Kept false sep set cfg n = Stays-pure tt

  abbrev own_rules : (set : String) → Config → List String
  own_rules set cfg =
      if not (set =ₜ "") && ltb 0 (length cfg.node_affinity_nodes)
      then rule_name set node_affinity_suffix ∷ []
      else []

  affinity-Has :
      (sep : ℕ) (set : String) (cfg : Config)
      → Ends
          (λ _. Unit {0})
          (when_m client (not (set =ₜ "")) (
            when_m client
              (ltb 0 (length cfg.node_affinity_nodes))
              (ensure_node_affinity client set sid cfg)
            >>= λ _.
                when_m client
                  (not (cfg.resource_affinity =ₜ ""))
                  (ensure_resource_affinity client sep set sid cfg)))
          (HasAll (own_rules set cfg))
  affinity-Has sep set cfg = elim (Bool-cases (set =ₜ "")) [
    | inl none_set ↦ rw none_set (Ends-every _ (λ a. tt))
    | inr in_set ↦ elim (Bool-cases (ltb 0 (length cfg.node_affinity_nodes))) [
      | inr no_nodes ↦ rw (in_set, no_nodes) (Ends-every _ (λ a. tt))
      | inl on_nodes ↦
          rw (in_set, on_nodes)
            (Ends-bind _ _ (ensure_node_affinity-Has set cfg) (λ e w h. h)
              λ _.
                both (rule_name set node_affinity_suffix ∷ []) [] _
                  (resource_affinity-Kept _ sep set cfg) (Ends-every _ (λ a. tt)))
    ]
  ]

  sync_rules-Has :
      (sep : ℕ) (set : String) (cfg : Config)
      → Ends (λ _. Unit {0}) (sync_rules client sep set sid cfg) (HasAll (expected_rules set cfg))
  unfolding sync_rules
  sync_rules-Has sep set cfg =
      Ends-bind _ _ (affinity-Has sep set cfg) (λ e w h. h)
        λ _.
          both (own_rules set cfg) cfg.rules (add_to_rules client cfg.rules sid)
            (λ n. add_to_rules-Kept client rules shared sid member n cfg.rules)
            (add_to_rules-Has cfg.rules)

  -- For a store of rules that reads, writes and creates as `IsSharedStore` says, so that a machine
  -- stays in a rule over every request but an edit of that rule that is accepted or a deregistration,
  -- and a sid that can stand in a list: when `SyncRules` returns without an error, the machine is in
  -- every rule of its HA config and, if it is in a set whose config names nodes, in the node-affinity
  -- rule of the set.
  pub sync_rules-HasMember :
      (sep : ℕ) (set : String) (cfg : Config) (w : World S)
      → (sync_rules client sep set sid cfg w).0 ≡ ok tt
      → All
          (λ name. HasMember rules (sync_rules client sep set sid cfg w).1.server name sid)
          (expected_rules set cfg)
  sync_rules-HasMember sep set cfg w h =
      subst (λ r. HasAll (expected_rules set cfg) r (sync_rules client sep set sid cfg w).1) h
        ((sync_rules-Has sep set cfg).at w tt)
