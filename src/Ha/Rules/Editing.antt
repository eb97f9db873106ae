-- ===== src/Ha/Rules/Editing.antt =====
-- `addToRule` against what a store of rules promises. Other actors may change the rules whenever a
-- request is under way.
use omni_infra_provider_prox.Base.{
  ℕ, zero, suc, String, ◌≡◌, ◌∙◌, refl, ap, subst, true, Option, some, [], ◌∷◌, ◌++◌, contains,
  contains-append_self, join, All-append,
}
use omni_infra_provider_prox.Errors.{Result, ok, err, errors_is, conflict}
use omni_infra_provider_prox.Api.{Client, HaRule, HaRuleUpdateOption, ha_rule, ha_rule_update}
use omni_infra_provider_prox.Exec.{World, M, map_error, map_result, call}
use omni_infra_provider_prox.Exec.Triples.{
  Ends, OnOk, Ends-pure, Ends-fail, Ends-anywhere, Ends-attempt, Ends-if, Ends-bind,
}
use omni_infra_provider_prox.Ha.Classify.{classify, classified}
use omni_infra_provider_prox.Ha.Names.{split_csv}
use omni_infra_provider_prox.Ha.Names.Csv.{IsMember, split_csv-members, split_csv-join}
use omni_infra_provider_prox.Ha.Rules.{
  with_member, get_rule, after_update, add_round, add_rounds, add_to_rule, rule_retries,
}

-- What the editing relies on. A read answers with the rule as it stands when the answer is given; a PUT
-- that is accepted leaves a rule that has the members it was sent.
pub record IsRuleStore {S : Type 0} (client : Client S) (rules : S → String → Option HaRule)
    : Type 0 where
  pub reads :
      (s : S) (name : String) (r : HaRule)
      → (client (ha_rule name) s).0 ≡ ok r
      → rules (client (ha_rule name) s).1 name ≡ some r
  pub writes :
      (s : S) (name : String) (opt : HaRuleUpdateOption)
      → (client (ha_rule_update name opt) s).0 ≡ ok tt
      → (r : HaRule) × (rules (client (ha_rule_update name opt) s).1 name ≡ some r)
        × ((sid : String)
            → contains (split_csv opt.resources) sid ≡ true
            → contains (split_csv r.resources) sid ≡ true)

-- The rule is there, and has the member.
abbrev pub HasMember :
    {S : Type 0} → (S → String → Option HaRule) → S → (name sid : String) → Type 0
HasMember rules s name sid =
    (r : HaRule) × (rules s name ≡ some r) × (contains (split_csv r.resources) sid ≡ true)

-- The member list that a round sends.
pub sent_members :
    (s sid : String)
    → IsMember sid
    → split_csv (join "," (split_csv s ++ sid ∷ [])) ≡ split_csv s ++ sid ∷ []
sent_members s sid h =
    split_csv-join (split_csv s ++ sid ∷ [])
      (All-append IsMember (split_csv s) (sid ∷ []) (split_csv-members s) (h, tt))

module _ {S : Type 0} (client : Client S) (rules : S → String → Option HaRule)
    (store : IsRuleStore client rules) (name sid : String) (member : IsMember sid) where
  abbrev Done : Result (Unit {0}) → World S → Type 0
  Done = OnOk (λ _ w. HasMember rules w.server name sid)

  get_rule-reads :
      Ends (λ _. Unit {0}) (get_rule client name) (OnOk (λ r w. rules w.server name ≡ some r))
  unfolding get_rule map_error call
  get_rule-reads = record { at = λ w _. read w (client (ha_rule name) w.server).0 refl }
    where
      read :
          (w : World S) (o : Result HaRule)
          → (client (ha_rule name) w.server).0 ≡ o
          → OnOk
              (λ (r : HaRule) (v : World S). rules v.server name ≡ some r)
              (map_result classify o)
              (record w { server = (client (ha_rule name) w.server).1; log = ha_rule name ∷ w.log })
      read w (ok r) e = store.reads w.server name r e
      read w (err x) e = tt

  -- The new list of an accepted update has the member.
  update-writes :
      (rule : HaRule) (opt : HaRuleUpdateOption)
      → opt.resources ≡ join "," (split_csv rule.resources ++ sid ∷ [])
      → Ends (λ _. Unit {0}) (classified (call client (ha_rule_update name opt))) Done
  unfolding map_error call
  update-writes rule opt sent = record {
    at = λ w _. write w (client (ha_rule_update name opt) w.server).0 refl;
  }
    where
      has : contains (split_csv opt.resources) sid ≡ true
      has =
          ap (λ t. contains (split_csv t) sid) sent
          ∙ ap (λ l. contains l sid) (sent_members rule.resources sid member)
          ∙ contains-append_self (split_csv rule.resources) sid

      write :
          (w : World S) (o : Result (Unit {0}))
          → (client (ha_rule_update name opt) w.server).0 ≡ o
          → Done (map_result classify o) (record w {
            server = (client (ha_rule_update name opt) w.server).1;
            log = ha_rule_update name opt ∷ w.log;
          })
      write w (ok _) e =
          let (r, there, keeps) = store.writes w.server name opt e in (r, there, keeps sid has)
      write w (err x) e = tt

  after_update-Done :
      (again : M S (Unit {0})) (r : Result (Unit {0}))
      → Ends (λ _. Unit {0}) again Done
      → Ends (Done r) (after_update client name sid again r) Done
  unfolding after_update
  after_update-Done again (ok _) h = Ends-pure tt (λ w p. p)
  after_update-Done again (err e) h =
      Ends-if (errors_is e conflict) again _ (λ _. h) (λ _. Ends-fail _ (λ w p. tt))

  add_round-Done :
      (again : M S (Unit {0}))
      → Ends (λ _. Unit {0}) again Done
      → Ends (λ _. Unit {0}) (add_round client name sid again) Done
  unfolding add_round
  add_round-Done again h =
      Ends-bind (get_rule client name) _ get_rule-reads (λ e w _. tt)
        λ rule.
          Ends-if (contains (split_csv rule.resources) sid) _ _
            (λ has. Ends-pure tt (λ w there. (rule, there, has)))
            (λ _.
              Ends-bind {Q = λ r w. OnOk Done r w} _ _
                (Ends-attempt _ (
                  Ends-anywhere _
                    (update-writes rule (with_member rule sid) (unfold with_member in refl))))
                (λ e w _. tt) (λ r. after_update-Done again r h))

  pub add_rounds-Done : (n : ℕ) → Ends (λ _. Unit {0}) (add_rounds client n name sid) Done
  unfolding add_rounds
  add_rounds-Done zero = Ends-fail _ (λ w _. tt)
  add_rounds-Done (suc n) = add_round-Done (add_rounds client n name sid) (add_rounds-Done n)

-- For a store of rules that reads and writes as `IsRuleStore` says, and a sid that can stand in a
-- list: when `addToRule` returns without an error, the rule is there and has the machine as a
-- member, also if other actors edit the rules at the same time.
pub add_to_rule-HasMember :
    {S : Type 0} (client : Client S) (rules : S → String → Option HaRule) (name sid : String)
    (w : World S)
    → IsRuleStore client rules
    → IsMember sid
    → (add_to_rule client name sid w).0 ≡ ok tt
    → HasMember rules (add_to_rule client name sid w).1.server name sid
unfolding add_to_rule
add_to_rule-HasMember client rules name sid w store member h =
    subst
      (λ r.
        OnOk (λ _ (v : World _). HasMember rules v.server name sid) r
          (add_rounds client rule_retries name sid w).1)
      h ((add_rounds-Done client rules store name sid member rule_retries).at w tt)
