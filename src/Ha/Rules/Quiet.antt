-- ===== src/Ha/Rules/Quiet.antt =====
-- `addToRule` where nobody else edits the rule: it succeeds, and the rule that it leaves is known.
use omni_infra_provider_prox.Base.{
  String, ◌^^◌, quoted, ◌≡◌, true, false, Option, some, [], ◌∷◌, ◌++◌, ◌⊎◌, contains, join,
}
use omni_infra_provider_prox.Errors.{Error, Result, ok, err, errors_is, wrap, conflict}
use omni_infra_provider_prox.Ha.Classify.{classify}
use omni_infra_provider_prox.Api.{Client, HaRule, HaRuleUpdateOption, ha_rule, ha_rule_update}
use omni_infra_provider_prox.Exec.{World, M}
use omni_infra_provider_prox.Ha.Names.{split_csv}
use omni_infra_provider_prox.Ha.Rules.{with_member}

abbrev pub stored : HaRuleUpdateOption → String → HaRule
stored opt digest = record {
  rule_type = opt.rule_type;
  digest = digest;
  resources = opt.resources;
  affinity = opt.affinity;
  nodes = opt.nodes;
  strict = opt.strict;
}

-- A read answers with the rule and changes none. A PUT with the digest of the rule is accepted, and
-- sets every field to what was sent, an omitted one to its default; or it is refused, but not for a
-- conflict, and leaves the rule.
pub record IsQuietStore {S : Type 0} (client : Client S) (rules : S → String → Option HaRule)
    : Type 0 where
  pub reads :
      (s : S) (name : String) (r : HaRule)
      → rules s name ≡ some r
      → ((client (ha_rule name) s).0 ≡ ok r) × (rules (client (ha_rule name) s).1 name ≡ some r)
  pub writes :
      (s : S) (name : String) (r : HaRule) (opt : HaRuleUpdateOption)
      → rules s name ≡ some r
      → opt.digest ≡ r.digest
      → ((digest : String) × ((client (ha_rule_update name opt) s).0 ≡ ok tt)
          × (rules (client (ha_rule_update name opt) s).1 name ≡ some (stored opt digest)))
        ⊎ ((e : Error) × ((client (ha_rule_update name opt) s).0 ≡ err e)
            × (errors_is (classify e) conflict ≡ false)
            × (rules (client (ha_rule_update name opt) s).1 name ≡ some r))

-- The rule with the machine as a member: itself if it has it, and otherwise with the member added and
-- every other field kept, under a new digest.
abbrev pub WithMember : HaRule → String → HaRule → Type 0
WithMember r sid r' =
    ((contains (split_csv r.resources) sid ≡ true) × (r' ≡ r))
    ⊎ ((contains (split_csv r.resources) sid ≡ false)
        × (digest : String) × (r' ≡ record r {
          digest = digest;
          resources = join "," (split_csv r.resources ++ sid ∷ []);
        }))

module _ {S : Type 0} (client : Client S) (name sid : String) (again : M S (Unit {0})) (w : World S)
    (r : HaRule) where
  abbrev after_read : World S
  after_read = record w { server = (client (ha_rule name) w.server).1; log = ha_rule name ∷ w.log }

  abbrev after_write : World S
  after_write = record w {
    server = (client (ha_rule_update name (with_member r sid)) after_read.server).1;
    log = ha_rule_update name (with_member r sid) ∷ ha_rule name ∷ w.log;
  }

  -- The error of a PUT that was refused, as the step returns it.
  abbrev pub refusal : Error → Error
  refusal e =
      wrap ("failed to add " ^^ (sid ^^ (" to HA rule " ^^ (quoted name ^^ ": ")))) (classify e) ""

-- The edit succeeded, and the rule has the member; or it failed, not for a conflict, and the rule is as
-- it was.
abbrev pub AddedOrRefused :
    {S : Type 0}
    → (S → String → Option HaRule)
    → (name sid : String) → HaRule
    → Result (Unit {0}) × World S
    → Type 0
AddedOrRefused rules name sid r o =
    ((o.0 ≡ ok tt) × (r' : HaRule) × (rules o.1.server name ≡ some r') × WithMember r sid r')
    ⊎ ((e : Error) × (o.0 ≡ err e)
        × (errors_is e conflict ≡ false)
        × (rules o.1.server name ≡ some r))
