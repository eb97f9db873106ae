-- ===== src/Ha/Rules/Sharing.antt =====
-- What the rules' store promises where nobody takes the machine out of a rule, and what keeps a machine in a
-- rule: rules by the shape of the step, for `search`.
use omni_infra_provider_prox.Base.{
  ℕ, zero, suc, ltb, String, ◌≡◌, ◌∙◌, refl, sym, ap, subst, Bool, true, false, not, Option, some,
  List, [], ◌∷◌, ◌++◌, ◌=ₜ◌, if◌then◌else◌, All, contains, contains-append_self, join, length,
  eq_iff, Bool-cases, inl, inr, split_free,
}
use omni_infra_provider_prox.Errors.{Error, Result, ok, err}
use omni_infra_provider_prox.Api.{
  Client, Request, HaRule, HaRuleCreateOption, HaRuleUpdateOption, ha_rule_update, new_ha_rule,
  ha_resource_delete,
}
use omni_infra_provider_prox.Exec.{World, M, pure, fail, attempt, map_error, continue, ◌>>=◌}
use omni_infra_provider_prox.Ha.Names.{split_csv}
use omni_infra_provider_prox.Ha.Rules.Editing.{IsRuleStore, HasMember}

-- The request edits the rule, or is a deregistration, which takes a machine out of all rules.
abbrev pub edits : (name : String) → Request → Bool
edits name (ha_rule_update n opt) = n =ₜ name
edits name (ha_resource_delete sid purge) = true
edits name _ = false

-- What the step relies on, beside `IsRuleStore`. A rule that is created has the members it was sent. Nobody
-- else takes a member out of a rule or deletes it while the step runs: a member stays in a rule over every
-- request but an edit of that rule or a deregistration, and over an edit that is refused.
pub record IsSharedStore {S : Type 0} (client : Client S) (rules : S → String → Option HaRule)
    : Type 0 where
  pub store : IsRuleStore client rules
  pub creates :
      (s : S) (opt : HaRuleCreateOption)
      → (client (new_ha_rule opt) s).0 ≡ ok tt
      → (r : HaRule) × (rules (client (new_ha_rule opt) s).1 opt.rule ≡ some r)
        × ((sid : String)
            → contains (split_csv opt.resources) sid ≡ true
            → contains (split_csv r.resources) sid ≡ true)
  pub keeps :
      (s : S) (req : Request) (name sid : String)
      → edits name req ≡ false
      → HasMember rules s name sid
      → HasMember rules (client req s).1 name sid
  pub refuses :
      (s : S) (name sid : String) (opt : HaRuleUpdateOption) (e : Error)
      → (client (ha_rule_update name opt) s).0 ≡ err e
      → HasMember rules s name sid
      → HasMember rules (client (ha_rule_update name opt) s).1 name sid

-- Whatever happens, the step keeps the machine in the rule.
pub record Stays {S A : Type 0} (rules : S → String → Option HaRule) (name sid : String) (m : M S A)
    : Type 0 where
  pub at :
      (w : World S) → HasMember rules w.server name sid → HasMember rules (m w).1.server name sid

module _ {S A : Type 0} {rules : S → String → Option HaRule} {name sid : String} where
  pub Stays-pure : (a : A) → Stays rules name sid (pure a)
  unfolding pure
  Stays-pure a = record { at = λ w h. h }

  pub Stays-fail : (e : Error) → Stays rules name sid (fail {A = A} e)
  unfolding fail
  Stays-fail e = record { at = λ w h. h }

  pub Stays-attempt : (m : M S A) → Stays rules name sid m → Stays rules name sid (attempt m)
  unfolding attempt
  Stays-attempt m k = record { at = k.at }

  pub Stays-map_error :
      (f : Error → Error) (m : M S A)
      → Stays rules name sid m
      → Stays rules name sid (map_error f m)
  unfolding map_error
  Stays-map_error f m k = record { at = k.at }

  pub Stays-if :
      (b : Bool) (m n : M S A)
      → Stays rules name sid m
      → Stays rules name sid n
      → Stays rules name sid (if b then m else n)
  Stays-if true m n h k = h
  Stays-if false m n h k = k

module _ {S A C : Type 0} {rules : S → String → Option HaRule} {name sid : String} where
  continue-Stays :
      (r : Result A) (f : A → M S C) (v : World S)
      → HasMember rules v.server name sid
      → ((a : A) → Stays rules name sid (f a))
      → HasMember rules (continue r f v).1.server name sid
  continue-Stays (ok a) f v h k = (k a).at v h
  continue-Stays (err e) f v h k = h

  pub Stays-bind :
      (m : M S A) (f : A → M S C)
      → Stays rules name sid m
      → ((a : A) → Stays rules name sid (f a))
      → Stays rules name sid (m >>= f)
  unfolding ◌>>=◌
  Stays-bind m f h k = record { at = λ w p. continue-Stays (m w).0 f (m w).1 (h.at w p) k }

pub ruleset stay_rules =
    (refl, Stays-pure, Stays-fail, Stays-attempt, Stays-map_error, Stays-if, Stays-bind)
