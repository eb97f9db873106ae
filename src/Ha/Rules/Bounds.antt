-- ===== src/Ha/Rules/Bounds.antt =====
-- The retry loop of `addToRule` ends, and touches one rule only, whatever Proxmox answers.
use omni_infra_provider_prox.Base.{
  ℕ, zero, suc, ◌+◌, ◌*◌, ◌≤◌, String, ◌≡◌, refl, ap, List, ◌++◌, All, arith, length, length-append,
  contains,
}
use omni_infra_provider_prox.Errors.{Result, ok, err, errors_is, conflict}
use omni_infra_provider_prox.Api.{Client, Request, ha_rule, ha_rule_update}
use omni_infra_provider_prox.Exec.{World, M}
use omni_infra_provider_prox.Exec.Rules.{Sends, Sends-map_error, Sends-call, sends_rules}
use omni_infra_provider_prox.Exec.Bounds.{
  SendsAtMost, AtMost-pure, AtMost-fail, AtMost-attempt, AtMost-map_error, AtMost-if, AtMost-call,
  AtMost-bind,
}
use omni_infra_provider_prox.Ha.Classify.{classify}
use omni_infra_provider_prox.Ha.Names.{split_csv}
use omni_infra_provider_prox.Ha.Rules.{
  with_member, get_rule, after_update, add_round, add_rounds, add_to_rule, rule_retries,
}

-- A request that reads the rule or edits it.
abbrev pub IsEditOf : String → Request → Type 0
IsEditOf name (ha_rule n) = n ≡ name
IsEditOf name (ha_rule_update n opt) = n ≡ name
IsEditOf name _ = ⊥

module _ {S : Type 0} (client : Client S) (name sid : String) where
  get_rule-Sends : Sends (IsEditOf name) (get_rule client name)
  unfolding get_rule
  get_rule-Sends = Sends-map_error classify _ (Sends-call client (ha_rule name) refl)

  after_update-Sends :
      (again : M S (Unit {0})) (r : Result (Unit {0}))
      → Sends (IsEditOf name) again
      → Sends (IsEditOf name) (after_update client name sid again r)
  unfolding after_update
  after_update-Sends again (ok _) h = search sends_rules
  after_update-Sends again (err e) h = search sends_rules

  add_round-Sends :
      (again : M S (Unit {0}))
      → Sends (IsEditOf name) again
      → Sends (IsEditOf name) (add_round client name sid again)
  unfolding add_round
  add_round-Sends again h = search (sends_rules, get_rule-Sends, after_update-Sends) depth 9

  add_rounds-Sends : (n : ℕ) → Sends (IsEditOf name) (add_rounds client n name sid)
  unfolding add_rounds
  add_rounds-Sends zero = search sends_rules
  add_rounds-Sends (suc n) = add_round-Sends _ (add_rounds-Sends n)

  after_update-AtMost :
      (n : ℕ) (again : M S (Unit {0})) (r : Result (Unit {0}))
      → SendsAtMost n again
      → SendsAtMost n (after_update client name sid again r)
  unfolding after_update
  after_update-AtMost n again (ok _) h = AtMost-pure n tt
  after_update-AtMost n again (err e) h = AtMost-if n (errors_is e conflict) _ _ h (AtMost-fail n _)

  add_round-AtMost :
      (n : ℕ) (again : M S (Unit {0}))
      → SendsAtMost n again
      → SendsAtMost (1 + (1 + n)) (add_round client name sid again)
  unfolding add_round get_rule
  add_round-AtMost n again h =
      AtMost-bind 1 (1 + n) _ _ (AtMost-map_error 1 classify _ (AtMost-call client (ha_rule name)))
        λ rule. AtMost-if (1 + n) (contains (split_csv rule.resources) sid) _ _ (AtMost-pure _ tt) (
          AtMost-bind 1 n _ _
            (AtMost-attempt 1 _ (
              AtMost-map_error 1 classify _
                (AtMost-call client (ha_rule_update name (with_member rule sid)))))
            (λ r. after_update-AtMost n again r h))

  add_rounds-AtMost : (n : ℕ) → SendsAtMost (2 * n) (add_rounds client n name sid)
  unfolding add_rounds
  add_rounds-AtMost zero = AtMost-fail _ _
  add_rounds-AtMost (suc n) = record {
    at = λ w. omega (arith, (add_round-AtMost (2 * n) _ (add_rounds-AtMost n)).at w);
  }

  -- Whatever Proxmox answers, `addToRule` sends at most twenty requests, and each reads or edits the
  -- named rule.
  pub add_to_rule-bounds :
      (w : World S)
      → (new : List Request) × ((add_to_rule client name sid w).1.log ≡ new ++ w.log)
        × All (IsEditOf name) new
        × (length new ≤ 2 * rule_retries)
  unfolding add_to_rule
  add_to_rule-bounds w =
      let (new, e, h) = (add_rounds-Sends rule_retries).at w in
      (
        new,
        e,
        h,
        omega (arith, ap length e, length-append new w.log, (add_rounds-AtMost rule_retries).at w),
      )
