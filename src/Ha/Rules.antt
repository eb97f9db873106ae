-- ===== src/Ha/Rules.antt =====
-- The affinity rules: reading and editing a rule, and the rules of a machine request set. Log lines are
-- left out.
pub mod Editing
pub mod Bounds
pub mod Quiet
pub mod Affinity
pub mod Frames
pub mod Sharing
pub mod Staying
pub mod Membership
use omni_infra_provider_prox.Base.{
  ℕ, zero, suc, ltb, String, ◌^^◌, Bool, true, false, not, ◌&&◌, Option, none, some, List, [], ◌∷◌,
  ◌++◌, ◌=ₜ◌, if◌then◌else◌, contains, join, quoted, length,
}
use omni_infra_provider_prox.Errors.{
  Error, Result, ok, err, errors_is, wrap, sentinel_error, not_found, already_exists, conflict,
  infeasible,
}
use omni_infra_provider_prox.Api.{
  Client, HaRule, HaRuleUpdateOption, new_ha_rule, ha_rule, ha_rule_update,
}
use omni_infra_provider_prox.Exec.{M, pure, fail, attempt, map_error, call, ◌>>=◌, ◌>>◌}
use omni_infra_provider_prox.Ha.Options.{Config}
use omni_infra_provider_prox.Ha.Classify.{classify, classified}
use omni_infra_provider_prox.Ha.Names.{
  rule_name, split_csv, node_affinity_suffix, resource_affinity_suffix,
}
use omni_infra_provider_prox.Ha.Members.{set_members}

abbrev pub rule_retries : ℕ
rule_retries = 10

abbrev pub is_strict : Option Bool → Bool
is_strict none = false
is_strict (some b) = b

-- The update that adds the member: every managed field is echoed.
unfoldable pub with_member : HaRule → String → HaRuleUpdateOption
with_member rule sid = record {
  rule_type = rule.rule_type;
  digest = rule.digest;
  resources = join "," (split_csv rule.resources ++ sid ∷ []);
  affinity = rule.affinity;
  nodes = rule.nodes;
  strict = rule.strict;
}

module _ {S : Type 0} (client : Client S) where
  unfoldable pub get_rule : String → M S HaRule
  get_rule name = classified (call client (ha_rule name))

  -- The switch behind the update of a rule: `again` is the next round.
  unfoldable pub after_update :
      (name sid : String) → M S (Unit {0}) → Result (Unit {0}) → M S (Unit {0})
  after_update name sid again (ok _) = pure tt
  after_update name sid again (err e) =
      if errors_is e conflict
      then again
      else fail (wrap ("failed to add " ^^ (sid ^^ (" to HA rule " ^^ (quoted name ^^ ": ")))) e "")

  -- One round of the loop of `addToRule`.
  unfoldable pub add_round : (name sid : String) → M S (Unit {0}) → M S (Unit {0})
  add_round name sid again = do
    rule ← get_rule name
    if contains (split_csv rule.resources) sid then pure tt else do
      r ← attempt (classified (call client (ha_rule_update name (with_member rule sid))))
      after_update name sid again r

  -- The loop with the rounds that are left.
  unfoldable pub add_rounds : ℕ → (name sid : String) → M S (Unit {0})
  add_rounds zero name sid = fail (
      wrap ("gave up editing HA rule " ^^ (quoted name ^^ " after 10 retries: "))
        (sentinel_error conflict) "")
  add_rounds (suc n) name sid = let again = add_rounds n name sid in add_round name sid again

  unfoldable pub add_to_rule : (name sid : String) → M S (Unit {0})
  add_to_rule name sid = add_rounds rule_retries name sid

  unfoldable pub after_create : (name sid : String) → Result (Unit {0}) → M S (Unit {0})
  after_create name sid (ok _) = pure tt
  after_create name sid (err e) =
      if errors_is e already_exists
      then add_to_rule name sid
      else fail (wrap ("failed to create HA rule " ^^ (quoted name ^^ ": ")) e "")

  unfoldable pub create_or_adopt : (name sid : String) → M S (Unit {0}) → M S (Unit {0})
  create_or_adopt name sid create = do r ← attempt create; after_create name sid r

  -- The read of the rule in between only feeds a log line.
  unfoldable pub after_node_affinity : (name sid : String) → Result (Unit {0}) → M S (Unit {0})
  after_node_affinity name sid (ok _) = pure tt
  after_node_affinity name sid (err e) =
      if not (errors_is e already_exists)
      then fail (wrap ("failed to create HA rule " ^^ (quoted name ^^ ": ")) e "")
      else do _ ← attempt (get_rule name); add_to_rule name sid

  unfoldable pub ensure_node_affinity : (set sid : String) → Config → M S (Unit {0})
  ensure_node_affinity set sid cfg = do
    let name = rule_name set node_affinity_suffix
    r ← attempt (
        classified (
          call client (
            new_ha_rule (record {
              rule = name;
              rule_type = "node-affinity";
              resources = sid;
              nodes = join "," cfg.node_affinity_nodes;
              strict = is_strict cfg.node_affinity_strict;
              affinity = "";
            }))))
    after_node_affinity name sid r

  -- An infeasible rule is logged and left out.
  abbrev pub soft : Result (Unit {0}) → M S (Unit {0})
  soft (ok _) = pure tt
  soft (err e) = if errors_is e infeasible then pure tt else fail e

  -- The part behind the first switch of `ensureResourceAffinity`: the rule is not there.
  unfoldable pub create_resource_affinity :
      (tag_separator : ℕ) (name set sid : String) → Config → M S (Unit {0})
  create_resource_affinity tag_separator name set sid cfg = do
    members ← set_members client tag_separator set sid
    if ltb (length members) 2 then pure tt else do
      r ← attempt (
          create_or_adopt name sid (
            classified (
              call client (
                new_ha_rule (record {
                  rule = name;
                  rule_type = "resource-affinity";
                  resources = join "," members;
                  nodes = "";
                  strict = false;
                  affinity = cfg.resource_affinity;
                })))))
      soft r

  unfoldable pub after_add :
      (tag_separator : ℕ) (name set sid : String) → Config → Result (Unit {0}) → M S (Unit {0})
  after_add tag_separator name set sid cfg (ok _) = pure tt
  after_add tag_separator name set sid cfg (err e) =
      if errors_is e infeasible
      then pure tt
      else if not (errors_is e not_found)
      then fail e
      else create_resource_affinity tag_separator name set sid cfg

  unfoldable pub ensure_resource_affinity :
      (tag_separator : ℕ) (set sid : String) → Config → M S (Unit {0})
  ensure_resource_affinity tag_separator set sid cfg = do
    let name = rule_name set resource_affinity_suffix
    r ← attempt (add_to_rule name sid)
    after_add tag_separator name set sid cfg r

  unfoldable pub add_to_rules : List String → String → M S (Unit {0})
  add_to_rules [] sid = pure tt
  add_to_rules (name ∷ names) sid = do add_to_rule name sid; add_to_rules names sid

  abbrev pub when_m : Bool → M S (Unit {0}) → M S (Unit {0})
  when_m b m = if b then m else pure tt

  unfoldable pub sync_rules : (tag_separator : ℕ) (set sid : String) → Config → M S (Unit {0})
  sync_rules tag_separator set sid cfg = do
    when_m (not (set =ₜ "")) (do
      when_m (ltb 0 (length cfg.node_affinity_nodes)) (ensure_node_affinity set sid cfg)
      when_m (not (cfg.resource_affinity =ₜ ""))
          (ensure_resource_affinity tag_separator set sid cfg))
    add_to_rules cfg.rules sid
