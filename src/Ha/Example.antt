-- ===== src/Ha/Example.antt =====
-- The rules of the example server, as the theorems of the HA manager take them.
use omni_infra_provider_prox.Base.{
  Map, has_space, trim_space-clean, String, ◌≡◌, ◌∙◌, refl, ap, ◌^^◌, true, Option, none, some, [],
  arith, lookup, put, lookup-put, ◌=ₜ◌, text_eq_refl, free_of, Bool-cases, inl, inr,
}
use omni_infra_provider_prox.Errors.{ok, err}
use omni_infra_provider_prox.Api.{nodes, Request, HaRule, HaRuleUpdateOption, ha_rule}
use omni_infra_provider_prox.Exec.Example.{Server, server, edit_rule, edited}
use omni_infra_provider_prox.Ha.Options.{Config}
use omni_infra_provider_prox.Ha.Names.Csv.{IsMember}
use omni_infra_provider_prox.Ha.Rules.Editing.{IsRuleStore, HasMember}
use omni_infra_provider_prox.Ha.Rules.Quiet.{IsQuietStore}
use omni_infra_provider_prox.Errors.{Error}
use omni_infra_provider_prox.Base.{false, eq_iff}
use omni_infra_provider_prox.Api.{
  HaRuleCreateOption, new_ha_rule, ha_rule_update, new_ha_resource, ha_resource_update,
  ha_resource_delete, ha_resources, node, virtual_machines, virtual_machine, storages, storage_iso,
  iso, download_url, cluster, next_id, new_virtual_machine, vm_cloud_init, vm_start, vm_stop,
  vm_delete, task_ping, task_log, pools, pool, new_pool, pool_delete,
}
use omni_infra_provider_prox.Exec.Example.{create_rule, created}
use omni_infra_provider_prox.Ha.Rules.Sharing.{edits, IsSharedStore}

abbrev pub rules_of : Server → String → Option HaRule
rules_of s name = lookup name s.rules

read_rule :
    (s : Server) (name : String) (r : HaRule) (o : Option HaRule)
    → lookup name s.rules ≡ o
    → (server (ha_rule name) s).0 ≡ ok r
    → o ≡ some r
read_rule s name r none e h = absurd (ground arith)
read_rule s name r (some q) e h = ground arith

put_there : (name : String) (r : HaRule) (m : Map HaRule) → lookup name (put name r m) ≡ some r
put_there name r m = ground (arith, lookup-put name name r m, text_eq_refl name)

abbrev store_after : Server → String → HaRuleUpdateOption → HaRule → Server
store_after s name opt q = record s { rules = put name (edited opt (q.digest ^^ "+")) s.rules }

accepted :
    (s : Server) (name : String) (opt : HaRuleUpdateOption) (q : HaRule) (o : Option HaRule)
    → o ≡ some q
    → (opt.digest =ₜ q.digest) ≡ true
    → edit_rule name opt s o ≡ (ok tt, store_after s name opt q)
accepted s name opt q o there same = rw (there, same) refl

same_digest :
    (opt : HaRuleUpdateOption) (q : HaRule)
    → opt.digest ≡ q.digest
    → (opt.digest =ₜ q.digest) ≡ true
same_digest opt q e = rw (e, text_eq_refl q.digest) refl

refused :
    (s : Server) (name : String) (opt : HaRuleUpdateOption) (o : Option HaRule)
    → (edit_rule name opt s o).0 ≡ ok tt
    → (q : HaRule) × (o ≡ some q) × ((opt.digest =ₜ q.digest) ≡ true)
refused s name opt none h = absurd (ground arith)
refused s name opt (some q) h = elim (Bool-cases (opt.digest =ₜ q.digest)) [
  | inl same ↦ (q, refl, same)
  | inr other ↦ absurd (ground arith)
]

pub server-IsQuietStore : IsQuietStore server rules_of
server-IsQuietStore = record {
  reads = λ s name r e. (ground arith, e);
  writes = λ s name r opt there same.
      let e = accepted s name opt r (lookup name s.rules) there (same_digest opt r same) in
      inl (
        r.digest ^^ "+",
        ap (λ x. x.0) e,
        ap (λ x. rules_of x.1 name) e ∙ put_there name (edited opt (r.digest ^^ "+")) s.rules,
      );
}

pub server-IsRuleStore : IsRuleStore server rules_of
server-IsRuleStore = record {
  reads = λ s name r h. read_rule s name r (lookup name s.rules) refl h;
  writes = λ s name opt h.
      let (q, there, same) = refused s name opt (lookup name s.rules) h in
      let e = accepted s name opt q (lookup name s.rules) there same in
      (
        edited opt (q.digest ^^ "+"),
        ap (λ x. rules_of x.1 name) e ∙ put_there name (edited opt (q.digest ^^ "+")) s.rules,
        λ sid k. k,
      );
}

pub vm_102 : IsMember "vm:102"
vm_102 = record {
  named = refl;
  no_comma = unfold free_of in refl;
  trimmed = trim_space-clean "vm:102" (unfold has_space in refl);
}

abbrev pub apart : Config
apart = record {
  max_restart = none;
  max_relocate = none;
  node_affinity_strict = none;
  failback = none;
  state = "";
  comment = "";
  resource_affinity = "negative";
  rules = [];
  node_affinity_nodes = [];
}

has_other :
    (m : Map HaRule) (n name sid : String) (r : HaRule)
    → (n =ₜ name) ≡ false
    → HasMember (λ (x : Map HaRule) y. lookup y x) m name sid
    → HasMember (λ (x : Map HaRule) y. lookup y x) (put n r m) name sid
has_other m n name sid r other (q, there, has) = (q, ground (arith, lookup-put n name r m), has)

abbrev Has : Server → String → String → Type 0
Has s name sid = HasMember rules_of s name sid

kept_by_edit :
    (s : Server) (n name sid : String) (opt : HaRuleUpdateOption) (o : Option HaRule)
    → (n =ₜ name) ≡ false
    → Has s name sid
    → Has (edit_rule n opt s o).1 name sid
kept_by_edit s n name sid opt none other h = h
kept_by_edit s n name sid opt (some q) other h = elim (Bool-cases (opt.digest =ₜ q.digest)) [
  | inl same ↦ rw same (has_other s.rules n name sid _ other h)
  | inr stale ↦ rw stale h
]

kept_by_creation :
    (s : Server) (name sid : String) (opt : HaRuleCreateOption) (o : Option HaRule)
    → lookup opt.rule s.rules ≡ o
    → Has s name sid
    → Has (create_rule opt s o).1 name sid
kept_by_creation s name sid opt (some q) e h = h
kept_by_creation s name sid opt none e (r, there, has) = elim (Bool-cases (opt.rule =ₜ name)) [
  | inr other ↦ has_other s.rules opt.rule name sid (created opt) other (r, there, has)
  | inl same ↦
      absurd (let k = ap (λ n. lookup n s.rules) ((eq_iff opt.rule name).0 same) in ground arith)
]

refusal_keeps :
    (s : Server) (name sid : String) (opt : HaRuleUpdateOption) (o : Option HaRule) (e : Error)
    → (edit_rule name opt s o).0 ≡ err e
    → Has s name sid
    → Has (edit_rule name opt s o).1 name sid
refusal_keeps s name sid opt none e h k = k
refusal_keeps s name sid opt (some q) e h k = elim (Bool-cases (opt.digest =ₜ q.digest)) [
  | inl same ↦
      absurd (let no : (edit_rule name opt s (some q)).0 ≡ ok tt = rw same refl in ground arith)
  | inr stale ↦ rw stale k
]

creation_stores :
    (s : Server) (opt : HaRuleCreateOption) (o : Option HaRule)
    → (create_rule opt s o).0 ≡ ok tt
    → rules_of (create_rule opt s o).1 opt.rule ≡ some (created opt)
creation_stores s opt none h = put_there opt.rule (created opt) s.rules
creation_stores s opt (some q) h = absurd (ground arith)

server-keeps :
    (s : Server) (req : Request) (name sid : String)
    → edits name req ≡ false
    → Has s name sid
    → Has (server req s).1 name sid
server-keeps s (new_ha_resource _) name sid e h = h
server-keeps s (ha_resource_delete _ _) name sid e h = h
server-keeps s ha_resources name sid e h = h
server-keeps s (ha_rule _) name sid e h = h
server-keeps s nodes name sid e h = h
server-keeps s (node _) name sid e h = h
server-keeps s (virtual_machines _) name sid e h = h
server-keeps s (virtual_machine _ _) name sid e h = h
server-keeps s (storages _) name sid e h = h
server-keeps s (storage_iso _) name sid e h = h
server-keeps s (iso _ _ _) name sid e h = h
server-keeps s (download_url _ _ _ _ _) name sid e h = h
server-keeps s cluster name sid e h = h
server-keeps s next_id name sid e h = h
server-keeps s (new_virtual_machine _ _ _) name sid e h = h
server-keeps s (vm_cloud_init _ _ _ _ _ _ _) name sid e h = h
server-keeps s (vm_start _ _) name sid e h = h
server-keeps s (vm_stop _ _) name sid e h = h
server-keeps s (vm_delete _ _) name sid e h = h
server-keeps s (task_ping _) name sid e h = h
server-keeps s (task_log _ _ _) name sid e h = h
server-keeps s pools name sid e h = h
server-keeps s (pool _) name sid e h = h
server-keeps s (pool_delete _) name sid e h = h
server-keeps s (ha_resource_update _ _) name sid e h = h
server-keeps s (new_pool _ _) name sid e h = h
server-keeps s (ha_rule_update n opt) name sid e h =
    kept_by_edit s n name sid opt (lookup n s.rules) e h
server-keeps s (new_ha_rule opt) name sid e h =
    kept_by_creation s name sid opt (lookup opt.rule s.rules) refl h

pub server-IsSharedStore : IsSharedStore server rules_of
server-IsSharedStore = record {
  store = server-IsRuleStore;
  creates = λ s opt h. (created opt, creation_stores s opt (lookup opt.rule s.rules) h, λ sid k. k);
  keeps = server-keeps;
  refuses = λ s name sid opt e h k. refusal_keeps s name sid opt (lookup name s.rules) e h k;
}
