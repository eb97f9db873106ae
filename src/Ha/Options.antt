-- ===== src/Ha/Options.antt =====
-- The `ha:` block of a machine class, and the forms that it is sent in. An `int` that is only passed on
-- stands as its 64-bit pattern.
use omni_infra_provider_prox.Base.{
  ℕ, String, Bool, true, false, ◌&&◌, Option, none, some, List, ◌=ₜ◌, if◌then◌else◌,
}
use omni_infra_provider_prox.Api.{HaResourceCreateOption, HaResourceUpdateOption}

pub record Config : Type 0 where
  pub max_restart : Option ℕ
  pub max_relocate : Option ℕ
  pub node_affinity_strict : Option Bool
  pub failback : Option Bool
  pub state : String
  pub comment : String
  pub resource_affinity : String
  pub rules : List String
  pub node_affinity_nodes : List String

-- `if s != "" { p = &s }`
abbrev pub when_set : String → Option String
when_set s = if s =ₜ "" then none else some s

unfoldable pub create_option : Config → String → HaResourceCreateOption
create_option cfg sid = record {
  sid = sid;
  comment = cfg.comment;
  max_restart = cfg.max_restart;
  max_relocate = cfg.max_relocate;
  state = when_set cfg.state;
  failback = cfg.failback;
}

abbrev is_nil : {A : Type 0} → Option A → Bool
is_nil none = true
is_nil (some a) = false

-- none where the block sets none of the mutable fields
unfoldable pub update_option : Config → Option HaResourceUpdateOption
update_option cfg =
    if cfg.state =ₜ ""
      && cfg.comment =ₜ ""
      && is_nil cfg.max_restart
      && is_nil cfg.max_relocate
      && is_nil cfg.failback
    then none
    else some (record {
      comment = cfg.comment;
      max_restart = cfg.max_restart;
      max_relocate = cfg.max_relocate;
      state = when_set cfg.state;
      failback = cfg.failback;
    })
