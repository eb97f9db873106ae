-- ===== src/Ha/Steps.antt =====
-- Registration, the two provisioning steps and the teardown.
pub mod Frames
pub mod Registration
use omni_infra_provider_prox.Base.{
  ℕ, String, ◌^^◌, Bool, true, false, Option, none, some, ◌==◌, if◌then◌else◌,
}
use omni_infra_provider_prox.Errors.{
  Error, Result, ok, err, errors_is, error_new, wrap, not_found, already_exists,
}
use omni_infra_provider_prox.Api.{
  Client, HaResourceUpdateOption, new_ha_resource, ha_resource_update, ha_resource_delete,
}
use omni_infra_provider_prox.Data.{Context, MachineSpec}
use omni_infra_provider_prox.Exec.{
  M, pure, fail, lift, attempt, machine, set_machine, map_error, call, ◌>>=◌, ◌>>◌,
}
use omni_infra_provider_prox.Ha.Options.{Config, create_option, update_option}
use omni_infra_provider_prox.Ha.Classify.{classify, classified}
use omni_infra_provider_prox.Ha.Names.{machine_sid}
use omni_infra_provider_prox.Ha.Rules.{sync_rules}

-- none stands for `ok = false`
unfoldable pub config : Result (Option Config) → MachineSpec → Result (Option (Config × String))
config (err e) m = err e
config (ok none) m =
    if m.ha_registered
    then err
        (error_new "ha config removed from an HA-registered machine; re-add ha: or deprovision it")
    else ok none
config (ok (some cfg)) m =
    if m.vmid == 0
    then err (error_new "vmid not assigned; HA steps must run after the VM is created")
    else ok (some (cfg, machine_sid m.vmid))

module _ {S : Type 0} (client : Client S) where
  unfoldable pub update_existing : String → Option HaResourceUpdateOption → M S (Unit {0})
  update_existing sid none = pure tt
  update_existing sid (some opt) =
      map_error (λ e. wrap ("failed to update HA resource " ^^ (sid ^^ ": ")) e "")
        (classified (call client (ha_resource_update sid opt)))

  unfoldable pub after_register : String → Config → Result (Unit {0}) → M S (Unit {0})
  after_register sid cfg (ok _) = pure tt
  after_register sid cfg (err e) =
      if errors_is e already_exists
      then update_existing sid (update_option cfg)
      else fail (wrap ("failed to register HA resource " ^^ (sid ^^ ": ")) e "")

  unfoldable pub register : String → Config → M S (Unit {0})
  register sid cfg = do
    r ← attempt (classified (call client (new_ha_resource (create_option cfg sid))))
    after_register sid cfg r

  unfoldable pub after_teardown : String → Result (Unit {0}) → M S (Unit {0})
  after_teardown sid (ok _) = pure tt
  after_teardown sid (err e) =
      if errors_is e not_found
      then pure tt
      else fail (wrap ("failed to deregister HA resource " ^^ (sid ^^ ": ")) e "")

  unfoldable pub teardown : String → M S (Unit {0})
  teardown sid = do
    r ← attempt (classified (call client (ha_resource_delete sid true)))
    after_teardown sid r

  unfoldable pub register_with : Option (Config × String) → M S (Unit {0})
  register_with none = pure tt
  register_with (some (cfg, sid)) = do
    register sid cfg
    set_machine (λ m. record m { ha_registered = true })

  unfoldable pub register_step : Context → M S (Unit {0})
  register_step pctx = do m ← machine; c ← lift (config pctx.ha_data m); register_with c

  -- The set of a machine outside any set is the empty text.
  abbrev pub set_or_empty : Option String → String
  set_or_empty none = ""
  set_or_empty (some set) = set

  unfoldable pub sync_with :
      (tag_separator : ℕ) (set : String) → Option (Config × String) → M S (Unit {0})
  sync_with tag_separator set none = pure tt
  sync_with tag_separator set (some (cfg, sid)) = sync_rules client tag_separator set sid cfg

  unfoldable pub sync_rules_step : (tag_separator : ℕ) → Context → M S (Unit {0})
  sync_rules_step tag_separator pctx = do
    m ← machine
    c ← lift (config pctx.ha_data m)
    sync_with tag_separator (set_or_empty pctx.machine_request_set_id) c

  unfoldable pub deprovision : M S (Unit {0})
  deprovision = do m ← machine; if m.ha_registered then teardown (machine_sid m.vmid) else pure tt
