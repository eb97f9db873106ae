-- ===== src/Ha/Steps/Registration.antt =====
-- `RegisterStep`: when the machine is marked as registered.
use omni_infra_provider_prox.Base.{
  String, ◌≡◌, refl, ap, true, false, Option, none, some, ◌⊎◌, inl, inr, ◌==◌, Bool-cases,
}
use omni_infra_provider_prox.Errors.{Result, ok, err}
use omni_infra_provider_prox.Api.{Client}
use omni_infra_provider_prox.Data.{Context, MachineSpec}
use omni_infra_provider_prox.Exec.{call, World, lift, machine, set_machine, continue, ◌>>=◌}
use omni_infra_provider_prox.Exec.Frames.{IsStable, Stays, part-kept}
use omni_infra_provider_prox.Ha.Options.{Config}
use omni_infra_provider_prox.Ha.Names.{machine_sid}
use omni_infra_provider_prox.Ha.Steps.{config, register, register_with, register_step}
use omni_infra_provider_prox.Ha.Steps.Frames.{register-Keeps}

pub machine-IsStable :
    {S : Type 0} (client : Client S) (m : MachineSpec) → IsStable client (λ w. w.machine ≡ m)
unfolding call
machine-IsStable client m = record { at = λ r other v h. h }

-- What a run of the step may have done to the machine `m`: an error leaves it; success leaves it where the
-- class asks for no HA, and marks it as registered where it does.
abbrev pub RegistrationOf :
    Result (Option Config) → MachineSpec → Result (Unit {0}) → MachineSpec → Type 0
RegistrationOf asked m (err e) m' = m' ≡ m
RegistrationOf asked m (ok _) m' =
    ((asked ≡ ok none) × (m.ha_registered ≡ false) × (m' ≡ m))
    ⊎ ((cfg : Config) × (asked ≡ ok (some cfg)) × (m' ≡ record m { ha_registered = true }))

module _ {S : Type 0} (client : Client S) where
  registered :
      (asked : Result (Option Config)) (cfg : Config) (sid : String) (w : World S)
      → asked ≡ ok (some cfg)
      → RegistrationOf asked w.machine
          (register_with client (some (cfg, sid)) w).0
          (register_with client (some (cfg, sid)) w).1.machine
  unfolding register_with ◌>>=◌
  registered asked cfg sid w h =
      outcome (register client sid cfg w).0 (register client sid cfg w).1 (
        part-kept (register client sid cfg) w (
          register-Keeps client (Stays (λ v. v.machine) w) (machine-IsStable client w.machine) sid
            cfg))
    where
      outcome :
          (r : Result (Unit {0})) (v : World S)
          → v.machine ≡ w.machine
          → RegistrationOf asked w.machine
              (continue r (λ _. set_machine (λ m. record m { ha_registered = true })) v).0
              (continue r (λ _. set_machine (λ m. record m { ha_registered = true })) v).1.machine
      outcome (ok _) v e =
          inr (cfg, h, ap (λ (m : MachineSpec). record m { ha_registered = true }) e)
      outcome (err x) v e = e

  abbrev done : Result (Option Config) → World S → Result (Unit {0}) × World S
  done asked w = (machine >>= λ m. lift (config asked m) >>= λ c. register_with client c) w

  by_class :
      (asked : Result (Option Config)) (w : World S)
      → RegistrationOf asked w.machine (done asked w).0 (done asked w).1.machine
  unfolding config register_with ◌>>=◌
  by_class (err e) w = refl
  by_class (ok none) w = elim (Bool-cases w.machine.ha_registered) [
    | inl marked ↦ rw marked refl
    | inr unmarked ↦ rw unmarked (inl (refl, refl, refl))
  ]
  by_class (ok (some cfg)) w = elim (Bool-cases (w.machine.vmid == 0)) [
    | inl unassigned ↦ rw unassigned refl
    | inr assigned ↦
        rw assigned (registered (ok (some cfg)) cfg (machine_sid w.machine.vmid) w refl)
  ]

  -- If `RegisterStep` fails, the machine is as it was. If it succeeds, either the class asks for no
  -- HA and the machine, never registered, is as it was; or the class asks for HA, and the machine
  -- is marked as registered and is otherwise as it was.
  pub register_step_lem :
      (pctx : Context) (w : World S)
      → RegistrationOf pctx.ha_data w.machine
          (register_step client pctx w).0
          (register_step client pctx w).1.machine
  unfolding register_step
  register_step_lem pctx w = by_class pctx.ha_data w
