-- ===== src/Provision/Run/Failed.antt =====
-- A creation that failed.
use omni_infra_provider_prox.Base.{ℕ, ◌≡◌, ◌∙◌, refl, ap, subst, true, false, inl, inr, ◌=ₜ◌, arith}
use omni_infra_provider_prox.Errors.{Error, Result, ok, err, errors_is, task_failed}
use omni_infra_provider_prox.Api.{Task, task_ping, is_creation}
use omni_infra_provider_prox.Data.{Context}
use omni_infra_provider_prox.Exec.{World}
use omni_infra_provider_prox.Provision.Tasks.Status.{StatusOf, check_task_status_lem}
use omni_infra_provider_prox.Provision.Tasks.{check_task_status}
use omni_infra_provider_prox.Provision.Run.{
  Step, pick_node, upload, sync, start, register_ha, sync_ha_rules, Provisioner, run_step, counting,
  Move, attempt, others, outside, Reaches, here, later,
}
use omni_infra_provider_prox.Provision.Run.Creation.{creations}
use omni_infra_provider_prox.Provision.Run.Unique.{
  counted, other_step-kept, recorded_sync, recorded_sync-kept,
}

module _ {S F : Type 0} (p : Provisioner S F) where
  run_step-kept :
      (step : Step) (now : ℕ) (pctx : Context) (w : World (S × ℕ))
      → (w.machine.vm_create_task =ₜ "") ≡ false
      → creations (run_step (counted p) step now pctx w).1 ≡ creations w
  unfolding run_step
  run_step-kept sync now pctx w on = recorded_sync-kept p pctx w on
  run_step-kept pick_node now pctx w on = other_step-kept p pick_node now pctx w refl
  run_step-kept upload now pctx w on = other_step-kept p upload now pctx w refl
  run_step-kept start now pctx w on = other_step-kept p start now pctx w refl
  run_step-kept register_ha now pctx w on = other_step-kept p register_ha now pctx w refl
  run_step-kept sync_ha_rules now pctx w on = other_step-kept p sync_ha_rules now pctx w refl

  Move-kept :
      {w v : World (S × ℕ)}
      → Move (counted p) w v
      → (w.machine.vm_create_task =ₜ "") ≡ false
      → v.machine.vm_create_task ≡ w.machine.vm_create_task
  Move-kept {w} (attempt step now pctx) on = ap (λ c. c.1) (run_step-kept step now pctx w on)
  Move-kept (others ledger downloads) on = refl
  Move-kept (outside s) on = refl

  Reaches-kept :
      {w v : World (S × ℕ)}
      → Reaches (counted p) w v
      → (w.machine.vm_create_task =ₜ "") ≡ false
      → v.machine.vm_create_task ≡ w.machine.vm_create_task
  Reaches-kept here on = refl
  Reaches-kept (later r m) on =
      let before = Reaches-kept r on in Move-kept m (ap (λ t. t =ₜ "") before ∙ on) ∙ before

  failure :
      (t : Task) (r : Result (Unit {0}))
      → t.is_running ≡ false
      → t.is_successful ≡ false
      → StatusOf (ok t) r
      → (e : Error) × (r ≡ err e) × (errors_is e task_failed ≡ true)
  failure t r idle bad (inl (running, _)) = absurd (ground arith)
  failure t r idle bad (inr (inl done)) = absurd (let good = done.1 in ground arith)
  failure t r idle bad (inr (inr (i, s, e, is, kind))) = (e, is, kind)

  -- A creation that failed stays: from a machine with a creation task on record, after any attempts
  -- of any steps and any changes by others, `syncVM` returns an error that is `errTaskFailed`
  -- whenever Proxmox answers that this task is over without success, and leaves the task on record,
  -- so that no later attempt creates the machine anew.
  pub Reaches-failed :
      {w v : World (S × ℕ)} (now : ℕ) (pctx : Context) (t : Task)
      → (w.machine.vm_create_task =ₜ "") ≡ false
      → Reaches (counted p) w v
      → (p.client (task_ping w.machine.vm_create_task) v.server.0).0 ≡ ok t
      → t.is_running ≡ false
      → t.is_successful ≡ false
      → (e : Error) × ((run_step (counted p) sync now pctx v).0 ≡ err e)
        × (errors_is e task_failed ≡ true)
        × ((run_step (counted p) sync now pctx v).1.machine.vm_create_task
            ≡ w.machine.vm_create_task)
  unfolding run_step
  Reaches-failed {w} {v} now pctx t on r answer idle bad =
      let same = Reaches-kept r on in
      let still : (v.machine.vm_create_task =ₜ "") ≡ false = ap (λ x. x =ₜ "") same ∙ on in
      let asked : (p.client (task_ping v.machine.vm_create_task) v.server.0).0 ≡ ok t =
        ap (λ x. (p.client (task_ping x) v.server.0).0) same ∙ answer in
      let status =
        subst
          (λ a.
            StatusOf a
              (check_task_status (counting is_creation p.client) v.machine.vm_create_task v).0)
          asked
          (check_task_status_lem (counting is_creation p.client) v.machine.vm_create_task v) in
      let (e, is, kind) = failure t _ idle bad status in
      (
        e,
        ap (λ o. o.0) (recorded_sync p pctx v still) ∙ is,
        kind,
        ap (λ c. c.1) (recorded_sync-kept p pctx v still) ∙ same,
      )
