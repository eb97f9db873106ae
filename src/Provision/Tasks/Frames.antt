-- ===== src/Provision/Tasks/Frames.antt =====
-- What the work on tasks leaves alone: whatever requests do not reach.
use omni_infra_provider_prox.Base.{ℕ, zero, suc, String}
use omni_infra_provider_prox.Errors.{Error}
use omni_infra_provider_prox.Api.{Client, Task}
use omni_infra_provider_prox.Exec.{World, M}
use omni_infra_provider_prox.Exec.Frames.{IsStable, Keeps, frame_rules}
use omni_infra_provider_prox.Provision.Tasks.{
  task_failure, task_status, check_task_status, is_task_live, wait_round, wait_for_task_to_finish,
}

module _ {S : Type 0} (client : Client S) (inv : World S → Type 0)
    (local : IsStable client inv) where
  task_failure-Keeps : (t : Task) → Keeps inv (task_failure client {A = Unit {0}} t)
  unfolding task_failure
  task_failure-Keeps t = search frame_rules depth 9

  task_status-Keeps : (t : Task) → Keeps inv (task_status client t)
  unfolding task_status
  task_status-Keeps t = search (frame_rules, task_failure-Keeps)

  pub check_task_status-Keeps : (id : String) → Keeps inv (check_task_status client id)
  unfolding check_task_status
  check_task_status-Keeps id = search (frame_rules, task_status-Keeps) depth 9

  pub is_task_live-Keeps : (id : String) → Keeps inv (is_task_live client id)
  unfolding is_task_live
  is_task_live-Keeps id = search frame_rules depth 9

  round-Keeps :
      (upid : String) (again : M S (Unit {0}))
      → Keeps inv again
      → Keeps inv (wait_round client upid again)
  unfolding wait_round
  round-Keeps upid again h = search (frame_rules, task_failure-Keeps) depth 9

  pub wait-Keeps :
      (ticks : ℕ) (cancelled : Error) (upid : String)
      → Keeps inv (wait_for_task_to_finish client ticks cancelled upid)
  unfolding wait_for_task_to_finish
  wait-Keeps zero cancelled upid = search frame_rules
  wait-Keeps (suc ticks) cancelled upid = round-Keeps upid _ (wait-Keeps ticks cancelled upid)
