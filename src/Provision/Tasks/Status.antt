-- ===== src/Provision/Tasks/Status.antt =====
-- `checkTaskStatus` on every answer of Proxmox, and what the error of a failed task carries.
use omni_infra_provider_prox.Base.{
  ℕ, ◌-◌, ◌≤◌, String, ◌≡◌, ◌∙◌, refl, true, false, ◌⊎◌, List, arith, length, length-drop,
  Bool-cases, inl, inr,
}
use omni_infra_provider_prox.Errors.{
  Error, Result, ok, err, errors_is, task_failed, retry_interval, Result-cases,
}
use omni_infra_provider_prox.Api.{Client, Task, task_ping}
use omni_infra_provider_prox.Exec.{World, pure, fail, call, ◌>>=◌}
use omni_infra_provider_prox.Provision.Tasks.{
  log_tail, task_log_tail_lines, task_error, with_log, logged, task_failure, task_status,
  check_task_status,
}

-- The tail that the error carries has ten lines at most.
pub length-log_tail : (lines : List String) → length (log_tail lines) ≤ task_log_tail_lines
unfolding log_tail
length-log_tail lines = omega (arith, length-drop (length lines - task_log_tail_lines) lines)

with_log-task_failed :
    (e : Error) (log : List (ℕ × String))
    → errors_is e task_failed ≡ true
    → errors_is (with_log e log) task_failed ≡ true
unfolding with_log
with_log-task_failed e log h = ground (arith, h)

task_error-task_failed : (t : Task) → errors_is (task_error t) task_failed ≡ true
unfolding task_error
task_error-task_failed t = refl

logged-task_failed :
    (t : Task) (r : Result (List (ℕ × String)))
    → errors_is (logged (task_error t) r) task_failed ≡ true
unfolding logged task_error
logged-task_failed t (ok log) = with_log-task_failed (task_error t) log (task_error-task_failed t)
logged-task_failed t (err f) = refl

-- What `checkTaskStatus` returns for each answer to the ping.
abbrev pub StatusOf : Result Task → Result (Unit {0}) → Type 0
StatusOf (err e) r = r ≡ err e
StatusOf (ok t) r =
    ((t.is_running ≡ true) × (r ≡ err (retry_interval 10)))
    ⊎ ((t.is_running ≡ false) × (t.is_successful ≡ true) × (r ≡ ok tt))
    ⊎ ((t.is_running ≡ false)
        × (t.is_successful ≡ false)
        × (e : Error) × (r ≡ err e)
        × (errors_is e task_failed ≡ true))

module _ {S : Type 0} (client : Client S) where
  failure_error :
      (t : Task) (w : World S)
      → (e : Error) × ((task_failure client {A = Unit {0}} t w).0 ≡ err e)
        × (errors_is e task_failed ≡ true)
  unfolding task_failure ◌>>=◌
  failure_error t w = (_, refl, logged-task_failed t _)

  at_failure :
      (t : Task) (w : World S)
      → t.is_running ≡ false
      → t.is_successful ≡ false
      → (task_status client t w).0 ≡ (task_failure client {A = Unit {0}} t w).0
  unfolding task_status
  at_failure t w idle failure = rw (idle, failure) refl

  status_of : (t : Task) (w : World S) → StatusOf (ok t) (task_status client t w).0
  unfolding task_status fail pure
  status_of t w = elim (Bool-cases t.is_running) [
    | inl running ↦ inl (running, ground (arith, running))
    | inr idle ↦ elim (Bool-cases t.is_successful) [
      | inl success ↦ inr (inl (idle, success, ground (arith, idle, success)))
      | inr failure ↦ inr (
          inr
            let (e, is, kind) = failure_error t w in
              (idle, failure, e, at_failure t w idle failure ∙ is, kind))
    ]
  ]

  -- `checkTaskStatus` returns the error of a ping that fails, a retry while the task runs, success for a
  -- task that succeeded, and for any other an error that is `errTaskFailed`, also if the log of the task
  -- cannot be read.
  pub check_task_status_lem :
      (id : String) (w : World S)
      → StatusOf (client (task_ping id) w.server).0 (check_task_status client id w).0
  unfolding check_task_status ◌>>=◌ call
  check_task_status_lem id w = elim (Result-cases (client (task_ping id) w.server).0) [
    | inl (t, e) ↦ rw e (status_of t _)
    | inr (x, e) ↦ rw e refl
  ]
