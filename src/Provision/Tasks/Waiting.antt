-- ===== src/Provision/Tasks/Waiting.antt =====
-- `waitForTaskToFinish`: that it returns when the task is done.
use omni_infra_provider_prox.Base.{
  ℕ, zero, suc, ◌<◌, String, ◌≡◌, ◌≢◌, ◌∙◌, ap, sym, refl, inl, inr, Bool-cases, true, false, arith,
  ◌∷◌,
}
use omni_infra_provider_prox.Errors.{Error, ok, err, Result-cases}
use omni_infra_provider_prox.Api.{Client, Task, task_ping}
use omni_infra_provider_prox.Exec.{World, M, attempt, fail, call, ◌>>=◌}
use omni_infra_provider_prox.Provision.Tasks.{task_failure, wait_round, wait_for_task_to_finish}

module _ {S : Type 0} (client : Client S) (upid : String) where
  -- The server state after so many pings, while nothing else is sent.
  unfoldable pub pinged : ℕ → S → S
  pinged zero s = s
  pinged (suc n) s = pinged n (client (task_ping upid) s).1

  -- The answer says that the task neither failed nor succeeded.
  abbrev pub StillRuns : S → Type 0
  StillRuns s =
      (t : Task) × ((client (task_ping upid) s).0 ≡ ok t)
      × (t.is_failed ≡ false)
      × (t.is_successful ≡ false)

  -- The answer says that the task succeeded.
  abbrev pub IsDone : S → Type 0
  IsDone s =
      (t : Task) × ((client (task_ping upid) s).0 ≡ ok t)
      × (t.is_failed ≡ false)
      × (t.is_successful ≡ true)

  -- The first `n` pings say that the task still runs.
  abbrev pub RunsFor : ℕ → S → Type 0
  RunsFor zero s = Unit {0}
  RunsFor (suc n) s = StillRuns s × RunsFor n (client (task_ping upid) s).1

  round_done :
      (again : M S (Unit {0})) (w : World S)
      → IsDone w.server
      → (wait_round client upid again w).0 ≡ ok tt
  unfolding wait_round ◌>>=◌ call
  round_done again w (t, answer, sound, done) = ground (arith, answer, sound, done)

  round_runs :
      (again : M S (Unit {0})) (w : World S)
      → StillRuns w.server
      → wait_round client upid again w
        ≡ again (record w {
          server = (client (task_ping upid) w.server).1;
          log = task_ping upid ∷ w.log;
        })
  unfolding wait_round ◌>>=◌ call
  round_runs again w (t, answer, sound, runs) = ground (arith, answer, sound, runs)

  -- If the task runs for `n` pings and is done at the next one, and the context is not done before that
  -- tick, the wait returns without an error.
  pub wait_for_task_to_finish-done :
      (n ticks : ℕ) (cancelled : Error) (w : World S)
      → n < ticks
      → RunsFor n w.server
      → IsDone (pinged n w.server)
      → (wait_for_task_to_finish client ticks cancelled upid w).0 ≡ ok tt
  unfolding wait_for_task_to_finish pinged
  wait_for_task_to_finish-done n zero cancelled w h runs done = absurd (omega arith)
  wait_for_task_to_finish-done zero (suc ticks) cancelled w h runs done = round_done _ w done
  wait_for_task_to_finish-done (suc n) (suc ticks) cancelled w h runs done =
      ap (λ o. o.0) (round_runs _ w runs.0)
      ∙ wait_for_task_to_finish-done n ticks cancelled _ (omega arith) runs.1 done

  -- The task ran for some pings, and was done at the next one.
  abbrev pub HasEnded : ℕ → S → Type 0
  HasEnded n s = RunsFor n s × IsDone (pinged n s)

  -- The server behind the ping that found the task done.
  abbrev pub after_end : ℕ → S → S
  after_end n s = (client (task_ping upid) (pinged n s)).1

  task_failure_fails : (t : Task) (w : World S) → (task_failure client {A = Unit {0}} t w).0 ≢ ok tt
  unfolding task_failure attempt fail ◌>>=◌
  task_failure_fails t w h = absurd (ground arith)

  round_lost :
      (again : M S (Unit {0})) (w : World S) (e : Error)
      → (client (task_ping upid) w.server).0 ≡ err e
      → (wait_round client upid again w).0 ≢ ok tt
  unfolding wait_round ◌>>=◌ call
  round_lost again w e answer h = absurd (ground arith)

  round_failed :
      (again : M S (Unit {0})) (w : World S) (t : Task)
      → (client (task_ping upid) w.server).0 ≡ ok t
      → t.is_failed ≡ true
      → (wait_round client upid again w).0 ≢ ok tt
  unfolding wait_round ◌>>=◌ call
  round_failed again w t answer failed =
      rw (answer, failed) (task_failure_fails (record t { is_failed = true }) _)

  round_over :
      (again : M S (Unit {0})) (w : World S)
      → IsDone w.server
      → (wait_round client upid again w).1.server ≡ (client (task_ping upid) w.server).1
  unfolding wait_round ◌>>=◌ call
  round_over again w (t, answer, sound, done) = rw (answer, sound, done) refl

  -- A wait that succeeds has seen the end of the task, and has only pinged it.
  pub wait_ends :
      (ticks : ℕ) (cancelled : Error) (w : World S)
      → (wait_for_task_to_finish client ticks cancelled upid w).0 ≡ ok tt
      → (n : ℕ) × HasEnded n w.server
        × ((wait_for_task_to_finish client ticks cancelled upid w).1.server ≡ after_end n w.server)
  unfolding wait_for_task_to_finish pinged fail
  wait_ends zero cancelled w h = absurd (ground arith)
  wait_ends (suc ticks) cancelled w h =
      let again = wait_for_task_to_finish client ticks cancelled upid in
      elim (Result-cases (client (task_ping upid) w.server).0) [
        | inr (e, lost) ↦ absurd (round_lost again w e lost h)
        | inl (t, answer) ↦ elim (Bool-cases t.is_failed) [
          | inl failed ↦ absurd (round_failed again w t answer failed h)
          | inr sound ↦ elim (Bool-cases t.is_successful) [
            | inl done ↦
                let over : IsDone w.server = (t, answer, sound, done) in
                (0, (tt, over), round_over again w over)
            | inr not_yet ↦
                let running : StillRuns w.server = (t, answer, sound, not_yet) in
                let e = round_runs again w running in
                let (n, (runs, over), last) =
                  wait_ends ticks cancelled _ (sym (ap (λ o. o.0) e) ∙ h) in
                (suc n, ((running, runs), over), ap (λ o. o.1.server) e ∙ last)
          ]
        ]
      ]
