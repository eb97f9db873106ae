-- ===== src/Provision/Tasks.antt =====
-- Proxmox tasks: `isTaskLive`, `checkTaskStatus`, `waitForTaskToFinish` and `taskFailure`. A task is
-- given by its UPID; what a ping learns of it is the answer to the ping.
pub mod Frames
pub mod Status
pub mod Waiting
use Prim.Native.Nat.{compare}
use Prim.Native.Char.{Char, code}
use omni_infra_provider_prox.Base.{
  ℕ, zero, suc, ◌-◌, String, ◌^^◌, Bool, true, false, not, ◌&&◌, ◌||◌, List, [], ◌∷◌, ◌==◌, ◌=ₜ◌,
  if◌then◌else◌, drop, length, join, trim_space, quoted,
}
use omni_infra_provider_prox.Errors.{
  Error, Result, ok, err, sentinel_error, task_failed, wrap, wrap_two, retry_interval,
}
use omni_infra_provider_prox.Api.{Client, Task, task_ping, task_log}
use omni_infra_provider_prox.Exec.{M, pure, fail, attempt, call, ◌>>=◌, ◌>>◌}
use omni_infra_provider_prox.Sorting.Insertion.{insertion_sort}

-- strings.HasPrefix
unfoldable pub has_prefix : String → String → Bool
has_prefix s String.[] = true
has_prefix String.[] (String.◌∷◌ c p) = false
has_prefix (String.◌∷◌ d s) (String.◌∷◌ c p) = code d == code c && has_prefix s p

-- cmp.Or on two texts
abbrev pub or_text : String → String → String
or_text s t = if s =ₜ "" then t else s

abbrev pub task_log_tail_lines : ℕ
task_log_tail_lines = 10

-- The lines of the log that say something, from entries in the order of their line numbers.
unfoldable pub log_lines : List (ℕ × String) → List String
unfolding has_prefix
log_lines [] = []
log_lines ((n, text) ∷ entries) =
    let rest = log_lines entries in
    let line = trim_space text in
    if line =ₜ "" || has_prefix line "TASK " then rest else line ∷ rest

-- `lines[max(0, len(lines)-taskLogTailLines):]`
unfoldable pub log_tail : List String → List String
log_tail lines = drop (length lines - task_log_tail_lines) lines

unfoldable pub task_error : Task → Error
task_error t = wrap "" (sentinel_error task_failed) (
    ": "
    ^^ (t.task_type
        ^^ (" "
            ^^ (t.id
                ^^ (" on node " ^^ (quoted t.node ^^ (": " ^^ or_text t.exit_status t.status)))))))

-- The error with the tail of the log, if the log has anything to say.
unfoldable pub with_log : Error → List (ℕ × String) → Error
with_log e log =
    let lines = log_lines (insertion_sort (λ a b. compare a.0 b.0) log) in
    if length lines == 0 then e else wrap "" e (", task log: " ^^ join " | " (log_tail lines))

unfoldable pub logged : Error → Result (List (ℕ × String)) → Error
logged e (ok log) = with_log e log
logged e (err f) = wrap_two e " (failed to read the task log: " f ")"

module _ {S : Type 0} (client : Client S) where
  unfoldable pub task_failure : {A : Type 0} → Task → M S A
  task_failure t = do
    log ← attempt (call client (task_log t.upid 0 1000))
    fail (logged (task_error t) log)

  abbrev live : Result Task → Bool
  live (ok t) = t.is_running || t.is_successful
  live (err e) = false

  unfoldable pub is_task_live : String → M S Bool
  is_task_live id = do r ← attempt (call client (task_ping id)); pure (live r)

  unfoldable pub task_status : Task → M S (Unit {0})
  task_status t =
      if t.is_running
      then fail (retry_interval 10)
      else if t.is_successful
      then pure tt
      else task_failure t

  unfoldable pub check_task_status : String → M S (Unit {0})
  check_task_status id = do t ← call client (task_ping id); task_status t

  -- One tick of the loop: `again` is the rest of it.
  unfoldable pub wait_round : String → M S (Unit {0}) → M S (Unit {0})
  wait_round upid again = do
    t ← call client (task_ping upid)
    if t.is_failed then task_failure t else if t.is_successful then pure tt else again

  -- `ticks` ticks of the ticker are taken before the context is done with `ctx.Err()`.
  unfoldable pub wait_for_task_to_finish : (ticks : ℕ) → Error → String → M S (Unit {0})
  wait_for_task_to_finish zero cancelled upid = fail cancelled
  wait_for_task_to_finish (suc ticks) cancelled upid =
      let again = wait_for_task_to_finish ticks cancelled upid in wait_round upid again
