-- ===== src/Provision/Steps/Replacing.antt =====
-- `uploadISO`: a download that died is replaced.
use omni_infra_provider_prox.Base.{String, ◌≡◌, refl, false, ◌||◌, some, ◌∷◌, lookup, delete}
use omni_infra_provider_prox.Errors.{Error, Result, ok, err}
use omni_infra_provider_prox.Api.{Client, Task, task_ping}
use omni_infra_provider_prox.Exec.{World, call, ◌>>=◌}
use omni_infra_provider_prox.Provision.Tasks.{is_task_live}
use omni_infra_provider_prox.Provision.Steps.{after_iso, download, forget_download, start_download}

-- Proxmox does not know the task, or it is over without success.
abbrev pub IsDead : Result Task → Type 0
IsDead (ok t) = (t.is_running || t.is_successful) ≡ false
IsDead (err e) = Unit {0}

module _ {S : Type 0} (client : Client S) (id on storage name url : String) where
  -- The world after the ping of the task on the table, with the entry dropped.
  abbrev pub pinged : World S → String → World S
  pinged w task = record w {
    server = (client (task_ping task) w.server).1;
    log = task_ping task ∷ w.log;
    pending_iso_downloads = delete id w.pending_iso_downloads;
  }

  pub restarts :
      (w : World S) (task : String) (e : Error) (a : Result Task)
      → lookup id w.pending_iso_downloads ≡ some task
      → (client (task_ping task) w.server).0 ≡ a
      → IsDead a
      → after_iso client id on storage name url (err e) w
        ≡ start_download client id on storage name url (pinged w task)
  unfolding after_iso download is_task_live forget_download ◌>>=◌ call
  restarts w task e (ok t) pending answer dead = rw (pending, answer, dead) refl
  restarts w task e (err x) pending answer dead = rw (pending, answer) refl
