-- ===== src/Provision/Steps/Sharing.antt =====
-- `uploadISO`: machines that wait for one image share its download.
use omni_infra_provider_prox.Base.{
  String, ◌≡◌, refl, true, none, ◌||◌, some, ◌∷◌, lookup, arith, ◌∙◌, ap, sym, put, lookup-put,
  text_eq_refl,
}
use omni_infra_provider_prox.Errors.{Error, ok, err, retry_interval}
use omni_infra_provider_prox.Api.{Client, Task, task_ping, download_url}
use omni_infra_provider_prox.Exec.{World, call, ◌>>=◌}
use omni_infra_provider_prox.Provision.Tasks.{is_task_live}
use omni_infra_provider_prox.Provision.Steps.{after_iso, download, adopt_download, start_download}

module _ {S : Type 0} (client : Client S) (id on storage name url : String) where
  -- The world after the download has been asked for by one machine.
  abbrev pub started : World S → World S
  started w = (start_download client id on storage name url w).1

  pub starts :
      (w : World S) (upid : String)
      → (client (download_url on storage "iso" name url) w.server).0 ≡ ok upid
      → start_download client id on storage name url w ≡ (
        err (retry_interval 1),
        record w {
          server = (client (download_url on storage "iso" name url) w.server).1;
          log = download_url on storage "iso" name url ∷ w.log;
          machine = record w.machine { volume_upload_task = upid };
          pending_iso_downloads = put id upid w.pending_iso_downloads;
        },
      )
  unfolding start_download ◌>>=◌ call
  starts w upid h = ground (arith, h)

  start_download-pending :
      (w : World S) (upid : String)
      → (client (download_url on storage "iso" name url) w.server).0 ≡ ok upid
      → lookup id (started w).pending_iso_downloads ≡ some upid
  start_download-pending w upid h =
      ap (λ o. lookup id o.1.pending_iso_downloads) (starts w upid h)
      ∙ ground (arith, lookup-put id id upid w.pending_iso_downloads, text_eq_refl id)

  pub waits :
      (v : World S) (upid : String) (t : Task) (e : Error)
      → lookup id v.pending_iso_downloads ≡ some upid
      → (client (task_ping upid) v.server).0 ≡ ok t
      → (t.is_running || t.is_successful) ≡ true
      → after_iso client id on storage name url (err e) v ≡ (
        err (retry_interval 1),
        record v {
          server = (client (task_ping upid) v.server).1;
          log = task_ping upid ∷ v.log;
          machine = record v.machine { volume_upload_task = upid };
        },
      )
  unfolding after_iso download adopt_download is_task_live ◌>>=◌ call
  waits v upid t e pending answer live = rw (pending, answer, live) refl

  pub refused :
      (w : World S) (e : Error)
      → (client (download_url on storage "iso" name url) w.server).0 ≡ err e
      → start_download client id on storage name url w ≡ (
        err e,
        record w {
          server = (client (download_url on storage "iso" name url) w.server).1;
          log = download_url on storage "iso" name url ∷ w.log;
        },
      )
  unfolding start_download ◌>>=◌ call
  refused w e h = ground (arith, h)

  -- The table has no entry.
  pub starts_anew :
      (v : World S) (e : Error)
      → lookup id v.pending_iso_downloads ≡ none
      → after_iso client id on storage name url (err e) v
        ≡ start_download client id on storage name url v
  unfolding after_iso download ◌>>=◌
  starts_anew v e missing = rw missing refl

  -- Once one machine has started the download of an image, a machine that comes next, with the table of
  -- pending downloads as the first left it, starts none while Proxmox answers that the task runs or has
  -- succeeded: it only pings the task, takes it as its own, and asks for a retry.
  pub start_download-shared :
      (w v : World S) (upid : String) (t : Task) (e : Error)
      → (client (download_url on storage "iso" name url) w.server).0 ≡ ok upid
      → v.pending_iso_downloads ≡ (started w).pending_iso_downloads
      → (client (task_ping upid) v.server).0 ≡ ok t
      → (t.is_running || t.is_successful) ≡ true
      → ((after_iso client id on storage name url (err e) v).0 ≡ err (retry_interval 1))
        × ((after_iso client id on storage name url (err e) v).1.log ≡ task_ping upid ∷ v.log)
        × ((after_iso client id on storage name url (err e) v).1.machine.volume_upload_task
            ≡ (started w).machine.volume_upload_task)
  start_download-shared w v upid t e h same answer live =
      let run =
        waits v upid t e (ap (λ m. lookup id m) same ∙ start_download-pending w upid h) answer
          live in
      (
        ap (λ o. o.0) run,
        ap (λ o. o.1.log) run,
        ap (λ o. o.1.machine.volume_upload_task) run
            ∙ sym (ap (λ o. o.1.machine.volume_upload_task) (starts w upid h)),
      )
