-- ===== src/Provision/Steps.antt =====
-- The steps `uploadISO` and `startVM`, and `getVM`. The mutex of the pending downloads makes the part
-- behind it one step. Log lines are left out.
pub mod Frames
pub mod Sharing
pub mod Replacing
use omni_infra_provider_prox.Base.{
  ℕ, String, ◌^^◌, Bool, true, false, not, Option, none, some, ◌=ₜ◌, if◌then◌else◌, lookup, put,
  delete,
}
use omni_infra_provider_prox.Errors.{
  Result, ok, err, errors_is, wrap, retry_interval, retry_error, task_failed,
}
use omni_infra_provider_prox.Api.{
  Client, VirtualMachine, node, virtual_machine, storage_iso, iso, download_url, vm_cloud_init,
  vm_start,
}
use omni_infra_provider_prox.Data.{Context, Media}
use omni_infra_provider_prox.Exec.{
  M, pure, fail, lift, attempt, gets, modify, machine, set_machine, map_error, call, ◌>>=◌, ◌>>◌,
}
use omni_infra_provider_prox.Ha.Names.{sign_extend}
use omni_infra_provider_prox.Provision.Tasks.{is_task_live, check_task_status}

module _ {S : Type 0} (client : Client S) where
  -- The node that answered and the machine on it; `int(vmid)` of an int32.
  unfoldable pub get_vm : (node_name : String) (vmid : ℕ) → M S (String × VirtualMachine)
  get_vm node_name vmid = do
    n ← call client (node node_name)
    vm ← call client (virtual_machine n (sign_extend vmid))
    pure (n, vm)

  -- Whether the upload that the machine has on record is done; a failed one is made again.
  unfoldable pub upload_done : Result (Unit {0}) → M S Bool
  upload_done (ok _) = pure true
  upload_done (err e) = if not (errors_is e task_failed) then fail e else pure false

  unfoldable pub recorded_upload : String → M S Bool
  recorded_upload task =
      if task =ₜ ""
      then pure false
      else do r ← attempt (check_task_status client task); upload_done r

  unfoldable pub forget_download : String → M S (Unit {0})
  forget_download id =
      modify (λ w. record w { pending_iso_downloads = delete id w.pending_iso_downloads })

  unfoldable pub start_download : (id node_name storage name url : String) → M S (Unit {0})
  start_download id node_name storage name url = do
    upid ← call client (download_url node_name storage "iso" name url)
    set_machine (λ m. record m { volume_upload_task = upid })
    modify (λ w. record w { pending_iso_downloads = put id upid w.pending_iso_downloads })
    fail (retry_interval 1)

  unfoldable pub adopt_download : String → M S (Unit {0})
  adopt_download upid = do
    set_machine (λ m. record m { volume_upload_task = upid })
    fail (retry_interval 1)

  -- The ISO is not there: wait for the download under way, or start one.
  unfoldable pub download :
      (id node_name storage name url : String) → Option String → M S (Unit {0})
  download id node_name storage name url none = start_download id node_name storage name url
  download id node_name storage name url (some existing) = do
    live ← is_task_live client existing
    if live
        then adopt_download existing
        else do forget_download id; start_download id node_name storage name url

  unfoldable pub after_iso :
      (id node_name storage name url : String) → Result String → M S (Unit {0})
  after_iso id node_name storage name url (ok volume) = forget_download id
  after_iso id node_name storage name url (err e) = do
    pending ← gets (λ w. lookup id w.pending_iso_downloads)
    download id node_name storage name url pending

  unfoldable pub resolve_media : Result Media → M S Media
  resolve_media r =
      map_error (λ e. retry_error (wrap "error resolving the installation media: " e "") 10)
        (lift r)

  unfoldable pub fresh_upload : Context → M S (Unit {0})
  fresh_upload pctx = do
    set_machine (λ m. record m { talos_version = pctx.talos_version })
    _ ← lift pctx.provider_data
    media ← resolve_media pctx.installation_media
    let name = media.storage_key ^^ ".iso"
    set_machine (λ m. record m { schematic = media.schematic_id; volume_id = name })
    m ← machine
    n ← call client (node m.node)
    storage ← map_error (λ e. wrap "failed to get storage: " e "") (call client (storage_iso n))
    found ← attempt (call client (iso n storage name))
    after_iso (n ^^ ("-" ^^ name)) n storage name media.url found

  unfoldable pub upload_iso : Context → M S (Unit {0})
  upload_iso pctx = do
    m ← machine
    done ← recorded_upload m.volume_upload_task
    if done then pure tt else fresh_upload pctx

  -- The switch behind the check of the start task.
  unfoldable pub after_start : Result (Unit {0}) → M S (Unit {0})
  after_start (ok _) = pure tt
  after_start (err e) =
      if not (errors_is e task_failed)
      then fail e
      else do set_machine (λ m. record m { vm_start_task = "" }); fail (retry_error e 60)

  unfoldable pub boot : Context → M S (Unit {0})
  boot pctx = do
    m ← machine
    vm ← get_vm m.node m.vmid
    map_error (λ e. wrap "failed to inject nocloud config: " e "")
        (call client (
          vm_cloud_init vm.0 vm.1.vmid "ide0" pctx.join_config
            ("instance-id: "
              ^^ (m.uuid
                  ^^ ("\nlocal-hostname: "
                      ^^ (pctx.request_id ^^ ("\nhostname: " ^^ pctx.request_id)))))
            "" "version: 1"))
    upid ← call client (vm_start vm.0 vm.1.vmid)
    set_machine (λ m. record m { vm_start_task = upid })
    fail (retry_interval 1)

  unfoldable pub start_vm : Context → M S (Unit {0})
  start_vm pctx = do
    m ← machine
    if m.vm_start_task =ₜ ""
        then boot pctx
        else do r ← attempt (check_task_status client m.vm_start_task); after_start r
