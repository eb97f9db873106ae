-- ===== src/Provision/Run/Landing.antt =====
-- What uploadISO maintains behind the mutex, for an invariant that the order of the image and the entry of
-- the image in the table of pending downloads do not touch.
use omni_infra_provider_prox.Base.{Map, ◌^^◌, String, refl, Option, none, some, delete, put}
use omni_infra_provider_prox.Errors.{Result, ok, err}
use omni_infra_provider_prox.Api.{Client, iso, download_url}
use omni_infra_provider_prox.Exec.{attempt, call, ◌>>=◌}
use omni_infra_provider_prox.Exec.Frames.{
  IsStable, Shared, Keeps, Keeps-set_machine, Keeps-modify, Keeps-bind, Keeps-fail, Keeps-if,
  Keeps-gets, Keeps-attempt, Keeps-call, frame_rules,
}
use omni_infra_provider_prox.Provision.Tasks.Frames.{is_task_live-Keeps}
use omni_infra_provider_prox.Provision.Steps.{
  forget_download, start_download, adopt_download, download, after_iso,
}

module _ {S : Type 0} (client : Client S) (kept : S → String → Map String → Type 0)
    (stable : IsStable client (Shared kept)) (on storage name url : String)
    (orders : Keeps (Shared kept) (call client (download_url on storage "iso" name url)))
    (forgets : (s : S) (t : String) (l : Map String)
      → kept s t l
      → kept s t (delete (on ^^ ("-" ^^ name)) l))
    (records : (s : S) (t : String) (l : Map String) (upid : String)
      → kept s t l
      → kept s t (put (on ^^ ("-" ^^ name)) upid l)) where
  abbrev id : String
  id = on ^^ ("-" ^^ name)

  forget_download-Keeps : Keeps (Shared kept) (forget_download client id)
  unfolding forget_download
  forget_download-Keeps =
      Keeps-modify _ (λ w h. forgets w.server w.machine.vm_create_task w.pending_iso_downloads h)

  start_download-Keeps : Keeps (Shared kept) (start_download client id on storage name url)
  unfolding start_download
  start_download-Keeps = Keeps-bind _ _ orders λ upid.
      Keeps-bind _ _ (Keeps-set_machine _ (λ w h. h)) λ _.
        Keeps-bind _ _
          (Keeps-modify _
            (λ w h. records w.server w.machine.vm_create_task w.pending_iso_downloads upid h))
          λ _. Keeps-fail _

  adopt_download-Keeps : (upid : String) → Keeps (Shared kept) (adopt_download client upid)
  unfolding adopt_download
  adopt_download-Keeps upid = search (frame_rules, Keeps-set_machine) depth 9

  download-Keeps :
      (pending : Option String)
      → Keeps (Shared kept) (download client id on storage name url pending)
  unfolding download
  download-Keeps none = start_download-Keeps
  download-Keeps (some existing) =
      Keeps-bind _ _ (is_task_live-Keeps client (Shared kept) stable existing) λ live.
        Keeps-if live _ _ (adopt_download-Keeps existing)
          (Keeps-bind _ _ forget_download-Keeps (λ _. start_download-Keeps))

  after_iso-Keeps :
      (r : Result String) → Keeps (Shared kept) (after_iso client id on storage name url r)
  unfolding after_iso
  after_iso-Keeps (ok volume) = forget_download-Keeps
  after_iso-Keeps (err e) = Keeps-bind _ _ (Keeps-gets _) download-Keeps

  pub landing-Keeps :
      Keeps
        (Shared kept)
        (attempt (call client (iso on storage name)) >>= after_iso client id on storage name url)
  landing-Keeps =
      Keeps-bind _ _ (Keeps-attempt _ (Keeps-call client (iso on storage name) refl stable))
        after_iso-Keeps
