-- ===== src/Provision/Run/Working.antt =====
-- What the steps other than pickNode and syncVM maintain, of what the machines share.
use omni_infra_provider_prox.Base.{
  Map, ◌^^◌, String, ◌≡◌, refl, not, arith, Option, none, some, List, [], ◌∷◌, ◌=ₜ◌,
}
use omni_infra_provider_prox.Errors.{Error, Result, ok, err}
use omni_infra_provider_prox.Api.{Client, Request, Response, NodeInfo, iso, node, storage_iso}
use omni_infra_provider_prox.Data.{Context, Media}
use omni_infra_provider_prox.Exec.{World, attempt, call, map_error, map_result, ◌>>=◌}
use omni_infra_provider_prox.Exec.Triples.{Answers}
use omni_infra_provider_prox.Exec.Frames.{
  IsStable, Shared, Keeps-machine, Keeps-call, Keeps, Keeps-set_machine, Keeps-modify, Keeps-bind,
  Keeps-map_error, Keeps-after, Keeps-fail, Keeps-lift, Keeps-if, frame_rules,
}
use omni_infra_provider_prox.Ha.Options.{Config}
use omni_infra_provider_prox.Ha.Members.{node_online}
use omni_infra_provider_prox.Ha.Steps.{register_with, register_step}
use omni_infra_provider_prox.Ha.Steps.Frames.{register-Keeps}
use omni_infra_provider_prox.Provision.Tasks.Frames.{check_task_status-Keeps}
use omni_infra_provider_prox.Provision.Steps.{
  upload_done, recorded_upload, after_iso, resolve_media, fresh_upload, upload_iso, after_start,
  boot, start_vm,
}
use omni_infra_provider_prox.Provision.Steps.Frames.{get_vm-Keeps}
use omni_infra_provider_prox.Provision.Placement.{use_configured}

ruleset writes = (frame_rules, Keeps-set_machine, Keeps-modify)

module _ {S : Type 0} (client : Client S) (kept : S → String → Map String → Type 0)
    (stable : IsStable client (Shared kept)) where
  upload_done-Keeps : (r : Result (Unit {0})) → Keeps (Shared kept) (upload_done client r)
  unfolding upload_done
  upload_done-Keeps (ok _) = search writes
  upload_done-Keeps (err e) = search writes

  recorded_upload-Keeps : (task : String) → Keeps (Shared kept) (recorded_upload client task)
  unfolding recorded_upload
  recorded_upload-Keeps task =
      search (writes, check_task_status-Keeps client (Shared kept) stable, upload_done-Keeps) depth
        9

  resolve_media-Keeps : (r : Result Media) → Keeps (Shared kept) (resolve_media client r)
  unfolding resolve_media
  resolve_media-Keeps r = Keeps-map_error _ _ (Keeps-lift r)

  module _
      (lands : (asked_for on storage name url : String)
        → Answers client (node asked_for) (ok on)
        → Answers client (storage_iso on) (ok storage)
        → Keeps (Shared kept) (
            attempt (call client (iso on storage name))
            >>= after_iso client (on ^^ ("-" ^^ name)) on storage name url)) where
    given :
        (r : Request) (w : World S) (a : Response r)
        → (call client r w).0 ≡ ok a
        → Answers client r (ok a)
    unfolding call
    given r w a e = (w.server, e)

    got : {A : Type 0} (f : Error → Error) (r : Result A) (a : A) → map_result f r ≡ ok a → r ≡ ok a
    got f (ok b) a e = e
    got f (err x) a e = absurd (ground arith)

    fresh_upload-Keeps : (pctx : Context) → Keeps (Shared kept) (fresh_upload client pctx)
    unfolding fresh_upload map_error
    fresh_upload-Keeps pctx = Keeps-bind _ _ (Keeps-set_machine _ (λ w h. h)) λ _.
        Keeps-bind _ _ (Keeps-lift pctx.provider_data) λ _.
          Keeps-bind _ _ (resolve_media-Keeps pctx.installation_media) λ media.
            Keeps-bind _ _ (Keeps-set_machine _ (λ w h. h)) λ _. Keeps-bind _ _ Keeps-machine λ m.
              Keeps-after _ _ (Keeps-call client (node m.node) refl stable) λ w n named.
                Keeps-after _ _
                  (Keeps-map_error _ _ (Keeps-call client (storage_iso n) refl stable))
                  λ v storage stored.
                    lands m.node n storage (media.storage_key ^^ ".iso") media.url
                      (given (node m.node) w n named)
                      (given (storage_iso n) v storage (got _ _ storage stored))

    pub upload_iso-Keeps : (pctx : Context) → Keeps (Shared kept) (upload_iso client pctx)
    unfolding upload_iso
    upload_iso-Keeps pctx = search (writes, recorded_upload-Keeps, fresh_upload-Keeps) depth 9

  after_start-Keeps : (r : Result (Unit {0})) → Keeps (Shared kept) (after_start client r)
  unfolding after_start
  after_start-Keeps (ok _) = search writes
  after_start-Keeps (err e) = search writes depth 9

  boot-Keeps : (pctx : Context) → Keeps (Shared kept) (boot client pctx)
  unfolding boot
  boot-Keeps pctx = search (writes, get_vm-Keeps client (Shared kept) stable, stable) depth 16

  pub start_vm-Keeps : (pctx : Context) → Keeps (Shared kept) (start_vm client pctx)
  unfolding start_vm
  start_vm-Keeps pctx =
      search
        (writes, check_task_status-Keeps client (Shared kept) stable, after_start-Keeps, boot-Keeps)
        depth 12

  register_with-Keeps :
      (c : Option (Config × String)) → Keeps (Shared kept) (register_with client c)
  unfolding register_with
  register_with-Keeps none = search writes
  register_with-Keeps (some (cfg, sid)) =
      Keeps-bind _ _ (register-Keeps client (Shared kept) stable sid cfg)
        (λ _. Keeps-set_machine _ (λ w h. h))

  pub register_step-Keeps : (pctx : Context) → Keeps (Shared kept) (register_step client pctx)
  unfolding register_step
  register_step-Keeps pctx = search (writes, register_with-Keeps) depth 9

  pub use_configured-Keeps :
      (name : String) (infos : List NodeInfo)
      → Keeps {S = S} (Shared kept) (use_configured name infos)
  unfolding use_configured
  use_configured-Keeps name [] = Keeps-fail _
  use_configured-Keeps name (info ∷ rest) =
      Keeps-if (info.node =ₜ name) _ _
        (Keeps-if (not (info.status =ₜ node_online)) _ _ (Keeps-fail _)
          (Keeps-set_machine _ (λ w h. h)))
        (use_configured-Keeps name rest)
