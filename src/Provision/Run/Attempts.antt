-- ===== src/Provision/Run/Attempts.antt =====
-- What the attempts of the steps other than syncVM maintain, of what the machines share.
use omni_infra_provider_prox.Base.{ℕ, ◌^^◌, String, ◌≡◌, Bool, true, false, Map, arith}
use omni_infra_provider_prox.Api.{iso, node, storage_iso}
use omni_infra_provider_prox.Errors.{ok}
use omni_infra_provider_prox.Exec.Triples.{Answers}
use omni_infra_provider_prox.Data.{Context}
use omni_infra_provider_prox.Exec.{attempt, call, ◌>>=◌}
use omni_infra_provider_prox.Exec.Frames.{IsStable, Shared, Keeps}
use omni_infra_provider_prox.Ha.Steps.Frames.{sync_rules_step-Keeps}
use omni_infra_provider_prox.Provision.Steps.{after_iso}
use omni_infra_provider_prox.Provision.Run.{
  Step, pick_node, upload, sync, start, register_ha, sync_ha_rules, Provisioner, run_step,
}
use omni_infra_provider_prox.Provision.Run.Working.{
  upload_iso-Keeps, start_vm-Keeps, register_step-Keeps,
}
use omni_infra_provider_prox.Provision.Run.Placing.{pick_node_step-Keeps}

abbrev pub is_sync : Step → Bool
is_sync sync = true
is_sync _ = false

module _ {S F : Type 0} (p : Provisioner S F) (kept : S → String → Map String → Type 0)
    (stable : IsStable p.client (Shared kept))
    (lands : (asked_for on storage name url : String)
      → Answers p.client (node asked_for) (ok on)
      → Answers p.client (storage_iso on) (ok storage)
      → Keeps (Shared kept) (
          attempt (call p.client (iso on storage name))
          >>= after_iso p.client (on ^^ ("-" ^^ name)) on storage name url)) where
  pub other_step-Keeps :
      (step : Step) (now : ℕ) (pctx : Context)
      → is_sync step ≡ false
      → Keeps (Shared kept) (run_step p step now pctx)
  unfolding run_step
  other_step-Keeps pick_node now pctx h =
      pick_node_step-Keeps p.client kept stable p.ratio p.no_memory p.vm_has_tag p.compare_memory
        p.sort now pctx
  other_step-Keeps upload now pctx h = upload_iso-Keeps p.client kept stable lands pctx
  other_step-Keeps sync now pctx h = absurd (ground arith)
  other_step-Keeps start now pctx h = start_vm-Keeps p.client kept stable pctx
  other_step-Keeps register_ha now pctx h = register_step-Keeps p.client kept stable pctx
  other_step-Keeps sync_ha_rules now pctx h =
      sync_rules_step-Keeps p.client (Shared kept) stable p.tag_separator pctx
