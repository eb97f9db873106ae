-- ===== src/Provision/Fleet/Downloads.antt =====
-- The downloads of one image to one node, over a run of all machines.
use omni_infra_provider_prox.Base.{refl, arith, ℕ, String, ◌≡◌, false, inl, not, ◌=ₜ◌, Map}
use omni_infra_provider_prox.Errors.{Error}
use omni_infra_provider_prox.Api.{Client, new_virtual_machine, vm_delete}
use omni_infra_provider_prox.Data.{Context}
use omni_infra_provider_prox.Exec.Frames.{
  Shared, Keeps, Keeps-bind, Keeps-if, Keeps-machine, Keeps-modify,
}
use omni_infra_provider_prox.Provision.Tasks.Frames.{check_task_status-Keeps}
use omni_infra_provider_prox.Provision.Create.{sync_vm}
use omni_infra_provider_prox.Provision.Teardown.{deprovision}
use omni_infra_provider_prox.Provision.Teardown.Ledger.{after_release-Keeps}
use omni_infra_provider_prox.Provision.Run.{
  Step, pick_node, upload, sync, start, register_ha, sync_ha_rules, Provisioner, run_step, counting,
}
use omni_infra_provider_prox.Provision.Run.Preparing.{create_vm-Keeps}
use omni_infra_provider_prox.Provision.Run.Attempts.{is_sync, other_step-Keeps}
use omni_infra_provider_prox.Provision.Fleet.{
  Fleet, focus, Move, enter, attempt, tear_down, outside, Reaches, here, later,
}
use omni_infra_provider_prox.Provision.Fleet.Steady.{
  image, is_download, IsSteady, Uncounted, Once, Once-IsStable, call-Once, changed-Once,
}
use omni_infra_provider_prox.Provision.Fleet.Landing.{landing-Once}

-- The provisioner over a client that counts the orders of the image.
abbrev pub counted : {S F : Type 0} → (key : String) → Provisioner S F → Provisioner (S × ℕ) F
counted key p = record {
  client = counting (is_download key) p.client;
  ratio = p.ratio;
  no_memory = p.no_memory;
  compare_memory = p.compare_memory;
  sort = p.sort;
  vm_has_tag = p.vm_has_tag;
  tag_separator = p.tag_separator;
  matches = p.matches;
}

module _ {S F : Type 0} (p : Provisioner S F) {changes : S → S → Type 0} {on name : String}
    (steady : IsSteady p.client changes on name) where
  abbrev key : String
  key = image on name

  abbrev counter : Client (S × ℕ)
  counter = counting (is_download key) p.client

  abbrev Kept : S × ℕ → String → Map String → Type 0
  Kept = Once steady

  sync_vm-Once : (pctx : Context) → Keeps (Shared Kept) (sync_vm counter p.matches pctx)
  unfolding sync_vm
  sync_vm-Once pctx = Keeps-bind _ _ Keeps-machine λ m.
      Keeps-if (not (m.vm_create_task =ₜ "")) _ _
        (check_task_status-Keeps counter (Shared Kept) (Once-IsStable steady) m.vm_create_task)
        (create_vm-Keeps counter Kept (Once-IsStable steady)
          (λ n vmid options. call-Once steady (new_virtual_machine n vmid options) refl)
          (λ s t u downloads h. h) p.matches pctx)

  other_step-Once :
      (step : Step) (now : ℕ) (pctx : Context)
      → is_sync step ≡ false
      → Keeps (Shared Kept) (run_step (counted (image on name) p) step now pctx)
  other_step-Once =
      other_step-Keeps (counted (image on name) p) Kept (Once-IsStable steady) (landing-Once steady)

  run_step-Once :
      (step : Step) (now : ℕ) (pctx : Context)
      → Keeps (Shared Kept) (run_step (counted (image on name) p) step now pctx)
  unfolding run_step
  run_step-Once sync now pctx = sync_vm-Once pctx
  run_step-Once pick_node now pctx = other_step-Once pick_node now pctx refl
  run_step-Once upload now pctx = other_step-Once upload now pctx refl
  run_step-Once start now pctx = other_step-Once start now pctx refl
  run_step-Once register_ha now pctx = other_step-Once register_ha now pctx refl
  run_step-Once sync_ha_rules now pctx = other_step-Once sync_ha_rules now pctx refl

  deprovision-Once :
      (stop_ticks delete_ticks : ℕ) (cancelled : Error) (request_id : String)
      → Keeps (Shared Kept) (deprovision counter stop_ticks delete_ticks cancelled request_id)
  unfolding deprovision
  deprovision-Once stop_ticks delete_ticks cancelled request_id =
      Keeps-bind _ _ (Keeps-modify _ (λ w h. h)) (λ _.
        after_release-Keeps counter (Shared Kept) (Once-IsStable steady) stop_ticks delete_ticks
          cancelled (λ on vmid. call-Once steady (vm_delete on vmid) refl))

  -- What the machines share is as the work on one of them leaves it.
  abbrev IsOnce : Fleet (S × ℕ) → Type 0
  IsOnce f = Kept f.server "" f.pending_iso_downloads

  Move-IsOnce :
      {f g : Fleet (S × ℕ)}
      → Move (counted (image on name) p) (Uncounted changes) f g
      → IsOnce f
      → IsOnce g
  Move-IsOnce (enter request_id) h = h
  Move-IsOnce {f} (attempt request_id step now pctx) h =
      (run_step-Once step now (record pctx { request_id = request_id })).at (focus f request_id) h
  Move-IsOnce {f} (tear_down request_id stop_ticks delete_ticks cancelled) h =
      (deprovision-Once stop_ticks delete_ticks cancelled request_id).at (focus f request_id) h
  Move-IsOnce {f} (outside s change) h =
      changed-Once steady f.server s "" f.pending_iso_downloads change h

  Reaches-IsOnce :
      {f g : Fleet (S × ℕ)}
      → Reaches (counted (image on name) p) (Uncounted changes) f g
      → IsOnce f
      → IsOnce g
  Reaches-IsOnce here h = h
  Reaches-IsOnce (later r m) h = Move-IsOnce m (Reaches-IsOnce r h)

  -- If Proxmox loses neither an image that is on the ISO storage of a node nor a download of it, and
  -- no other node's name with a dash and an image behind it reads as this image on this node, as
  -- `IsSteady` says: over any attempts of any steps of any machines, teardowns and changes by others,
  -- in any order, Proxmox accepts at most one download of the image to the node, and once it accepted
  -- one, the image is there or the table of pending downloads has a task that is live.
  pub Reaches-downloads :
      {f g : Fleet (S × ℕ)}
      → f.server.1 ≡ 0
      → Reaches (counted (image on name) p) (Uncounted changes) f g
      → Once steady g.server "" g.pending_iso_downloads
  Reaches-downloads none_yet r = Reaches-IsOnce r (omega arith, inl none_yet)
