-- ===== src/Provision/Run/Creation.antt =====
-- The creations that Proxmox accepts, and the creation task on record, step by step through syncVM.
use omni_infra_provider_prox.Base.{
  ℕ, ◌+◌, ◌%◌, ◌^◌, String, ◌≡◌, refl, Map, ap, false, ◌⊎◌, inl, inr, List, ◌=ₜ◌,
}
use omni_infra_provider_prox.Errors.{Result, ok, err, retry_interval}
use omni_infra_provider_prox.Api.{
  Client, Request, is_creation, is_order, VmOption, new_virtual_machine, node, cluster, next_id,
  storage_iso, iso, download_url,
}
use omni_infra_provider_prox.Data.{Context}
use omni_infra_provider_prox.Exec.{World, M, fail, set_machine, call, ◌>>=◌}
use omni_infra_provider_prox.Exec.Frames.{
  IsStable, Shared, Keeps, Keeps-call, Keeps-lift, Keeps-machine,
}
use omni_infra_provider_prox.Exec.Triples.{Ends, Ends-bind}
use omni_infra_provider_prox.Provision.Create.{Selector, create_vm}
use omni_infra_provider_prox.Provision.Run.{counting}
use omni_infra_provider_prox.Provision.Run.Preparing.{
  pick_storage-Keeps, disks-Keeps, pool_options-Keeps, assign_uuid-Keeps,
}

-- The number of accepted creations, and the creation task on record.
abbrev pub creations : {S : Type 0} → World (S × ℕ) → ℕ × String
creations w = (w.server.1, w.machine.vm_create_task)

-- These two are `c`.
abbrev pub Made : {S : Type 0} → ℕ × String → S × ℕ → String → Map String → Type 0
Made c s task downloads = (s.1, task) ≡ c

no_creation : (r : Request) → is_order r ≡ false → is_creation r ≡ false
no_creation (new_virtual_machine n vmid options) h = h
no_creation _ h = refl

-- Proxmox names the task of a creation that it accepts.
abbrev pub NamesTasks : {S : Type 0} → Client S → Type 0
NamesTasks {S} client =
    (n : String) (vmid : ℕ) (options : List VmOption) (s : S) (upid : String)
    → (client (new_virtual_machine n vmid options) s).0 ≡ ok upid
    → (upid =ₜ "") ≡ false

-- No creation was accepted and none is on record, or one was accepted and its task is on record.
abbrev pub IsSingle : {S : Type 0} → World (S × ℕ) → Type 0
IsSingle w =
    (creations w ≡ (0, "")) ⊎ ((w.server.1 ≡ 1) × ((w.machine.vm_create_task =ₜ "") ≡ false))

module _ {S : Type 0} (client : Client S) where
  pub counting-IsStable :
      (c : ℕ × String) → IsStable (counting is_creation client) (Shared (Made c))
  unfolding call
  counting-IsStable c = record { at = λ r other w h. rw (no_creation r other) h }

  -- Nor does the order of a download make a machine.
  pub download-kept :
      (c : ℕ × String) (on storage name url : String)
      → Keeps
          (Shared (Made c))
          (call (counting is_creation client) (download_url on storage "iso" name url))
  unfolding call
  download-kept c on storage name url = record { at = λ w h. h }

  abbrev Uncreated : World (S × ℕ) → Type 0
  Uncreated w = creations w ≡ (0, "")

  -- What the request for a creation leaves.
  abbrev AfterCreation : Result String → World (S × ℕ) → Type 0
  AfterCreation (ok upid) w = (w.server.1 ≡ 1) × ((upid =ₜ "") ≡ false)
  AfterCreation (err e) w = Uncreated w

  -- A step of the prelude, whatever its outcome.
  held :
      {A : Type 0} (m : M (S × ℕ) A)
      → Keeps (Shared (Made (0, ""))) m
      → Ends Uncreated m (λ r w. Uncreated w)
  held m h = record { at = h.at }

  quietly :
      {A B : Type 0} {m : M (S × ℕ) A} {f : A → M (S × ℕ) B}
      → Keeps (Shared (Made (0, ""))) m
      → ((a : A) → Ends Uncreated (f a) (λ r w. IsSingle w))
      → Ends Uncreated (m >>= f) (λ r w. IsSingle w)
  quietly {m = m} {f = f} h k = Ends-bind m f (held m h) (λ e w u. inl u) k

  recorded :
      (vmid : ℕ) (upid : String)
      → Ends
          (AfterCreation (ok upid))
          (set_machine (λ m. record m { vm_create_task = upid; vmid = vmid % 2 ^ 32 }) >>= λ _.
            fail (retry_interval 10))
          (λ (r : Result (Unit {0})) w. IsSingle w)
  unfolding ◌>>=◌
  recorded vmid upid = record { at = λ w h. inr h }

  abbrev counter : Client (S × ℕ)
  counter = counting is_creation client

  unmade : IsStable counter (Shared (Made (0, "")))
  unmade = counting-IsStable (0, "")

  -- The request for the creation: refused, or counted and named.
  creation_asked :
      (names : NamesTasks client) (n : String) (vmid : ℕ) (options : List VmOption)
      → Ends Uncreated
          (call (counting is_creation client) (new_virtual_machine n vmid options))
          AfterCreation
  unfolding call
  creation_asked names n vmid options = record {
    at = λ w e. answered w e (client (new_virtual_machine n vmid options) w.server.0).0 refl;
  }
    where
      answered :
          (w : World (S × ℕ))
          → Uncreated w
          → (a : Result String) → (client (new_virtual_machine n vmid options) w.server.0).0 ≡ a
          → AfterCreation a
              (call (counting is_creation client) (new_virtual_machine n vmid options) w).1
      answered w e (ok upid) h =
          (rw h (ap (λ c. c.0 + 1) e), names n vmid options w.server.0 upid h)
      answered w e (err x) h = rw h e

  -- From a machine without a creation, `syncVM`'s creation leaves one at most, and that on record.
  pub create_vm-IsSingle :
      (names : NamesTasks client) (matches : Selector) (pctx : Context)
      → Ends Uncreated (create_vm (counting is_creation client) matches pctx) (λ r w. IsSingle w)
  unfolding create_vm
  create_vm-IsSingle names matches pctx =
      quietly (assign_uuid-Keeps counter (Made (0, "")) unmade matches pctx) λ _.
        quietly (Keeps-lift pctx.provider_data) λ cfg. quietly Keeps-machine λ m.
          quietly (Keeps-call _ (node m.node) refl unmade) λ n.
            quietly (Keeps-call _ cluster refl unmade) λ _.
              quietly (Keeps-call _ next_id refl unmade) λ vmid.
                quietly (Keeps-call _ (storage_iso n) refl unmade) λ iso_storage.
                  quietly (Keeps-call _ (iso n iso_storage m.volume_id) refl unmade) λ volume.
                    quietly
                      (pick_storage-Keeps counter (Made (0, "")) unmade matches n
                        cfg.storage_selector)
                      λ storage.
                        quietly (pool_options-Keeps counter (Made (0, "")) unmade matches _ _)
                          λ pool.
                            quietly
                              (disks-Keeps counter (Made (0, "")) unmade matches n 0
                                cfg.additional_disks)
                              λ disks.
                                Ends-bind _ _ (creation_asked names n vmid _) (λ e w h. inl h)
                                  (recorded vmid)
