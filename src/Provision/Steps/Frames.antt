-- ===== src/Provision/Steps/Frames.antt =====
-- What `getVM` leaves alone: whatever requests do not reach.
use omni_infra_provider_prox.Base.{ℕ, String}
use omni_infra_provider_prox.Api.{Client}
use omni_infra_provider_prox.Exec.{World}
use omni_infra_provider_prox.Exec.Frames.{IsStable, Keeps, frame_rules}
use omni_infra_provider_prox.Provision.Steps.{get_vm}

module _ {S : Type 0} (client : Client S) (inv : World S → Type 0)
    (local : IsStable client inv) where
  pub get_vm-Keeps : (name : String) (vmid : ℕ) → Keeps inv (get_vm client name vmid)
  unfolding get_vm
  get_vm-Keeps name vmid = search frame_rules depth 9
