-- ===== src/Provision/Fleet/Steady.antt =====
-- A Proxmox whose downloads neither fail nor get lost, and what the table of pending downloads then says of
-- one image on one node.
use omni_infra_provider_prox.Base.{
  refl, arith, ℕ, ◌≤◌, String, ◌^^◌, ◌≡◌, Bool, true, false, ◌||◌, some, ◌⊎◌, inl, inr, ◌=ₜ◌, Map,
  lookup,
}
use omni_infra_provider_prox.Errors.{ok}
use omni_infra_provider_prox.Api.{
  Request, Client, Task, is_order, node, storage_iso, iso, download_url, task_ping,
}
use omni_infra_provider_prox.Exec.{call}
use omni_infra_provider_prox.Exec.Frames.{IsStable, Shared, Keeps}
use omni_infra_provider_prox.Provision.Run.{counting}

-- The image as the table names it: the node, a dash and the name of the image.
abbrev pub image : (on name : String) → String
image on name = on ^^ ("-" ^^ name)

-- The orders to download that image.
abbrev pub is_download : (key : String) → Request → Bool
is_download key (download_url on storage content name url) = image on name =ₜ key
is_download key _ = false

-- What Proxmox does with one image for one node and with downloads, while others may change it by `changes`.
-- `Has` says that the image is on the ISO storage of the node, and `IsLive` that the task of a download runs
-- or has succeeded.
pub record IsSteady {S : Type 0} (client : Client S) (changes : S → S → Type 0) (on name : String)
    : Type 1 where
  pub Has : S → Type 0
  pub IsLive : S → (upid : String) → Type 0
  -- The ISO storage of the node stays the same one.
  pub storage : String
  pub stored : (s : S) (st : String) → (client (storage_iso on) s).0 ≡ ok st → st ≡ storage
  -- No name of another node, with a dash and any image behind it, reads as this image on this node.
  pub apart :
      (s : S) (asked_for other image_name : String)
      → (client (node asked_for) s).0 ≡ ok other
      → image other image_name ≡ image on name
      → (other ≡ on) × (image_name ≡ name)
  -- An image that is there is listed, and one that is listed is there.
  pub has_answer :
      (s : S) → Has s → (volume : String) × ((client (iso on storage name) s).0 ≡ ok volume)
  pub has_listed :
      (s : S) (volume : String)
      → (client (iso on storage name) s).0 ≡ ok volume
      → Has (client (iso on storage name) s).1
  -- A download of it that was accepted is live, and a live one is reported as such.
  pub live_accepted :
      (s : S) (url upid : String)
      → (client (download_url on storage "iso" name url) s).0 ≡ ok upid
      → IsLive (client (download_url on storage "iso" name url) s).1 upid
  pub live_answer :
      (s : S) (upid : String)
      → IsLive s upid
      → (t : Task) × ((client (task_ping upid) s).0 ≡ ok t)
        × ((t.is_running || t.is_successful) ≡ true)
  -- Neither is lost, by a request or in between.
  pub has_kept : (r : Request) (s : S) → Has s → Has (client r s).1
  pub live_kept : (r : Request) (s : S) (upid : String) → IsLive s upid → IsLive (client r s).1 upid
  pub has_stays : (s t : S) → changes s t → Has s → Has t
  pub live_stays : (s t : S) (upid : String) → changes s t → IsLive s upid → IsLive t upid

-- Between the moves others change Proxmox, and what they do is not counted.
abbrev pub Uncounted : {S : Type 0} → (S → S → Type 0) → S × ℕ → S × ℕ → Type 0
Uncounted changes s t = changes s.0 t.0 × (t.1 ≡ s.1)

module _ {S : Type 0} {client : Client S} {changes : S → S → Type 0} {on name : String}
    (steady : IsSteady client changes on name) where
  abbrev key : String
  key = image on name

  open steady use {Has, IsLive, has_kept, live_kept, has_stays, live_stays}

  -- The image is being downloaded, and the table has the task.
  abbrev pub IsPending : S → Map String → Type 0
  IsPending s downloads = (upid : String) × (lookup key downloads ≡ some upid) × IsLive s upid

  -- One download was accepted at most, and if one was, the image is being downloaded or there.
  abbrev pub Once : S × ℕ → String → Map String → Type 0
  Once s task downloads = (s.1 ≤ 1) × ((s.1 ≡ 0) ⊎ (IsPending s.0 downloads ⊎ Has s.0))

  pub IsPending-kept :
      (r : Request) (s : S) (downloads : Map String)
      → IsPending s downloads
      → IsPending (client r s).1 downloads
  IsPending-kept r s downloads (upid, on, live) = (upid, on, live_kept r s upid live)

  after-Once :
      (r : Request) (s : S × ℕ) (task : String) (downloads : Map String)
      → is_download key r ≡ false
      → Once s task downloads
      → Once (counting (is_download key) client r s).1 task downloads
  after-Once r s task downloads other (few, inl none_yet) = rw other (few, inl none_yet)
  after-Once r s task downloads other (few, inr (inl pending)) =
      rw other (few, inr (inl (IsPending-kept r s.0 downloads pending)))
  after-Once r s task downloads other (few, inr (inr has)) =
      rw other (few, inr (inr (has_kept r s.0 has)))

  -- A request that is no order of the image.
  pub call-Once :
      (r : Request)
      → is_download key r ≡ false
      → Keeps (Shared Once) (call (counting (is_download key) client) r)
  unfolding call
  call-Once r other = record {
    at = λ w h. after-Once r w.server w.machine.vm_create_task w.pending_iso_downloads other h;
  }

  not_download : (r : Request) → is_order r ≡ false → is_download key r ≡ false
  not_download (download_url to storage content iso_name url) h = absurd (ground arith)
  not_download _ h = refl

  pub Once-IsStable : IsStable (counting (is_download key) client) (Shared Once)
  Once-IsStable = record { at = λ r other. (call-Once r (not_download r other)).at }

  pub changed-Once :
      (s t : S × ℕ) (task : String) (downloads : Map String)
      → Uncounted changes s t
      → Once s task downloads
      → Once t task downloads
  changed-Once s t task downloads (change, same) (few, inl none_yet) =
      (omega arith, inl (omega arith))
  changed-Once s t task downloads (change, same) (few, inr (inl (upid, on, live))) =
      (omega arith, inr (inl (upid, on, live_stays s.0 t.0 upid change live)))
  changed-Once s t task downloads (change, same) (few, inr (inr has)) =
      (omega arith, inr (inr (has_stays s.0 t.0 change has)))
