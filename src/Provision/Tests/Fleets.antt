-- ===== src/Provision/Tests/Fleets.antt =====
-- Machines that wait for one image, on a small Proxmox that downloads it.
use text.Mathlib.TextLemmas.{append_cancel_left}
use omni_infra_provider_prox.Base.{
  ◌∙◌, ap, ◌^^◌, ℕ, String, ◌≡◌, refl, sym, subst, true, none, List, [], ◌∷◌, ◌=ₜ◌, if◌then◌else◌,
  contains, lookup, put, delete, inl, inr, arith, Bool-cases,
}
use omni_infra_provider_prox.Errors.{ok, err, error_new}
use omni_infra_provider_prox.Api.{Client, Request, node, storage_iso, iso, download_url, task_ping}
use omni_infra_provider_prox.Data.{Context}
use omni_infra_provider_prox.Exec.{◌>>=◌, call}
use omni_infra_provider_prox.Exec.Example.{stopped}
use omni_infra_provider_prox.Provision.Example.{request, example}
use omni_infra_provider_prox.Provision.Steps.{
  upload_iso, recorded_upload, fresh_upload, resolve_media, after_iso, download, adopt_download,
  start_download, forget_download,
}
use omni_infra_provider_prox.Provision.Tasks.{is_task_live}
use omni_infra_provider_prox.Provision.Run.{Provisioner, upload, run_step}
use omni_infra_provider_prox.Provision.Fleet.{
  focus, absorb, Fleet, attempt, outside, here, later, new_machine,
}
use omni_infra_provider_prox.Provision.Fleet.Steady.{image, IsSteady, Once}
use omni_infra_provider_prox.Provision.Fleet.Downloads.{counted, Reaches-downloads}

-- The downloads that were ordered, and the images that are there.
record Depot : Type 0 where
  ordered : List String
  landed : List String

abbrev depot : Client Depot
depot (node name) s = (ok "alpha", s)
depot (storage_iso on) s = (ok "local", s)
depot (iso on storage name) s = (
  if contains s.landed (image on name) then ok "local:iso/talos.iso" else err (error_new "absent"),
  s,
)
depot (download_url on storage content name url) s =
    (ok "UPID:iso", record s { ordered = image on name ∷ s.ordered })
depot (task_ping upid) s = (ok (record (stopped upid) { is_running = true }), s)
depot r s = (err (error_new "not asked for"), s)

-- A download ends, and the image is there.
abbrev Lands : Depot → Depot → Type 0
Lands s t = (key : String) × (t ≡ record s { landed = key ∷ s.landed })

landed-kept : (r : Request) (s : Depot) → (depot r s).1.landed ≡ s.landed
landed-kept (iso on storage name) s = refl
landed-kept (download_url on storage content name url) s = refl
landed-kept _ s = refl

depot-listed :
    (s : Depot) (volume : String)
    → (depot (iso "alpha" "local" "talos.iso") s).0 ≡ ok volume
    → contains s.landed (image "alpha" "talos.iso") ≡ true
depot-listed s volume h = elim (Bool-cases (contains s.landed (image "alpha" "talos.iso"))) [
  | inl there ↦ there
  | inr absent ↦ absurd (ground arith)
]

landed-stays :
    (s t : Depot) (key : String)
    → Lands s t
    → contains s.landed key ≡ true
    → contains t.landed key ≡ true
landed-stays s t key (new, change) h =
    subst (λ d. contains d.landed key ≡ true) (sym change)
      (elim (Bool-cases (new =ₜ key)) [ inl same ↦ rw same refl | inr other ↦ rw other h ])

-- The small Proxmox has one node.
one_node :
    (s : Depot) (asked_for other name : String)
    → (depot (node asked_for) s).0 ≡ ok other
    → image other name ≡ image "alpha" "talos.iso"
    → (other ≡ "alpha") × (name ≡ "talos.iso")
one_node s asked_for other name h e =
    let same : other ≡ "alpha" = ground arith in
    (
      same,
      append_cancel_left "-" name "talos.iso" (
          append_cancel_left "alpha" ("-" ^^ name) ("-" ^^ "talos.iso")
            (ap (λ o. image o name) (sym same) ∙ e)),
    )

depot-IsSteady : IsSteady depot Lands "alpha" "talos.iso"
depot-IsSteady = record {
  Has = λ s. contains s.landed (image "alpha" "talos.iso") ≡ true;
  IsLive = λ s upid. Unit {0};
  storage = "local";
  stored = λ s st h. ground arith;
  apart = one_node;
  has_answer = λ s h. ("local:iso/talos.iso", rw h refl);
  has_listed = depot-listed;
  live_accepted = λ s url upid h. tt;
  live_answer = λ s upid h. (record (stopped upid) { is_running = true }, refl, refl);
  has_kept = λ r s h. rw (landed-kept r s) h;
  live_kept = λ r s upid h. tt;
  has_stays = λ s t. landed-stays s t (image "alpha" "talos.iso");
  live_stays = λ s t upid change h. tt;
}

abbrev machines : Provisioner Depot ℕ
machines = record {
  client = depot;
  ratio = example.ratio;
  no_memory = example.no_memory;
  compare_memory = example.compare_memory;
  sort = example.sort;
  vm_has_tag = example.vm_has_tag;
  tag_separator = example.tag_separator;
  matches = example.matches;
}

abbrev talos : String
talos = "alpha-talos.iso"

abbrev asking : Context
asking = record request {
  installation_media =
      ok (record {
        schematic_id = "plain";
        storage_key = "talos";
        url = "https://factory/talos.iso";
      });
}

abbrev idle : Fleet (Depot × ℕ)
idle = record {
  server = (record { ordered = []; landed = [] }, 0);
  log = [];
  ledger = [];
  pending_iso_downloads = [];
  specs = λ request_id. new_machine;
  uuids = λ request_id. none;
}

abbrev uploads : String → Fleet (Depot × ℕ) → Fleet (Depot × ℕ)
uploads request_id f =
    absorb f request_id
      (run_step (counted talos machines) upload 5 (record asking { request_id = request_id })
        (focus f request_id)).1

-- One machine orders the image, another waits for it, it Lands, and a third finds it.
abbrev waiting : Fleet (Depot × ℕ)
waiting = uploads "w2" (uploads "w1" idle)

abbrev arrived : Depot × ℕ
arrived = (record waiting.server.0 { landed = talos ∷ waiting.server.0.landed }, waiting.server.1)

abbrev served : Fleet (Depot × ℕ)
served = uploads "w3" (record waiting { server = arrived })

one_download : (served.server.1 ≡ 1) × (served.server.0.ordered ≡ talos ∷ [])
unfolding run_step upload_iso recorded_upload fresh_upload resolve_media after_iso download
    is_task_live adopt_download start_download forget_download ◌>>=◌ call lookup put delete
one_download = (refl, refl)

Reaches-downloads_example : Once depot-IsSteady served.server "" served.pending_iso_downloads
Reaches-downloads_example = Reaches-downloads machines depot-IsSteady {f = idle} refl (
    later
      (later (later (later here (attempt "w1" upload 5 asking)) (attempt "w2" upload 5 asking))
        (outside arrived ((talos, refl), refl)))
      (attempt "w3" upload 5 asking))
