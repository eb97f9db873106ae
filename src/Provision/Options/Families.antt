-- ===== src/Provision/Options/Families.antt =====
-- The options of one numbered family, and all that `syncVM` builds.
use text.Mathlib.TextLemmas.{append_cancel_left}
use omni_infra_provider_prox.Base.{
  ℕ, ◌+◌, ◌-◌, ◌≤◌, ◌<◌, String, ◌^^◌, ◌≡◌, ◌∙◌, refl, ap, false, not, inl, inr, List, [], ◌∷◌,
  ◌=ₜ◌, All, arith, eq_iff, Bool-cases, decimal, decimal-injective,
}
use omni_infra_provider_prox.Api.{VmOption}
use omni_infra_provider_prox.Data.{Data, UsbDevice, AdditionalNic, PciDevice}
use omni_infra_provider_prox.Provision.Options.{
  text_option, usb_options_from, build_usb_device_options, nic_options_from, pci_options_from,
  build_firmware_options,
}
use omni_infra_provider_prox.Provision.Options.Slots.{
  slot, Block, Block-widen, Block-nil, Block-cons, Block-when, slot-usb, slot-hostpci, slot-net,
}

-- The names count up from a number.
abbrev pub Numbered : String → ℕ → List VmOption → Type 0
Numbered p i [] = Unit {0}
Numbered p i (o ∷ os) = (o.name ≡ p ^^ decimal i) × Numbered p (i + 1) os

other_number : (p : String) (i j : ℕ) → i < j → (p ^^ decimal i =ₜ p ^^ decimal j) ≡ false
other_number p i j h = elim (Bool-cases (p ^^ decimal i =ₜ p ^^ decimal j)) [
  | inr e ↦ e
  | inl e ↦ absurd (
      omega (
        arith,
        decimal-injective i j
            (append_cancel_left p _ _ ((eq_iff (p ^^ decimal i) (p ^^ decimal j)).0 e)),
      ))
]

later_numbers :
    (p : String) (i j : ℕ) (os : List VmOption)
    → i < j
    → Numbered p j os
    → All (λ o. (p ^^ decimal i =ₜ o.name) ≡ false) os
later_numbers p i j [] h n = tt
later_numbers p i j (o ∷ os) h n = (
  ap (λ s. p ^^ decimal i =ₜ s) n.0 ∙ other_number p i j h,
  later_numbers p i (j + 1) os (omega arith) n.1,
)

pub Numbered-Block :
    (p : String) (a i : ℕ) (os : List VmOption)
    → ((j : ℕ) → i ≤ j → slot (p ^^ decimal j) ≡ a)
    → Numbered p i os
    → Block a (a + 1) os
Numbered-Block p a i [] h n = Block-nil a (a + 1)
Numbered-Block p a i (o ∷ os) h n =
    let rest = Numbered-Block p a (i + 1) os (λ j k. h j (omega arith)) n.1 in
    let here : slot o.name ≡ a = ap slot n.0 ∙ h i (omega arith) in
    record {
      distinct = (rw n.0 (later_numbers p i (i + 1) os (omega arith) n.1), rest.distinct);
      within = ((omega arith, omega arith), rest.within);
    }

usb-Numbered : (i : ℕ) (devices : List UsbDevice) → Numbered "usb" i (usb_options_from i devices)
unfolding usb_options_from
usb-Numbered i [] = tt
usb-Numbered i (d ∷ ds) = (refl, usb-Numbered (i + 1) ds)

nic-Numbered :
    (i : ℕ) (nics : List AdditionalNic) → Numbered "net" (i + 1) (nic_options_from i nics)
unfolding nic_options_from
nic-Numbered i [] = tt
nic-Numbered i (n ∷ ns) = (refl, nic-Numbered (i + 1) ns)

pci-Numbered : (i : ℕ) (pcis : List PciDevice) → Numbered "hostpci" i (pci_options_from i pcis)
unfolding pci_options_from
pci-Numbered i [] = tt
pci-Numbered i (d ∷ ds) = (refl, pci-Numbered (i + 1) ds)

-- A family numbered from 1 on.
pub from_one :
    (p : String) (a : ℕ)
    → ((i : ℕ) → slot (p ^^ decimal (i + 1)) ≡ a)
    → (j : ℕ) → 1 ≤ j
    → slot (p ^^ decimal j) ≡ a
from_one p a h j k =
    let e : j ≡ (j - 1) + 1 = omega arith in ap (λ n. slot (p ^^ decimal n)) e ∙ h (j - 1)

pub firmware-Block :
    (cfg : Data) (storage : String) → Block 16 19 (build_firmware_options cfg storage)
unfolding build_firmware_options slot
firmware-Block cfg storage =
    let vga =
      Block-when 18 19 (not (cfg.vga =ₜ "")) (text_option "vga" cfg.vga) [] refl (omega arith)
        (Block-nil 19 19) in
    elim (Bool-cases (cfg.bios =ₜ "")) [
      | inl h ↦ rw h (Block-widen 18 19 16 19 _ (omega arith) (omega arith) vga)
      | inr h ↦ rw h (
          Block-cons 16 19 (text_option "bios" cfg.bios) _ refl (omega arith)
            (Block-when 17 19 (cfg.bios =ₜ "ovmf") _ _ refl (omega arith) vga))
    ]

pub usb-Block : (devices : List UsbDevice) → Block 24 25 (build_usb_device_options devices)
unfolding build_usb_device_options
usb-Block devices = Numbered-Block "usb" 24 0 _ (λ j h. slot-usb j) (usb-Numbered 0 devices)

pub nic-Block : (nics : List AdditionalNic) → Block 22 23 (nic_options_from 0 nics)
nic-Block nics = Numbered-Block "net" 22 1 _ (from_one "net" 22 slot-net) (nic-Numbered 0 nics)

pub pci-Block : (pcis : List PciDevice) → Block 23 24 (pci_options_from 0 pcis)
pci-Block pcis = Numbered-Block "hostpci" 23 0 _ (λ j h. slot-hostpci j) (pci-Numbered 0 pcis)
