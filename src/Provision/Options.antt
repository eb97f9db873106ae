-- ===== src/Provision/Options.antt =====
-- The options of a new virtual machine: `buildTagsOption`, `buildUSBDeviceOptions`,
-- `buildFirmwareOptions`, and the parts of syncVM that build the disks, networks and PCI devices.
pub mod Slots
pub mod Families
pub mod Tags
use omni_infra_provider_prox.Base.{
  ℕ, ◌+◌, String, ◌^^◌, Bool, true, false, not, Option, none, some, List, [], ◌∷◌, ◌++◌, ◌==◌, ◌=ₜ◌,
  if◌then◌else◌, join, decimal, decimal_int,
}
use omni_infra_provider_prox.Api.{OptionValue, text, number, VmOption}
use omni_infra_provider_prox.Data.{Data, AdditionalNic, PciDevice, UsbDevice}

abbrev pub machine_request_tag_prefix : String
machine_request_tag_prefix = "machine-request."

-- none stands for `"", false`
unfoldable pub build_tags_option : (user_tags : List String) (set : String) → Option String
build_tags_option user_tags set =
    let tags =
      if set =ₜ "" then user_tags else user_tags ++ (machine_request_tag_prefix ^^ set) ∷ [] in
    elim tags [ [] ↦ none | t ∷ ts ↦ some (join ";" (t ∷ ts)) ]

abbrev pub text_option : String → String → VmOption
text_option name value = record { name = name; value = text value }

abbrev pub number_option : String → ℕ → VmOption
number_option name value = record { name = name; value = number value }

-- `if b { l = append(l, x) }`, with what is appended later in `rest`
abbrev pub when_part : {A : Type 0} → Bool → A → List A → List A
when_part b x rest = if b then x ∷ rest else rest

unfoldable pub usb_parts : UsbDevice → List String
usb_parts device = ("mapping=" ^^ device.mapping) ∷ when_part device.usb3 "usb3=1" []

unfoldable pub usb_options_from : ℕ → List UsbDevice → List VmOption
usb_options_from i [] = []
usb_options_from i (device ∷ devices) =
    text_option ("usb" ^^ decimal i) (join "," (usb_parts device))
    ∷ usb_options_from (i + 1) devices

unfoldable pub build_usb_device_options : List UsbDevice → List VmOption
build_usb_device_options devices = usb_options_from 0 devices

unfoldable pub build_firmware_options : Data → String → List VmOption
build_firmware_options cfg storage =
    let vga = when_part (not (cfg.vga =ₜ "")) (text_option "vga" cfg.vga) [] in
    if cfg.bios =ₜ ""
    then vga
    else text_option "bios" cfg.bios
      ∷ when_part (cfg.bios =ₜ "ovmf")
          (text_option "efidisk0" (storage ^^ ":1,efitype=4m,pre-enrolled-keys=0")) vga

-- The value of `scsi0` and of an additional disk; the size is an int.
unfoldable pub disk_string :
    (storage : String) (size : ℕ) (ssd discard iothread : Bool) (cache aio : String) → String
disk_string storage size ssd discard iothread cache aio = join "," (
    (storage ^^ (":" ^^ decimal_int size))
    ∷ when_part ssd "ssd=1" (
        when_part discard "discard=on" (
          when_part iothread "iothread=1" (
            when_part (not (cache =ₜ "")) ("cache=" ^^ cache)
              (when_part (not (aio =ₜ "")) ("aio=" ^^ aio) [])))))

-- `%d` of 0 and 1
abbrev flag : Bool → String
flag b = if b then "1" else "0"

-- The value of `net0` and of an additional network.
unfoldable pub network_string : (bridge : String) (firewall : Bool) (vlan : ℕ) → String
network_string bridge firewall vlan =
    let base = "virtio,bridge=" ^^ (bridge ^^ (",firewall=" ^^ flag firewall)) in
    if vlan == 0 then base else base ^^ (",tag=" ^^ decimal vlan)

-- `network_firewall` is on unless it is set to false.
abbrev pub primary_firewall : Option Bool → Bool
primary_firewall none = true
primary_firewall (some b) = b

unfoldable pub nic_options_from : ℕ → List AdditionalNic → List VmOption
nic_options_from i [] = []
nic_options_from i (nic ∷ nics) =
    text_option ("net" ^^ decimal (i + 1)) (network_string nic.bridge nic.firewall nic.vlan)
    ∷ nic_options_from (i + 1) nics

unfoldable pub pci_parts : PciDevice → List String
pci_parts pci =
    ("mapping=" ^^ pci.mapping)
    ∷ when_part pci.pci_express "pcie=1" (
        when_part pci.primary_gpu "x-vga=1" (
          when_part pci.rom_bar "rombar=1"
            (when_part (not (pci.mdev =ₜ "")) ("mdev=" ^^ pci.mdev) [])))

unfoldable pub pci_options_from : ℕ → List PciDevice → List VmOption
pci_options_from i [] = []
pci_options_from i (pci ∷ pcis) =
    text_option ("hostpci" ^^ decimal i) (join "," (pci_parts pci)) ∷ pci_options_from (i + 1) pcis

unfoldable pub hugepages_value : String → String
hugepages_value s =
    if s =ₜ "2MB"
    then "2"
    else if s =ₜ "2"
    then "2"
    else if s =ₜ "1GB"
    then "1024"
    else if s =ₜ "1024"
    then "1024"
    else if s =ₜ "any"
    then "any"
    else s

-- `data.Balloon != nil && !*data.Balloon`
abbrev pub disables_balloon : Option Bool → Bool
disables_balloon none = false
disables_balloon (some b) = not b
