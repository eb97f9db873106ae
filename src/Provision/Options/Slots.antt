-- ===== src/Provision/Options/Slots.antt =====
-- The names of the options. Each name has a slot, a number by which the builders of the options come in
-- turn; the names of one numbered family share a slot.
use text.Mathlib.TextLemmas.{cons-append, append_cancel_left}
use Prim.Native.Char.{code}
use omni_infra_provider_prox.Base.{
  ℕ, ◌+◌, ◌≤◌, ◌<◌, String, ◌^^◌, ◌≡◌, ◌∙◌, refl, sym, ap, Bool, true, false, ◌&&◌, inl, inr, List,
  [], ◌∷◌, ◌++◌, ◌==◌, ◌=ₜ◌, if◌then◌else◌, All, All-append, arith, eq_iff, Bool-cases, decimal,
  parse_decimal, parse_decimal-decimal, decimal-injective,
}
use omni_infra_provider_prox.Api.{VmOption}
use omni_infra_provider_prox.Provision.Options.{when_part}

-- No option stands twice.
abbrev pub DistinctOptions : List VmOption → Type 0
DistinctOptions [] = Unit {0}
DistinctOptions (o ∷ os) = All (λ p. (o.name =ₜ p.name) ≡ false) os × DistinctOptions os

unfoldable begins : String → String → Bool
begins String.[] s = true
begins (String.◌∷◌ c p) String.[] = false
begins (String.◌∷◌ c p) (String.◌∷◌ d s) = code c == code d && begins p s

unfoldable fits : String → String → Bool
fits String.[] s = true
fits (String.◌∷◌ c p) String.[] = false
fits (String.◌∷◌ c p) (String.◌∷◌ d s) = fits p s

begins-append : (p q x : String) → fits p q ≡ true → begins p (q ^^ x) ≡ begins p q
unfolding begins fits
begins-append String.[] q x h = refl
begins-append (String.◌∷◌ c p) String.[] x h = absurd (ground arith)
begins-append (String.◌∷◌ c p) (String.◌∷◌ d q) x h =
    rw (cons-append d q x) (ap (λ b. code c == code d && b) (begins-append p q x h))

abbrev position : String → ℕ → List String → ℕ
position s i [] = i
position s i (x ∷ xs) = if s =ₜ x then i else position s (i + 1) xs

-- The names that are not numbered, in turn.
abbrev fixed_names : List String
fixed_names =
    "smbios1" ∷ "name" ∷ "cdrom" ∷ "cpu" ∷ "cores" ∷ "sockets" ∷ "memory" ∷ "scsi0" ∷ "scsihw"
    ∷ "onboot" ∷ "net0" ∷ "agent" ∷ "tags" ∷ "pool" ∷ "scsi" ∷ "machine" ∷ "bios" ∷ "efidisk0"
    ∷ "vga" ∷ "numa" ∷ "hugepages" ∷ "balloon" ∷ []

unfoldable pub slot : String → ℕ
unfolding begins
slot s =
    if begins "us" s
    then 24
    else if begins "ho" s
    then 23
    else if begins "ne" s
    then (if s =ₜ "net0" then 10 else 22)
    else if begins "sc" s
    then (if s =ₜ "scsi0" then 7 else if s =ₜ "scsihw" then 8 else 14)
    else position s 0 fixed_names

pub slot-usb : (i : ℕ) → slot ("usb" ^^ decimal i) ≡ 24
unfolding slot begins fits
slot-usb i = rw (begins-append "us" "usb" (decimal i) refl) refl

pub slot-hostpci : (i : ℕ) → slot ("hostpci" ^^ decimal i) ≡ 23
unfolding slot begins fits
slot-hostpci i =
    rw
      (begins-append "us" "hostpci" (decimal i) refl, begins-append "ho" "hostpci" (decimal i) refl)
      refl

not_zero : (p : String) (i : ℕ) → (p ^^ decimal (i + 1) =ₜ p ^^ "0") ≡ false
unfolding decimal
not_zero p i = elim (Bool-cases (p ^^ decimal (i + 1) =ₜ p ^^ "0")) [
  | inr e ↦ e
  | inl e ↦ absurd (
      omega (
        arith,
        decimal-injective (i + 1) 0
            (append_cancel_left p _ _ ((eq_iff (p ^^ decimal (i + 1)) (p ^^ "0")).0 e)),
      ))
]

pub slot-net : (i : ℕ) → slot ("net" ^^ decimal (i + 1)) ≡ 22
unfolding slot begins fits
slot-net i =
    rw
      (
        begins-append "us" "net" (decimal (i + 1)) refl,
        begins-append "ho" "net" (decimal (i + 1)) refl,
        begins-append "ne" "net" (decimal (i + 1)) refl,
        not_zero "net" i,
      )
      refl

-- No number is written `hw`.
not_hw : (i : ℕ) → ("scsi" ^^ decimal i =ₜ "scsihw") ≡ false
unfolding decimal parse_decimal
not_hw i = elim (Bool-cases ("scsi" ^^ decimal i =ₜ "scsihw")) [
  | inr e ↦ e
  | inl e ↦
      (let written : decimal i ≡ "hw" =
          append_cancel_left "scsi" _ _ ((eq_iff ("scsi" ^^ decimal i) "scsihw").0 e) in
        let number : i ≡ 631 = sym (parse_decimal-decimal i) ∙ ap parse_decimal written in
        let wrong : ("631" =ₜ "hw") ≡ true =
          (eq_iff "631" "hw").1 (sym (ap decimal number) ∙ written) in
        absurd (ground arith))
]

pub slot-scsi : (i : ℕ) → slot ("scsi" ^^ decimal (i + 1)) ≡ 14
unfolding slot begins fits
slot-scsi i =
    rw
      (
        begins-append "us" "scsi" (decimal (i + 1)) refl,
        begins-append "ho" "scsi" (decimal (i + 1)) refl,
        begins-append "ne" "scsi" (decimal (i + 1)) refl,
        begins-append "sc" "scsi" (decimal (i + 1)) refl,
        not_zero "scsi" i,
        not_hw (i + 1),
      )
      refl

-- The options are distinct, and their slots are from `a` to below `b`.
pub record Block (a b : ℕ) (os : List VmOption) : Type 0 where
  pub distinct : DistinctOptions os
  pub within : All (λ o. (a ≤ slot o.name) × (slot o.name < b)) os

differ : (s t : String) → slot s < slot t → (s =ₜ t) ≡ false
differ s t h = elim (Bool-cases (s =ₜ t)) [
  | inr e ↦ e
  | inl e ↦ absurd (omega (arith, ap slot ((eq_iff s t).0 e)))
]

All-widen :
    (a b c d : ℕ) (os : List VmOption)
    → c ≤ a
    → b ≤ d
    → All (λ o. (a ≤ slot o.name) × (slot o.name < b)) os
    → All (λ o. (c ≤ slot o.name) × (slot o.name < d)) os
All-widen a b c d [] h k all = tt
All-widen a b c d (o ∷ os) h k all = ((omega arith, omega arith), All-widen a b c d os h k all.1)

pub Block-widen : (a b c d : ℕ) (os : List VmOption) → c ≤ a → b ≤ d → Block a b os → Block c d os
Block-widen a b c d os h k m = record {
  distinct = m.distinct;
  within = All-widen a b c d os h k m.within;
}

pub Block-nil : (a b : ℕ) → Block a b []
Block-nil a b = record { distinct = tt; within = tt }

apart :
    (s : String) (a b : ℕ) (os : List VmOption)
    → slot s < a
    → All (λ o. (a ≤ slot o.name) × (slot o.name < b)) os
    → All (λ p. (s =ₜ p.name) ≡ false) os
apart s a b [] h all = tt
apart s a b (o ∷ os) h all = (differ s o.name (omega arith), apart s a b os h all.1)

-- An option in front of options of later slots.
pub Block-cons :
    (a b : ℕ) (o : VmOption) (os : List VmOption)
    → slot o.name ≡ a
    → a < b
    → Block (a + 1) b os
    → Block a b (o ∷ os)
Block-cons a b o os e h m = record {
  distinct = (apart o.name (a + 1) b os (omega arith) m.within, m.distinct);
  within =
      ((omega arith, omega arith), All-widen (a + 1) b a b os (omega arith) (omega arith) m.within);
}

pub Block-when :
    (a b : ℕ) (t : Bool) (o : VmOption) (os : List VmOption)
    → slot o.name ≡ a
    → a < b
    → Block (a + 1) b os
    → Block a b (when_part t o os)
Block-when a b true o os e h m = Block-cons a b o os e h m
Block-when a b false o os e h m = Block-widen (a + 1) b a b os (omega arith) (omega arith) m

append-apart :
    (s : String) (xs ys : List VmOption)
    → All (λ p. (s =ₜ p.name) ≡ false) xs
    → All (λ p. (s =ₜ p.name) ≡ false) ys
    → All (λ p. (s =ₜ p.name) ≡ false) (xs ++ ys)
append-apart s xs ys h k = All-append (λ (p : VmOption). (s =ₜ p.name) ≡ false) xs ys h k

append-DistinctOptions :
    (a b c : ℕ) (xs ys : List VmOption) → Block a b xs → Block b c ys → DistinctOptions (xs ++ ys)
append-DistinctOptions a b c [] ys m n = n.distinct
append-DistinctOptions a b c (x ∷ xs) ys m n = (
  append-apart x.name xs ys m.distinct.0 (apart x.name b c ys m.within.0.1 n.within),
  append-DistinctOptions a b c xs ys (record { distinct = m.distinct.1; within = m.within.1 }) n,
)

-- One builder's options in front of those of the builders behind it.
pub Block-append :
    (a b c : ℕ) (xs ys : List VmOption)
    → a ≤ b
    → b ≤ c
    → Block a b xs
    → Block b c ys
    → Block a c (xs ++ ys)
Block-append a b c xs ys h k m n = record {
  distinct = append-DistinctOptions a b c xs ys m n;
  within =
      All-append (λ (o : VmOption). (a ≤ slot o.name) × (slot o.name < c)) xs ys
        (All-widen a b a c xs (omega arith) k m.within)
        (All-widen b c a c ys h (omega arith) n.within);
}
