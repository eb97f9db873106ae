-- ===== src/Ha/Names/RuleNames.antt =====
-- `ruleName` and the sids: which names stay apart.
use Prim.Native.Char.{Char}
use text.Mathlib.TextLemmas.{cons-append, nil-append, append_cancel_left, append_cancel_right}
use omni_infra_provider_prox.Base.{
  ℕ, ◌<◌, ◌^◌, String, ◌^^◌, ◌≡◌, ◌∙◌, refl, sym, ap, Bool, true, false, ◌&&◌, arith, if◌then◌else◌,
  decimal-injective, Bool-cases, inl, inr, ◌↔◌,
}
use omni_infra_provider_prox.Ha.Names.{
  is_name_char, replace_invalid, rule_name, vm_sid, machine_sid,
}

-- Proxmox accepts the text as it is in the name of a rule.
unfoldable pub is_rule_text : String → Bool
is_rule_text String.[] = true
is_rule_text (String.◌∷◌ c s) = is_name_char c && is_rule_text s

replaced_char : (c : Char) → is_name_char (if is_name_char c then c else "-") ≡ true
replaced_char c = elim (Bool-cases (is_name_char c)) [
  | inl ok ↦ rw ok ok
  | inr bad ↦ rw bad (unfold is_name_char in refl)
]

replace_invalid-is_rule_text : (s : String) → is_rule_text (replace_invalid s) ≡ true
unfolding is_rule_text replace_invalid
replace_invalid-is_rule_text String.[] = refl
replace_invalid-is_rule_text (String.◌∷◌ c s) =
    rw (replaced_char c) (replace_invalid-is_rule_text s)

is_rule_text-append :
    (s t : String) → is_rule_text s ≡ true → is_rule_text t ≡ true → is_rule_text (s ^^ t) ≡ true
unfolding is_rule_text
is_rule_text-append String.[] t h k = rw nil-append k
is_rule_text-append (String.◌∷◌ c s) t h k =
    rw (cons-append c s t) (ground (arith, is_rule_text-append s t))

replace_invalid_done : (s : String) → is_rule_text s ≡ true → replace_invalid s ≡ s
unfolding is_rule_text replace_invalid
replace_invalid_done String.[] h = refl
replace_invalid_done (String.◌∷◌ c s) h = ground (arith, replace_invalid_done s)

-- The name of a rule holds no character that Proxmox refuses, whatever the set is called, if the suffix
-- holds none.
pub rule_name-is_rule_text :
    (set suffix : String) → is_rule_text suffix ≡ true → is_rule_text (rule_name set suffix) ≡ true
unfolding rule_name
rule_name-is_rule_text set suffix h =
    is_rule_text-append "omni-" _ (unfold is_rule_text is_name_char in refl) (
      is_rule_text-append (replace_invalid set) _ (replace_invalid-is_rule_text set)
        (is_rule_text-append "-" suffix (unfold is_rule_text is_name_char in refl) h))

-- Two sets whose names hold no character that Proxmox refuses have different rules, for one suffix.
pub rule_name-injective :
    (s t suffix : String)
    → is_rule_text s ≡ true
    → is_rule_text t ≡ true
    → rule_name s suffix ≡ rule_name t suffix
    → s ≡ t
unfolding rule_name
rule_name-injective s t suffix hs ht e =
    sym (replace_invalid_done s hs)
    ∙ append_cancel_right (replace_invalid s) (replace_invalid t) ("-" ^^ suffix)
        (append_cancel_left "omni-" _ _ e)
    ∙ replace_invalid_done t ht

replace_invalid-append :
    (s t : String) → replace_invalid (s ^^ t) ≡ replace_invalid s ^^ replace_invalid t
unfolding replace_invalid
replace_invalid-append String.[] t = rw (nil-append, nil-append)
replace_invalid-append (String.◌∷◌ c s) t =
    rw (cons-append c s t, cons-append _ (replace_invalid s) (replace_invalid t))
      (ap (λ u. String.◌∷◌ (if is_name_char c then c else "-") u) (replace_invalid-append s t))

-- Two sets whose names differ only where one has a character that Proxmox refuses and the other has a
-- dash share the rule.
pub rule_name_collision :
    (before after suffix : String) (c : Char)
    → is_name_char c ≡ false
    → rule_name (before ^^ String.◌∷◌ c after) suffix
      ≡ rule_name (before ^^ String.◌∷◌ "-" after) suffix
unfolding rule_name
rule_name_collision before after suffix c h =
    ap (λ u. "omni-" ^^ (u ^^ ("-" ^^ suffix)))
      (replace_invalid-append before (String.◌∷◌ c after)
        ∙ ap (λ u. replace_invalid before ^^ u) same
        ∙ sym (replace_invalid-append before (String.◌∷◌ "-" after)))
  where
    same : replace_invalid (String.◌∷◌ c after) ≡ replace_invalid (String.◌∷◌ "-" after)
    same = unfold replace_invalid in rw h (unfold is_name_char in refl)

-- For a machine whose id is below 2 ^ 31, so not negative: its sid in the steps is the sid that the
-- scan of the nodes gives to a virtual machine exactly if the two have one id.
pub machine_sid-vm_sid : (m n : ℕ) → m < 2 ^ 31 → (machine_sid m ≡ vm_sid n) ↔ (m ≡ n)
unfolding machine_sid vm_sid
machine_sid-vm_sid m n h = (
  λ e. decimal-injective m n (append_cancel_left "vm:" _ _ (sym same ∙ e)),
  λ e. same ∙ ap vm_sid e,
)
  where
    same : machine_sid m ≡ vm_sid m
    same = ground arith
