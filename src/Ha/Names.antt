-- ===== src/Ha/Names.antt =====
-- Names and member lists of affinity rules: `ruleName`, `splitCSV` and `hasTag`, and the sids.
pub mod Csv
pub mod RuleNames
use Prim.Native.Char.{Char, code}
use omni_infra_provider_prox.Base.{
  ℕ, ◌+◌, ◌-◌, ◌^◌, String, ◌^^◌, Bool, true, false, not, ◌&&◌, ◌||◌, List, [], ◌∷◌, leb, ltb, ◌==◌,
  ◌=ₜ◌, if◌then◌else◌, contains, split, trim_space, decimal,
}

-- A character that the pattern `[^A-Za-z0-9_-]` does not match.
unfoldable pub is_name_char : Char → Bool
is_name_char c =
    let n = code c in
    (leb b'A' n && leb n b'Z')
    || (leb b'a' n && leb n b'z')
    || (leb b'0' n && leb n b'9')
    || n == b'_'
    || n == b'-'

-- ruleNameInvalid.ReplaceAllString(s, "-")
unfoldable pub replace_invalid : String → String
replace_invalid String.[] = ""
replace_invalid (String.◌∷◌ c s) =
    String.◌∷◌ (if is_name_char c then c else "-") (replace_invalid s)

abbrev pub node_affinity_suffix : String
node_affinity_suffix = "naff"

abbrev pub resource_affinity_suffix : String
resource_affinity_suffix = "raff"

unfoldable pub rule_name : (set suffix : String) → String
rule_name set suffix = "omni-" ^^ (replace_invalid set ^^ ("-" ^^ suffix))

unfoldable pub trimmed_parts : List String → List String
trimmed_parts [] = []
trimmed_parts (p ∷ ps) =
    let rest = trimmed_parts ps in let q = trim_space p in if not (q =ₜ "") then q ∷ rest else rest

unfoldable pub split_csv : String → List String
split_csv s = if s =ₜ "" then [] else trimmed_parts (split b',' s)

-- The separator is go-proxmox's constant, the code of one character.
unfoldable pub has_tag : (tag_separator : ℕ) → (tags tag : String) → Bool
has_tag tag_separator tags tag = contains (split tag_separator tags) tag

abbrev pub machine_request_tag : String
machine_request_tag = "machine-request."

-- fmt.Sprintf("vm:%d", id) of an unsigned id
unfoldable pub vm_sid : ℕ → String
vm_sid vmid = "vm:" ^^ decimal vmid

-- fmt.Sprintf("vm:%d", vmid) of an int32
unfoldable pub machine_sid : ℕ → String
machine_sid vmid = if ltb vmid (2 ^ 31) then vm_sid vmid else "vm:-" ^^ decimal (2 ^ 32 - vmid)

-- uint64(vmid) of an int32
unfoldable pub sign_extend : ℕ → ℕ
sign_extend vmid = if ltb vmid (2 ^ 31) then vmid else vmid + 2 ^ 64 - 2 ^ 32
