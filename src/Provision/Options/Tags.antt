-- ===== src/Provision/Options/Tags.antt =====
-- `buildTagsOption` against the tag test of the HA manager.
use omni_infra_provider_prox.Base.{
  String, ◌^^◌, ◌≡◌, ◌∙◌, refl, ap, true, false, Option, none, some, List, [], ◌∷◌, ◌++◌, All,
  All-append, arith, ◌=ₜ◌, if◌then◌else◌, join, split, split-join, free_of, contains,
  contains-append_self,
}
use omni_infra_provider_prox.Ha.Names.{has_tag, machine_request_tag}
use omni_infra_provider_prox.Provision.Options.{build_tags_option}

-- A tag that can stand in a tag list.
abbrev pub IsTag : String → Type 0
IsTag t = free_of b';' t ≡ true

joined_tags :
    (all : List String) (t : String)
    → contains all t ≡ true
    → All IsTag all
    → (value : String) × (◌≡◌ {A = Option String}
        (elim all [ [] ↦ none | x ∷ xs ↦ some (join ";" (x ∷ xs)) ])
        (some value))
      × (split b';' value ≡ all)
joined_tags [] t h c = absurd (ground arith)
joined_tags (x ∷ xs) t h c = (join ";" (x ∷ xs), refl, split-join ";" x xs c)

-- If the set has a name and no tag holds a semicolon, the tags of a machine in the set read back as
-- the user's tags and the tag of the set, and the HA manager finds the tag of the set among them.
pub build_tags_option-has_tag :
    (user_tags : List String) (set : String)
    → (set =ₜ "") ≡ false
    → All IsTag user_tags
    → IsTag (machine_request_tag ^^ set)
    → (value : String) × (build_tags_option user_tags set ≡ some value)
      × (split b';' value ≡ user_tags ++ (machine_request_tag ^^ set) ∷ [])
      × (has_tag b';' value (machine_request_tag ^^ set) ≡ true)
unfolding build_tags_option has_tag
build_tags_option-has_tag tags set named clean clean_set =
    let t = machine_request_tag ^^ set in
    let has = contains-append_self tags t in
    let (value, e, parts) =
      joined_tags (tags ++ t ∷ []) t has (All-append IsTag tags (t ∷ []) clean (clean_set, tt)) in
    (
      value,
      ap
            (λ b. elim (if b then tags else tags ++ t ∷ []) [
              | [] ↦ none
              | x ∷ xs ↦ some (join ";" (x ∷ xs))
            ])
            named
          ∙ e,
      parts,
      ap (λ l. contains l t) parts ∙ has,
    )
