-- ===== src/Ha/Names/Csv.antt =====
-- Member lists: what `splitCSV` reads of what `strings.Join` wrote.
use omni_infra_provider_prox.Base.{
  String, ◌≡◌, ◌∙◌, refl, ap, true, false, List, [], ◌∷◌, All, ◌=ₜ◌, join, split, split-join,
  split_free, free_of, trim_space, trim_space-free, trim_space_idem, append-ne-empty, ◌^^◌,
  Bool-cases, inl, inr,
}
use omni_infra_provider_prox.Ha.Names.{split_csv, trimmed_parts}

-- A member that can stand in a list: not empty, without a comma, and without white space round it.
pub record IsMember (p : String) : Type 0 where
  pub named : (p =ₜ "") ≡ false
  pub no_comma : free_of b',' p ≡ true
  pub trimmed : trim_space p ≡ p

trimmed_parts-members :
    (ps : List String) → All (λ p. free_of b',' p ≡ true) ps → All IsMember (trimmed_parts ps)
unfolding trimmed_parts
trimmed_parts-members [] h = tt
trimmed_parts-members (p ∷ ps) h = elim (Bool-cases (trim_space p =ₜ "")) [
  | inl empty ↦ rw (empty, trimmed_parts) (trimmed_parts-members ps h.1)
  | inr named ↦
      rw (named, trimmed_parts)
        (
          record {
            named = named;
            no_comma = trim_space-free b',' p h.0;
            trimmed = trim_space_idem p;
          },
          trimmed_parts-members ps h.1,
        )
]

-- Every part that `splitCSV` returns can stand in a list.
pub split_csv-members : (s : String) → All IsMember (split_csv s)
unfolding split_csv
split_csv-members s = elim (Bool-cases (s =ₜ "")) [
  | inl empty ↦ rw (empty, split_csv) tt
  | inr full ↦ rw (full, split_csv) (trimmed_parts-members (split b',' s) (split_free b',' s))
]

trimmed_parts_done : (ps : List String) → All IsMember ps → trimmed_parts ps ≡ ps
unfolding trimmed_parts
trimmed_parts_done [] h = refl
trimmed_parts_done (p ∷ ps) h =
    let named = h.0.named in
    rw (h.0.trimmed, named, trimmed_parts) (ap (λ l. p ∷ l) (trimmed_parts_done ps h.1))

no_commas : (ps : List String) → All IsMember ps → All (λ p. free_of b',' p ≡ true) ps
no_commas [] h = tt
no_commas (p ∷ ps) h = (h.0.no_comma, no_commas ps h.1)

join-named : (p : String) (ps : List String) → IsMember p → (join "," (p ∷ ps) =ₜ "") ≡ false
unfolding join
join-named p [] h = h.named
join-named p (q ∷ qs) h = append-ne-empty p ("," ^^ join "," (q ∷ qs)) h.named

-- Round trip: what was joined from members splits into those members, if each of them can stand in
-- a list.
pub split_csv-join : (ps : List String) → All IsMember ps → split_csv (join "," ps) ≡ ps
unfolding split_csv
split_csv-join [] h = unfold join in refl
split_csv-join (p ∷ ps) h =
    let full = join-named p ps h.0 in
    rw (full, split_csv)
      (ap trimmed_parts (split-join "," p ps (no_commas (p ∷ ps) h))
        ∙ trimmed_parts_done (p ∷ ps) h)
