-- ===== src/Startup/Version.antt =====
-- internal/version/version.go: the name of the project, from the path of the main package that the build info
-- gives.
use text.Mathlib.TextLemmas.{cons-append, nil-append, append_assoc}
use Prim.Native.Char.{Char, code}
use omni_infra_provider_prox.Base.{
  ℕ, String, ◌^^◌, ◌≡◌, ◌∙◌, refl, sym, ap, true, false, ◌&&◌, Option, none, some, ◌==◌,
  if◌then◌else◌, free_of, arith,
}
use omni_infra_provider_prox.Provision.Tasks.{has_prefix}

-- `s[strings.LastIndex(s, sep)+1:]` for a separator of one character, given by its code.
unfoldable pub after_last : ℕ → String → String
after_last sep String.[] = ""
after_last sep (String.◌∷◌ c s) =
    let rest = after_last sep s in
    if free_of sep s then (if code c == sep then s else String.◌∷◌ c s) else rest

abbrev project_prefix : String
project_prefix = "github.com/siderolabs/"

-- The initial value of `Name`; none is no build info, and then the panic.
unfoldable project_name : Option String → Option String
project_name none = none
project_name (some path) =
    some (if has_prefix path project_prefix then after_last b'/' path else "community-project")

has_prefix-append : (p s : String) → has_prefix (p ^^ s) p ≡ true
unfolding has_prefix
has_prefix-append String.[] s = refl
has_prefix-append (String.◌∷◌ c p) s =
    rw (cons-append c p s) (ground (arith, has_prefix-append p s))

free_of-append : (sep : ℕ) (p s : String) → free_of sep (p ^^ s) ≡ (free_of sep p && free_of sep s)
unfolding free_of
free_of-append sep String.[] s = rw nil-append refl
free_of-append sep (String.◌∷◌ c p) s =
    rw (cons-append c p s) (ground (arith, free_of-append sep p s))

-- What stands behind the last separator.
after_last-behind :
    (c : Char) (p s : String)
    → free_of (code c) s ≡ true
    → after_last (code c) (p ^^ String.◌∷◌ c s) ≡ s
unfolding after_last free_of
after_last-behind c String.[] s h = rw nil-append (ground arith)
after_last-behind c (String.◌∷◌ d p) s h =
    let later : free_of (code c) (p ^^ String.◌∷◌ c s) ≡ false =
      free_of-append (code c) p (String.◌∷◌ c s) ∙ ground arith in
    rw (cons-append d p (String.◌∷◌ c s), later) (after_last-behind c p s h)

slash : (name : String) → "/" ^^ name ≡ String.◌∷◌ "/" name
slash name = cons-append "/" "" name ∙ ap (λ t. String.◌∷◌ "/" t) (nil-append name)

siderolabs_project :
    (before name : String)
    → free_of b'/' name ≡ true
    → has_prefix (before ^^ ("/" ^^ name)) project_prefix ≡ true
    → project_name (some (before ^^ ("/" ^^ name))) ≡ some name
unfolding project_name
siderolabs_project before name h ours =
    rw (ours, slash name) (ap (λ t. some t) (after_last-behind "/" before name h))

-- The name of the project is the last part of the path of its main package, whether the package
-- stands in the root of a repository of siderolabs or in a directory below it, if that part holds
-- no slash.
project_name_lem :
    (dir name : String)
    → free_of b'/' name ≡ true
    → (project_name (some (project_prefix ^^ name)) ≡ some name)
      × (project_name (some (project_prefix ^^ (dir ^^ ("/" ^^ name)))) ≡ some name)
project_name_lem dir name h =
    let alone = append_assoc "github.com/siderolabs" "/" name in
    let below = append_assoc project_prefix dir ("/" ^^ name) in
    (
      ap (λ t. project_name (some t)) alone
          ∙ siderolabs_project "github.com/siderolabs" name h (
              ap (λ t. has_prefix t project_prefix) (sym alone)
              ∙ has_prefix-append project_prefix name),
      ap (λ t. project_name (some t)) (sym below)
          ∙ siderolabs_project (project_prefix ^^ dir) name h (
              ap (λ t. has_prefix t project_prefix) below
              ∙ has_prefix-append project_prefix (dir ^^ ("/" ^^ name))),
    )
