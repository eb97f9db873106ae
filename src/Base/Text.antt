-- ===== src/Base/Text.antt =====
-- What the program uses of Go's `strings` package, over the native texts.
pub mod Trim
use Prim.Native.Nat.{ℕ}
use Prim.Native.Char.{Char, code}
use Prim.Native.String.{String, ◌++◌}
use Prim.Native.String.compare as compare_clauses
use mathlib.Core.Path.{◌≡◌, refl, ap}
use mathlib.Core.Bool.{Bool, true, false, not, ◌&&◌, ◌||◌}
use mathlib.Core.Option.{none, some}
use mathlib.Core.List.{List, [], ◌∷◌}
use native.Mathlib.Omega.{arith}
use text.Mathlib.Text.{find?, is_eq}
use text.Mathlib.TextLemmas.{nil-append, cons-append}
use text.Mathlib.TextPositions.{eq_refl}
use omni_infra_provider_prox.Base.Tests.{leb, ◌==◌, ◌=ₜ◌, if◌then◌else◌}
use omni_infra_provider_prox.Base.Lists.{All}

pub text_eq_refl : (s : String) → (s =ₜ s) ≡ true
text_eq_refl s = eq_refl s

-- strings.Contains
unfoldable pub text_contains : String → String → Bool
text_contains s part = elim (find? s part) [ none ↦ false | some i ↦ true ]

-- `%q` of a text with nothing to escape, such as the names that Proxmox allows.
unfoldable pub quoted : String → String
quoted s = "\"" ++ s ++ "\""

-- strings.Join
unfoldable pub join : String → List String → String
join sep [] = ""
join sep (x ∷ []) = x
join sep (x ∷ y ∷ ys) = x ++ (sep ++ join sep (y ∷ ys))

on_head : Char → List String → List String
on_head c [] = (String.◌∷◌ c "") ∷ []
on_head c (p ∷ ps) = (String.◌∷◌ c p) ∷ ps

-- strings.Split by a separator of one character, given by its code.
unfoldable pub split : ℕ → String → List String
unfolding on_head
split sep String.[] = "" ∷ []
split sep (String.◌∷◌ c s) =
    let rest = split sep s in if code c == sep then "" ∷ rest else on_head c rest

-- unicode.IsSpace
unfoldable pub is_space : Char → Bool
is_space c =
    let n = code c in
    (leb 9 n && leb n 13)
    || n == 32
    || n == 0x85
    || n == 0xa0
    || n == 0x1680
    || (leb 0x2000 n && leb n 0x200a)
    || n == 0x2028
    || n == 0x2029
    || n == 0x202f
    || n == 0x205f
    || n == 0x3000

unfoldable pub trim_left : String → String
trim_left String.[] = ""
trim_left (String.◌∷◌ c s) = let rest = trim_left s in if is_space c then rest else String.◌∷◌ c s

-- What is left of a text without the white space at its end.
trim_right : String → String
trim_right String.[] = ""
trim_right (String.◌∷◌ c s) =
    let rest = trim_right s in if is_space c && (rest =ₜ "") then "" else String.◌∷◌ c rest

-- strings.TrimSpace
unfoldable pub trim_space : String → String
unfolding trim_left trim_right is_space
trim_space s = trim_right (trim_left s)

-- No character of the text has the code.
unfoldable pub free_of : ℕ → String → Bool
free_of sep String.[] = true
free_of sep (String.◌∷◌ c s) = not (code c == sep) && free_of sep s

unfoldable pub has_space : String → Bool
unfolding is_space
has_space String.[] = false
has_space (String.◌∷◌ c s) = is_space c || has_space s

-- A text without the separator is its own only part.
pub split-free : (sep : ℕ) (s : String) → free_of sep s ≡ true → split sep s ≡ s ∷ []
unfolding split free_of
split-free sep String.[] h = refl
split-free sep (String.◌∷◌ c s) h = ground (arith, split-free sep s)

split-cons :
    (c : Char) (p s : String)
    → free_of (code c) p ≡ true
    → split (code c) (p ++ String.◌∷◌ c s) ≡ p ∷ split (code c) s
unfolding split free_of
split-cons c String.[] s h = rw nil-append (ground arith)
split-cons c (String.◌∷◌ d p) s h =
    rw (cons-append d p (String.◌∷◌ c s)) (ground (arith, split-cons c p s))

-- Splitting what was joined gives the parts, if none holds the separator and there is one at least.
pub split-join :
    (c : Char) (x : String) (xs : List String)
    → All (λ p. free_of (code c) p ≡ true) (x ∷ xs)
    → split (code c) (join (String.◌∷◌ c "") (x ∷ xs)) ≡ x ∷ xs
unfolding join
split-join c x [] h = split-free (code c) x h.0
split-join c x (y ∷ ys) h =
    rw (cons-append c "" (join (String.◌∷◌ c "") (y ∷ ys)), nil-append)
      (rw (split-cons c x (join (String.◌∷◌ c "") (y ∷ ys)) h.0)
        (ap (λ l. x ∷ l) (split-join c y ys h.1)))

trim_right-clean : (s : String) → has_space s ≡ false → trim_right s ≡ s
unfolding trim_right has_space
trim_right-clean String.[] h = refl
trim_right-clean (String.◌∷◌ c s) h = ground (arith, trim_right-clean s)

-- Trimming leaves a text without white space as it is.
pub trim_space-clean : (s : String) → has_space s ≡ false → trim_space s ≡ s
unfolding trim_space has_space
trim_space-clean String.[] h = refl
trim_space-clean (String.◌∷◌ c s) h = ground (arith, trim_right-clean s)

pub cons-ne-empty : (c : Char) (s : String) → (String.◌∷◌ c s =ₜ "") ≡ false
cons-ne-empty c s = λ i. is_eq (compare_clauses.cons-nil c s i)

-- A text that begins with one that is not empty is not empty.
pub append-ne-empty : (p s : String) → (p =ₜ "") ≡ false → (p ++ s =ₜ "") ≡ false
append-ne-empty String.[] s h = (cc)
append-ne-empty (String.◌∷◌ c p) s h = rw (cons-append c p s) (cons-ne-empty c (p ++ s))
