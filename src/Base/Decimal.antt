-- ===== src/Base/Decimal.antt =====
-- `%d`: numbers in decimal, and how they are read back.
use Prim.Native.Nat.{ℕ, zero, suc, ◌+◌, ◌-◌, ◌*◌, ◌/◌, ◌%◌, ◌^◌, ◌<◌}
use Prim.Native.Char.{Char, code}
use Prim.Native.String.{String, ◌++◌}
use mathlib.Core.Path.{◌≡◌, refl, ap, ◌∙◌, sym}
use mathlib.Core.Logic.{inl, inr}
use native.Mathlib.Omega.{arith}
use omni_infra_provider_prox.Base.Tests.{ltb, if◌then◌else◌, Bool-cases}

digit_char : ℕ → Char
digit_char zero = "0"
digit_char (suc zero) = "1"
digit_char (suc (suc zero)) = "2"
digit_char (suc (suc (suc zero))) = "3"
digit_char (suc (suc (suc (suc zero)))) = "4"
digit_char (suc (suc (suc (suc (suc zero))))) = "5"
digit_char (suc (suc (suc (suc (suc (suc zero)))))) = "6"
digit_char (suc (suc (suc (suc (suc (suc (suc zero))))))) = "7"
digit_char (suc (suc (suc (suc (suc (suc (suc (suc zero)))))))) = "8"
digit_char _ = "9"

write_digits : ℕ → ℕ → String → String
write_digits zero n acc = acc
write_digits (suc fuel) n acc =
    let acc' = String.◌∷◌ (digit_char (n % 10)) acc in
    let rest = write_digits fuel (n / 10) acc' in if ltb n 10 then acc' else rest

-- `%d` of an unsigned number.
unfoldable pub decimal : ℕ → String
unfolding write_digits digit_char
decimal n = write_digits (suc n) n ""

-- `%d` of an int, given as its 64-bit pattern.
unfoldable pub decimal_int : ℕ → String
unfolding decimal
decimal_int n = if ltb n (2 ^ 63) then decimal n else "-" ++ decimal (2 ^ 64 - n)

read_from : ℕ → String → ℕ
read_from n String.[] = n
read_from n (String.◌∷◌ c s) = read_from (n * 10 + (code c - 48)) s

unfoldable pub parse_decimal : String → ℕ
unfolding read_from
parse_decimal s = read_from 0 s

code-digit_char : (d : ℕ) → d < 10 → code (digit_char d) ≡ 48 + d
unfolding digit_char
code-digit_char zero h = refl
code-digit_char (suc zero) h = refl
code-digit_char (suc (suc zero)) h = refl
code-digit_char (suc (suc (suc zero))) h = refl
code-digit_char (suc (suc (suc (suc zero)))) h = refl
code-digit_char (suc (suc (suc (suc (suc zero))))) h = refl
code-digit_char (suc (suc (suc (suc (suc (suc zero)))))) h = refl
code-digit_char (suc (suc (suc (suc (suc (suc (suc zero))))))) h = refl
code-digit_char (suc (suc (suc (suc (suc (suc (suc (suc zero)))))))) h = refl
code-digit_char (suc (suc (suc (suc (suc (suc (suc (suc (suc n))))))))) h =
    let e : n ≡ 0 = omega arith in rw e

read_digit : (m n : ℕ) → m * 10 + (code (digit_char (n % 10)) - 48) ≡ m * 10 + n % 10
read_digit m n = omega (arith, code-digit_char (n % 10) (omega arith))

read-write_digits :
    (fuel n : ℕ) (acc : String) → n < fuel → read_from 0 (write_digits fuel n acc) ≡ read_from n acc
unfolding read_from write_digits
read-write_digits zero n acc h = absurd (omega arith)
read-write_digits (suc fuel) n acc h = elim (Bool-cases (ltb n 10)) [
  | inl small ↦ rw small (ap (λ k. read_from k acc) (read_digit 0 n ∙ ground arith))
  | inr large ↦ rw large (
      read-write_digits fuel (n / 10) _ (ground arith)
      ∙ ap (λ k. read_from k acc) (read_digit (n / 10) n ∙ omega arith))
]

-- What `%d` writes reads back as the number.
pub parse_decimal-decimal : (n : ℕ) → parse_decimal (decimal n) ≡ n
unfolding parse_decimal decimal
parse_decimal-decimal n = read-write_digits (suc n) n "" (omega arith)

pub decimal-injective : (m n : ℕ) → decimal m ≡ decimal n → m ≡ n
decimal-injective m n e =
    sym (parse_decimal-decimal m) ∙ ap parse_decimal e ∙ parse_decimal-decimal n
