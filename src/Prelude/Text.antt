-- ===== src/Prelude/Text.antt =====
-- C strings as lists of character codes, and the decimal conversion of `snprintf`.
use Prim.Native.Nat.{ℕ, zero, suc, ◌+◌, ◌*◌, ◌-◌, ◌/◌, ◌%◌, ◌<◌, ◌≤◌}
use Prim.Native.Char.{code}
use Prim.Native.String.{String}
use mathlib.Core.Path.{◌≡◌, ap, ◌∙◌}
use mathlib.Core.List.{List, [], ◌∷◌}
use mathlib.Core.Logic.{inl, inr}
use native.Mathlib.Omega.{arith}
use core_mqtt_agent_demos.Prelude.Lists.{length}
use core_mqtt_agent_demos.Prelude.Tests.{◌==◌, if◌then◌else◌, Bool-cases}

abbrev pub Text : Type 0
Text = List ℕ

-- The codes of a literal, all of which are ASCII.
abbrev pub codes : String → Text
codes String.[] = []
codes (String.◌∷◌ c s) = code c ∷ codes s

-- The decimal digits of a number in front of a text, with fuel.
pub digits : ℕ → ℕ → Text → Text
digits zero n rest = rest
digits (suc fuel) n rest =
    let more = digits fuel (n / 10) ((b'0' + n % 10) ∷ rest) in
    if n / 10 == 0 then (b'0' + n % 10) ∷ rest else more

-- The conversions %u, %hu and %lu of a value that their type holds. A number has no more digits
-- than its successor counts.
unfoldable pub decimal : ℕ → Text
unfolding digits
decimal n = digits (suc n) n []

-- The number that a text of digits stands for, behind a number already read.
pub value_from : ℕ → Text → ℕ
value_from acc [] = acc
value_from acc (c ∷ cs) = value_from (acc * 10 + (c - b'0')) cs

digits-value :
    (fuel n : ℕ) (rest : Text) → n < fuel → value_from 0 (digits fuel n rest) ≡ value_from n rest
unfolding digits value_from
digits-value zero n rest h = absurd (omega arith)
digits-value (suc fuel) n rest h = elim (Bool-cases (n / 10 == 0)) [
  | inl last ↦ rw last (ap (λ k. value_from k rest) (ground arith))
  | inr more ↦ rw more (
      digits-value fuel (n / 10) ((b'0' + n % 10) ∷ rest) (ground arith)
      ∙ ap (λ k. value_from k rest) (omega arith))
]

-- The decimal text of a number reads back as that number.
pub value-decimal : (n : ℕ) → value_from 0 (decimal n) ≡ n
unfolding decimal value_from
value-decimal n = digits-value (suc n) n [] (omega arith)

-- The powers of ten.
unfoldable pub ten_to : ℕ → ℕ
ten_to zero = 1
ten_to (suc k) = 10 * ten_to k

digits-longer : (fuel n : ℕ) (rest : Text) → length rest ≤ length (digits fuel n rest)
unfolding digits
digits-longer zero n rest = omega arith
digits-longer (suc fuel) n rest =
    ground (arith, digits-longer fuel (n / 10) ((b'0' + n % 10) ∷ rest))

digits-shorter :
    (fuel k n : ℕ) (rest : Text)
    → n < ten_to (suc k)
    → length (digits fuel n rest) ≤ suc k + length rest
unfolding digits ten_to
digits-shorter zero k n rest h = omega arith
digits-shorter (suc fuel) zero n rest h = ground arith
digits-shorter (suc fuel) (suc k) n rest h =
    ground (arith, digits-shorter fuel k (n / 10) ((b'0' + n % 10) ∷ rest))

-- A number below a power of ten has at most that many digits, and one at least.
pub length-decimal :
    (k n : ℕ) → n < ten_to (suc k) → (1 ≤ length (decimal n)) × (length (decimal n) ≤ suc k)
unfolding decimal digits ten_to
length-decimal k n h = (
  ground (arith, digits-longer n (n / 10) ((b'0' + n % 10) ∷ [])),
  omega (arith, digits-shorter (suc n) k n [] h),
)

digits-longer_one :
    (fuel n : ℕ) (rest : Text) → 1 ≤ fuel → suc (length rest) ≤ length (digits fuel n rest)
unfolding digits
digits-longer_one zero n rest h = absurd (omega arith)
digits-longer_one (suc fuel) n rest h =
    ground (arith, digits-longer fuel (n / 10) ((b'0' + n % 10) ∷ rest))

-- A number that is no digit has two of them.
pub length-decimal_two : (n : ℕ) → 10 ≤ n → 2 ≤ length (decimal n)
unfolding decimal digits
length-decimal_two n h = ground (arith, digits-longer_one n (n / 10) ((b'0' + n % 10) ∷ []))
