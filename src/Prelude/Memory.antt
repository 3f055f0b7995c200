-- ===== src/Prelude/Memory.antt =====
-- The C memory that string pointers lead into, and the two uses of `strncmp` and `memset` on it.
-- An address is a number, 0 is `NULL`, and a memory gives the byte at each address.
use Prim.Native.Nat.{ℕ, zero, suc, ◌+◌}
use mathlib.Core.Path.{◌≡◌, refl}
use mathlib.Core.Bool.{Bool, true, false}
use native.Mathlib.Omega.{arith}
use core_mqtt_agent_demos.Prelude.Tests.{◌==◌, if◌then◌else◌}

abbrev pub Memory : Type 0
Memory = ℕ → ℕ

abbrev pub null : ℕ
null = 0

-- `strncmp( a, b, n ) == 0`: the comparison stops at the first difference, after a common
-- terminator, or after n characters.
unfoldable pub strncmp_eq : Memory → ℕ → ℕ → ℕ → Bool
strncmp_eq mem a b zero = true
strncmp_eq mem a b (suc n) =
    let rest = strncmp_eq mem (a + 1) (b + 1) n in
    if mem a == mem b then (if mem a == 0 then true else rest) else false

pub strncmp_eq_refl : (mem : Memory) (a n : ℕ) → strncmp_eq mem a a n ≡ true
unfolding strncmp_eq
strncmp_eq_refl mem a zero = refl
strncmp_eq_refl mem a (suc n) = ground (arith, strncmp_eq_refl mem (a + 1) n)

pub strncmp_eq_symm :
    (mem : Memory) (a b n : ℕ) → strncmp_eq mem a b n ≡ true → strncmp_eq mem b a n ≡ true
unfolding strncmp_eq
strncmp_eq_symm mem a b zero h = refl
strncmp_eq_symm mem a b (suc n) h = ground (arith, strncmp_eq_symm mem (a + 1) (b + 1) n)

pub strncmp_eq_trans :
    (mem : Memory) (a b c n : ℕ)
    → strncmp_eq mem a b n ≡ true
    → strncmp_eq mem b c n ≡ true
    → strncmp_eq mem a c n ≡ true
unfolding strncmp_eq
strncmp_eq_trans mem a b c zero h k = refl
strncmp_eq_trans mem a b c (suc n) h k =
    ground (arith, strncmp_eq_trans mem (a + 1) (b + 1) (c + 1) n)

-- The order of the two operands does not matter.
pub strncmp_eq_comm : (mem : Memory) (a b n : ℕ) → strncmp_eq mem a b n ≡ strncmp_eq mem b a n
strncmp_eq_comm mem a b n = ground (arith, strncmp_eq_symm mem a b n, strncmp_eq_symm mem b a n)
