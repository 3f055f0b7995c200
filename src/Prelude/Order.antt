-- ===== src/Prelude/Order.antt =====
-- Permutations and native lengths.
use mathlib.Core.Path.{◌≡◌}
use mathlib.Core.Logic.{∥∥₁_elim}
use mathlib.Core.List.{List, Perm, Permᴰ}
use native.Mathlib.Nat.{ℕ_set}
use native.Mathlib.Omega.{arith}
use core_mqtt_agent_demos.Prelude.Lists.{length}

module _ {ℓ} {A : Type ℓ} where
  length-permᴰ : {xs ys : List A} → Permᴰ xs ys → length xs ≡ length ys
  length-permᴰ Permᴰ.nil = omega arith
  length-permᴰ (Permᴰ.cons e p) = omega (arith, length-permᴰ p)
  length-permᴰ (Permᴰ.swap e f) = omega arith
  length-permᴰ (Permᴰ.trans p q) = omega (arith, length-permᴰ p, length-permᴰ q)

  pub length-perm : {xs ys : List A} → Perm xs ys → length xs ≡ length ys
  length-perm p = ∥∥₁_elim p (ℕ_set _ _) length-permᴰ
