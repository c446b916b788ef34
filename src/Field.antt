-- ===== src/Field.antt =====
-- The scalar field of BN254 as zkp/js/lib/util.js computes in it: `F`, `two128` and `addMod`.
pub mod Laws
mod Tests
use zeto.Base.{ℕ, zero, suc, ◌≡◌, true, false, if◌then◌else◌}
use zeto.Base.Int.{ℤ, pos, negsuc, ◌+ℤ◌, rem, is_negative}

abbrev pub two128 : ℕ
two128 = 340282366920938463463374607431768211456

-- Field modulus for BN254
abbrev pub F : ℕ
F = 21888242871839275222246405745257275088548364400416034343698204186575808495617

-- `while (result < 0n) result += F`, on fuel.
unfoldable pub lift : ℕ → ℤ → ℤ
lift zero r = r
lift (suc fuel) r = elim (is_negative r) [ true ↦ lift fuel (r +ℤ pos F) | false ↦ r ]

-- One step of the `reduce`: `((e + F) % F + acc) % F`.
unfoldable pub add_step : ℤ → ℤ → ℤ
unfolding rem ◌+ℤ◌
add_step e acc = rem (rem (e +ℤ pos F) F +ℤ acc) F

-- The remainders lie above -F, so two rounds of the loop are more than it needs.
unfoldable pub add_mod : ℤ → ℤ → ℤ
unfolding lift add_step
add_mod a b = lift 2 (add_step (add_step (pos 0) a) b)
