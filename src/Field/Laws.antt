-- ===== src/Field/Laws.antt =====
-- What `addMod` computes, for integers of either sign.
use zeto.Base.{ℕ, suc, ◌+◌, ◌-◌, ◌%◌, ◌<◌, ◌≡◌, ap, arith}
use zeto.Base.Int.{ℤ, pos, negsuc, neg}
use zeto.Field.{F, add_mod}

-- The representative of an integer in the field.
abbrev pub residue : ℤ → ℕ
residue (pos n) = n % F
residue (negsuc n) = (F - suc n % F) % F

pub residue-lt : (a : ℤ) → residue a < F
residue-lt (pos n) = omega arith
residue-lt (negsuc n) = omega arith

-- `addMod` of two integers of any sign is the sum of their representatives modulo F.
pub add_mod_lem : (a b : ℤ) → add_mod a b ≡ pos ((residue a + residue b) % F)
unfolding add_mod
add_mod_lem (pos a) (pos b) = ground arith
add_mod_lem (pos a) (negsuc b) = ground arith
add_mod_lem (negsuc a) (pos b) = ground arith
add_mod_lem (negsuc a) (negsuc b) = ground arith

residue-neg : (a : ℤ) → residue (neg a) ≡ (F - residue a) % F
unfolding neg
residue-neg (pos a) = ground arith
residue-neg (negsuc a) = ground arith

-- Subtracting what was added gives the representative back.
pub add_mod-add_mod-neg : (m s : ℤ) → add_mod (add_mod m s) (neg s) ≡ pos (residue m)
add_mod-add_mod-neg m s =
    simp (add_mod_lem, residue-neg) (ap pos (omega (arith, residue-lt m, residue-lt s)))

-- Adding back what was subtracted, too.
pub add_mod-neg-add_mod : (c s : ℤ) → add_mod (add_mod c (neg s)) s ≡ pos (residue c)
add_mod-neg-add_mod c s =
    simp (add_mod_lem, residue-neg) (ap pos (omega (arith, residue-lt c, residue-lt s)))

-- An integer in the range of the field.
abbrev pub IsElement : ℤ → Type 0
IsElement (pos n) = n < F
IsElement (negsuc n) = ⊥

-- Whatever the signs and sizes, the result is in the range of the field.
pub add_mod-IsElement : (a b : ℤ) → IsElement (add_mod a b)
add_mod-IsElement a b = rw (add_mod_lem a b) (omega arith)
