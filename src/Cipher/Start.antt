-- ===== src/Cipher/Start.antt =====
-- The state that the cipher starts in.
use zeto.Base.{ℕ, ◌+◌, ◌*◌, ◌^◌, ◌<◌, ◌≡◌, ap, ap₂, arith}
use zeto.Base.Int.{ℤ, pos, ◌+ℤ◌}
use zeto.Field.{two128}
use zeto.Cipher.{State, initial}

-- The number in a pos, and 0 in place of a negative one.
abbrev magnitude : ℤ → ℕ
magnitude (pos n) = n
magnitude _ = 0

capacity : (k : ℤ × ℤ) (n l : ℕ) → magnitude (initial k (pos n) l).s3 ≡ n + l * two128
unfolding initial ◌+ℤ◌
capacity k n l = ground arith

-- Different keys, nonces below 2^128 or lengths of the message give different states: the nonce and
-- the length do not run into one another.
pub initial-injective :
    (k k' : ℤ × ℤ) (n n' l l' : ℕ)
    → n < 2 ^ 128
    → n' < 2 ^ 128
    → initial k (pos n) l ≡ initial k' (pos n') l'
    → (k ≡ k') × (n ≡ n') × (l ≡ l')
unfolding initial
initial-injective k k' n n' l l' h h' e =
    let k0 : k.0 ≡ k'.0 = ap (λ (s : State). s.s1) e in
    let k1 : k.1 ≡ k'.1 = ap (λ (s : State). s.s2) e in
    let sums = ap (λ (s : State). magnitude s.s3) e in
    let c = capacity k n l in
    let c' = capacity k' n' l' in
    (ap₂ {C = ℤ × ℤ} (λ (x y : ℤ). (x, y)) k0 k1, omega arith, omega arith)
