-- ===== src/Kem.antt =====
-- `recoverMlKemCiphertextBytes` of zkp/js/lib/util.js: 768 bytes from 25 field elements.
-- An index past the end of the array throws (`undefined.toString`), which is `none`.
pub mod Binary
pub mod Recovery
mod Tests
use zeto.Base.{
  ℕ, zero, suc, ◌-◌, ◌/◌, ◌%◌, Option, none, some, List, [], ◌∷◌, ◌++◌, map, reverse, length,
  replicate, ◌==◌, if◌then◌else◌,
}
use zeto.Bytes.{bits_to_bytes}

-- The digits of `n.toString(2)` in front of those found so far. A number halves on each round, so
-- that a fuel of the number itself is enough.
digits : ℕ → ℕ → List ℕ → List ℕ
digits zero n acc = acc
digits (suc fuel) n acc =
    let rest = digits fuel (n / 2) (n % 2 ∷ acc) in if n == 0 then acc else rest

-- `n.toString(2).split('').map(Number)`
to_string_2 : ℕ → List ℕ
unfolding digits
to_string_2 n = if n == 0 then 0 ∷ [] else digits n n []

-- `padStart(width, '0')`
pad_start : ℕ → List ℕ → List ℕ
pad_start width ds = replicate (width - length ds) 0 ++ ds

-- One element: its bits, the least significant first, packed into bytes.
pub element_bytes : ℕ → ℕ → List ℕ
element_bytes width n = bits_to_bytes (reverse (pad_start width (to_string_2 n)))

-- The loop over the elements, k of them, and then the last one, of 192 bits.
pub recover_from : ℕ → List ℕ → Option (List ℕ)
recover_from k [] = none
recover_from zero (n ∷ ns) = some (element_bytes 192 n)
recover_from (suc k) (n ∷ ns) = elim (recover_from k ns) [
  | none ↦ none
  | some bytes ↦ some (element_bytes 248 n ++ bytes)
]

-- `Buffer.from(cBytes)` keeps the low eight bits of each number.
pub recover_ml_kem_ciphertext_bytes : List ℕ → Option (List ℕ)
recover_ml_kem_ciphertext_bytes ns = elim (recover_from 24 ns) [
  | none ↦ none
  | some bytes ↦ some (map (λ b. b % 256) bytes)
]
