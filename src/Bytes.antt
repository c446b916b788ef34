-- ===== src/Bytes.antt =====
-- `bitsToBytes` and `bytesToBits` of zkp/js/lib/util.js: bits in little-endian order.
pub mod Value
pub mod RoundTrip
mod Tests
use zeto.Base.{ℕ, zero, suc, ◌+◌, ◌*◌, ◌/◌, ◌%◌, ◌^◌, List, [], ◌∷◌, ◌++◌}

-- The inner loop of `bitsToBytes`: `byte += bitArray[i + j] * (1 << j)`.
pub sum_bits : ℕ → ℕ → List ℕ → ℕ
sum_bits j byte [] = byte
sum_bits j byte (b ∷ bs) = sum_bits (j + 1) (byte + b * 2 ^ j) bs

-- `bitsToBytes`: eight bits to a byte, and what is left over to a last one.
unfoldable pub bits_to_bytes : List ℕ → List ℕ
unfolding sum_bits
bits_to_bytes [] = []
bits_to_bytes (b0 ∷ b1 ∷ b2 ∷ b3 ∷ b4 ∷ b5 ∷ b6 ∷ b7 ∷ rest) =
    sum_bits 0 0 (b0 ∷ b1 ∷ b2 ∷ b3 ∷ b4 ∷ b5 ∷ b6 ∷ b7 ∷ []) ∷ bits_to_bytes rest
bits_to_bytes bits = sum_bits 0 0 bits ∷ []

-- The inner loop of `bytesToBits`, from the bit i on, k rounds: `(byte >> i) & 1`.
pub byte_bits : ℕ → ℕ → ℕ → List ℕ
byte_bits byte i zero = []
byte_bits byte i (suc k) = (byte / 2 ^ i) % 2 ∷ byte_bits byte (i + 1) k

unfoldable pub bytes_to_bits : List ℕ → List ℕ
unfolding byte_bits
bytes_to_bits [] = []
bytes_to_bits (byte ∷ bytes) = byte_bits byte 0 8 ++ bytes_to_bits bytes
