-- ===== src/Bytes/Tests.antt =====
-- Bits and bytes at small inputs.
use zeto.Base.{ℕ, ◌-◌, ◌%◌, ◌≡◌, refl, [], ◌∷◌, ◌++◌, length, replicate, arith}
use zeto.Bytes.{bits_to_bytes, bytes_to_bits}
use zeto.Bytes.RoundTrip.{bits_to_bytes-bytes_to_bits, bytes_to_bits-bits_to_bytes}

ten_bits : bits_to_bytes (1 ∷ 0 ∷ 1 ∷ 0 ∷ 0 ∷ 0 ∷ 0 ∷ 1 ∷ 1 ∷ 1 ∷ []) ≡ 133 ∷ 3 ∷ []
unfolding bits_to_bytes
ten_bits = refl

one_byte : bytes_to_bits (133 ∷ []) ≡ 1 ∷ 0 ∷ 1 ∷ 0 ∷ 0 ∷ 0 ∷ 0 ∷ 1 ∷ []
unfolding bytes_to_bits
one_byte = refl

bits_to_bytes-bytes_to_bits_example :
    bits_to_bytes (bytes_to_bits (133 ∷ 255 ∷ [])) ≡ 133 ∷ 255 ∷ []
bits_to_bytes-bytes_to_bits_example = bits_to_bytes-bytes_to_bits (133 ∷ 255 ∷ []) (omega arith)

bytes_to_bits-bits_to_bytes_example :
    bytes_to_bits (bits_to_bytes (1 ∷ 0 ∷ 1 ∷ []))
    ≡ (1 ∷ 0 ∷ 1 ∷ []) ++ replicate ((8 - length {A = ℕ} (1 ∷ 0 ∷ 1 ∷ []) % 8) % 8) 0
bytes_to_bits-bits_to_bytes_example = bytes_to_bits-bits_to_bytes (1 ∷ 0 ∷ 1 ∷ []) (omega arith)
