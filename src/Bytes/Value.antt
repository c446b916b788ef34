-- ===== src/Bytes/Value.antt =====
-- The number that bits or bytes stand for, the least significant first.
use Prim.Native.Nat.pow
use zeto.Base.{
  All-append, zero, suc, ℕ, ◌+◌, ◌*◌, ◌/◌, ◌^◌, ◌<◌, ◌≡◌, refl, List, [], ◌∷◌, ◌++◌, length, All,
  arith,
}
use zeto.Bytes.{byte_bits, bits_to_bytes, bytes_to_bits}

abbrev pub value : ℕ → List ℕ → ℕ
value base [] = 0
value base (d ∷ ds) = d + base * value base ds

abbrev pub IsByte : ℕ → Type 0
IsByte b = b < 256

abbrev pub IsBit : ℕ → Type 0
IsBit b = b < 2

-- The little-endian number of the bytes that `bitsToBytes` makes is that of the digits.
pub value-bits_to_bytes : (bits : List ℕ) → value 256 (bits_to_bytes bits) ≡ value 2 bits
unfolding bits_to_bytes
value-bits_to_bytes [] = refl
value-bits_to_bytes (b0 ∷ b1 ∷ b2 ∷ b3 ∷ b4 ∷ b5 ∷ b6 ∷ b7 ∷ rest) =
    omega (arith, value-bits_to_bytes rest)
value-bits_to_bytes bits = omega arith

pub value-bytes_to_bits :
    (bytes : List ℕ) → All IsByte bytes → value 2 (bytes_to_bits bytes) ≡ value 256 bytes
unfolding bytes_to_bits
value-bytes_to_bits [] h = refl
value-bytes_to_bits (byte ∷ bytes) (hb, h) = omega (arith, value-bytes_to_bits bytes h)

pub length-bits_to_bytes : (bits : List ℕ) → length (bits_to_bytes bits) ≡ (length bits + 7) / 8
unfolding bits_to_bytes
length-bits_to_bytes [] = refl
length-bits_to_bytes (b0 ∷ b1 ∷ b2 ∷ b3 ∷ b4 ∷ b5 ∷ b6 ∷ b7 ∷ rest) =
    omega (arith, length-bits_to_bytes rest)
length-bits_to_bytes bits = omega arith

pub bits_to_bytes-IsByte : (bits : List ℕ) → All IsBit bits → All IsByte (bits_to_bytes bits)
unfolding bits_to_bytes
bits_to_bytes-IsByte [] h = tt
bits_to_bytes-IsByte (b0 ∷ b1 ∷ b2 ∷ b3 ∷ b4 ∷ b5 ∷ b6 ∷ b7 ∷ rest)
      (h0, (h1, (h2, (h3, (h4, (h5, (h6, (h7, h)))))))) =
    (omega arith, bits_to_bytes-IsByte rest h)
bits_to_bytes-IsByte bits h = omega arith

pub value-append :
    (base : ℕ) (xs ys : List ℕ)
    → value base (xs ++ ys) ≡ value base xs + base ^ length xs * value base ys
value-append base [] ys = rw pow.zero (omega arith)
value-append base (x ∷ xs) ys = rw (value-append base xs ys, pow.suc base (length xs)) (grind arith)

pub value-lt : (base : ℕ) (xs : List ℕ) → All (λ d. d < base) xs → value base xs < base ^ length xs
value-lt base [] h = omega (arith, pow.zero base)
value-lt base (x ∷ xs) (hx, h) = grind (arith, value-lt base xs h, pow.suc base (length xs))

byte_bits-IsBit : (byte i k : ℕ) → All IsBit (byte_bits byte i k)
unfolding byte_bits
byte_bits-IsBit byte i zero = tt
byte_bits-IsBit byte i (suc k) = (omega arith, byte_bits-IsBit byte (i + 1) k)

pub bytes_to_bits-IsBit : (bytes : List ℕ) → All IsBit (bytes_to_bits bytes)
unfolding bytes_to_bits
bytes_to_bits-IsBit [] = tt
bytes_to_bits-IsBit (byte ∷ bytes) =
    All-append IsBit (byte_bits byte 0 8) (bytes_to_bits bytes) (byte_bits-IsBit byte 0 8)
      (bytes_to_bits-IsBit bytes)
