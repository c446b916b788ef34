-- ===== src/Digest/Ranges.antt =====
-- Nonces and digests are in the ranges that the circuits and the cipher rely on.
use Prim.Native.Nat.pow
use zeto.Base.{ℕ, ◌+◌, ◌*◌, ◌/◌, ◌^◌, ◌<◌, ◌≡◌, refl, ap, List, [], ◌∷◌, length, All, arith}
use zeto.Bytes.Value.{IsByte}
use zeto.Field.{F}
use zeto.Digest.{to_hex, read_hex, new_encryption_nonce, token_uri_hash}

-- The number that bytes stand for, the most significant first.
abbrev pub big_endian : ℕ → List ℕ → ℕ
big_endian acc [] = acc
big_endian acc (b ∷ bytes) = big_endian (acc * 256 + b) bytes

read_hex-to_hex : (acc : ℕ) (bytes : List ℕ) → read_hex acc (to_hex bytes) ≡ big_endian acc bytes
unfolding read_hex to_hex
read_hex-to_hex acc [] = refl
read_hex-to_hex acc (b ∷ bytes) =
    rw (← read_hex-to_hex (acc * 256 + b) bytes)
      (ap (λ (x : ℕ). read_hex x (to_hex bytes)) (omega arith))

big_endian-lt :
    (acc m : ℕ) (bytes : List ℕ)
    → All IsByte bytes
    → acc < m
    → big_endian acc bytes < m * 256 ^ length bytes
big_endian-lt acc m [] h lt = rw pow.zero (omega arith)
big_endian-lt acc m (b ∷ bytes) (hb, h) lt =
    let ih = big_endian-lt (acc * 256 + b) (m * 256) bytes h (omega arith) in
    rw pow.suc (grind arith)

-- A nonce of 16 random bytes is their big-endian number, below 2^128.
pub new_encryption_nonce_range :
    (random : List ℕ)
    → length random ≡ 16
    → All IsByte random
    → (new_encryption_nonce random ≡ big_endian 0 random) × (new_encryption_nonce random < 2 ^ 128)
unfolding new_encryption_nonce
new_encryption_nonce_range random n h =
    let bound : big_endian 0 random < 1 * 256 ^ 16 =
      rw n at (big_endian-lt 0 1 random h (omega arith)) in
    (read_hex-to_hex 0 random, omega (arith, read_hex-to_hex 0 random))

-- The hash of a token's URI is the number of its 32-byte digest without the three highest bits, and
-- is a field element.
pub token_uri_hash_range {ℓ} :
    {Uri : Type ℓ} (sha256 : Uri → List ℕ) (token_uri : Uri)
    → length (sha256 token_uri) ≡ 32
    → All IsByte (sha256 token_uri)
    → (token_uri_hash sha256 token_uri < F)
      × ((top : ℕ) × (top < 8)
          × (big_endian 0 (sha256 token_uri) ≡ top * 2 ^ 253 + token_uri_hash sha256 token_uri))
unfolding token_uri_hash
token_uri_hash_range sha256 token_uri n h =
    let digest = sha256 token_uri in
    let bound : big_endian 0 digest < 1 * 256 ^ 32 =
      rw n at (big_endian-lt 0 1 digest h (omega arith)) in
    let read = read_hex-to_hex 0 digest in
    (omega arith, (big_endian 0 digest / 2 ^ 253, omega arith, omega arith))
