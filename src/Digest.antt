-- ===== src/Digest.antt =====
-- The numbers that zkp/js/lib/util.js reads from hexadecimal digests and random bytes, and the
-- proof that it hands to the Solidity verifier. `randomBytes`, SHA-256, Poseidon and
-- `solidityPackedKeccak256` are packages', and so parameters.
pub mod Ranges
pub mod Encoding
mod Tests
use zeto.Base.{ℕ, ◌+◌, ◌*◌, ◌/◌, ◌%◌, ◌^◌, List, [], ◌∷◌, ◌++◌}

-- `toString('hex')` and `digest('hex')`: two digits to a byte, the higher first.
pub to_hex : List ℕ → List ℕ
to_hex [] = []
to_hex (b ∷ bytes) = b / 16 ∷ b % 16 ∷ to_hex bytes

-- `BigInt('0x' + digits)`
pub read_hex : ℕ → List ℕ → ℕ
read_hex acc [] = acc
read_hex acc (d ∷ ds) = read_hex (acc * 16 + d) ds

-- `newEncryptionNonce`, of what `randomBytes(16)` has returned.
pub new_encryption_nonce : List ℕ → ℕ
new_encryption_nonce random = read_hex 0 (to_hex random)

-- `tokenUriHash`: the lowest 253 bits of the digest, `BigInt.asUintN(253, '0x' + hash)`.
pub token_uri_hash {ℓ} : {Uri : Type ℓ} → (Uri → List ℕ) → Uri → ℕ
token_uri_hash sha256 token_uri = read_hex 0 (to_hex (sha256 token_uri)) % 2 ^ 253

-- `kycHash`
pub kyc_hash {ℓ} : {Key : Type ℓ} → (Key → ℕ) → Key → ℕ
kyc_hash poseidon2 bjj_public_key = poseidon2 bjj_public_key

-- A point of snarkjs's proof, with the projective third coordinate.
pub record Projective (A : Type 0) : Type 0 where
  pub x : A
  pub y : A
  pub z : A

pub record ProofJson (A : Type 0) : Type 0 where
  pub pi_a : Projective A
  pub pi_b : Projective (A × A)
  pub pi_c : Projective A

pub record EncodedProof (A : Type 0) : Type 0 where
  pub p_a : A × A
  pub p_b : (A × A) × (A × A)
  pub p_c : A × A

-- `encodeProof`: the two halves of a coordinate of `pi_b` change places.
pub encode_proof : {A : Type 0} → ProofJson A → EncodedProof A
encode_proof proof = record {
  p_a = (proof.pi_a.x, proof.pi_a.y);
  p_b = ((proof.pi_b.x.1, proof.pi_b.x.0), (proof.pi_b.y.1, proof.pi_b.y.0));
  p_c = (proof.pi_c.x, proof.pi_c.y);
}

-- The `flat` array of `getProofHash`.
pub flat : {A : Type 0} → EncodedProof A → List A
flat proof =
    proof.p_a.0 ∷ proof.p_a.1 ∷ proof.p_b.0.0 ∷ proof.p_b.0.1 ∷ proof.p_b.1.0 ∷ proof.p_b.1.1
    ∷ proof.p_c.0 ∷ proof.p_c.1 ∷ []

-- `getProofHash`, over the integers that `BigInt` reads from the strings.
pub get_proof_hash : {A : Type 0} → (List A → ℕ) → EncodedProof A → ℕ
get_proof_hash packed_keccak256 proof = packed_keccak256 (flat proof)
