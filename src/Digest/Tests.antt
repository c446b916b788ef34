-- ===== src/Digest/Tests.antt =====
-- Nonces, digests and proofs at small inputs.
use zeto.Base.{ℕ, ◌+◌, ◌≡◌, refl, [], ◌∷◌, length}
use zeto.Digest.{kyc_hash, get_proof_hash, to_hex, read_hex, ProofJson, encode_proof, flat}

hex_digits : read_hex 0 (to_hex (0x12 ∷ 0xab ∷ [])) ≡ 0x12ab
unfolding read_hex to_hex
hex_digits = refl

abbrev proof : ℕ → ProofJson ℕ
proof z = record {
  pi_a = record { x = 1; y = 2; z = z };
  pi_b = record { x = (3, 4); y = (5, 6); z = (z, z) };
  pi_c = record { x = 7; y = 8; z = z };
}

flat-proof : flat (encode_proof (proof 1)) ≡ 1 ∷ 2 ∷ 4 ∷ 3 ∷ 6 ∷ 5 ∷ 7 ∷ 8 ∷ []
unfolding flat encode_proof
flat-proof = refl

proof_hash_of_flat : get_proof_hash {A = ℕ} length (encode_proof (proof 1)) ≡ 8
unfolding get_proof_hash flat encode_proof
proof_hash_of_flat = refl

kyc_hash_of_key : kyc_hash (λ (key : ℕ). key + 1) 41 ≡ 42
unfolding kyc_hash
kyc_hash_of_key = refl
