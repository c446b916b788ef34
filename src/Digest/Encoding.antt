-- ===== src/Digest/Encoding.antt =====
-- What `getProofHash` sees of a proof.
use zeto.Base.{◌≡◌, ◌↔◌, arith}
use zeto.Digest.{Projective, ProofJson, encode_proof, flat}

-- The affine coordinates of two points agree.
abbrev pub SamePoint : {A : Type 0} → Projective A → Projective A → Type 0
SamePoint p q = (p.x ≡ q.x) × (p.y ≡ q.y)

abbrev pub SameProof : {A : Type 0} → ProofJson A → ProofJson A → Type 0
SameProof p q = SamePoint p.pi_a q.pi_a × SamePoint p.pi_b q.pi_b × SamePoint p.pi_c q.pi_c

-- The array that is hashed determines the affine coordinates of the proof's points, and leaves out
-- the third ones.
pub flat-encode_proof :
    {A : Type 0} (p q : ProofJson A)
    → (flat (encode_proof p) ≡ flat (encode_proof q)) ↔ SameProof p q
unfolding flat encode_proof
flat-encode_proof p q = (λ e. ground arith, λ h. ground arith)
