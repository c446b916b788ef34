-- ===== src/Circuits.antt =====
-- The templates of zkp/circuits/lib that the circuits of the tokens are made of, as tests of whether
-- the values of the signals satisfy the constraints.
pub mod Tokens
pub mod Signals
pub mod Sums
pub mod Hashes
pub mod Exact
pub mod Conservation
pub mod Inflation
pub mod Minting
pub mod Respending
pub mod Reused
pub mod Tests
use zeto.Base.{
  ℕ, ◌+◌, ◌-◌, ◌*◌, ◌%◌, Bool, true, false, ◌&&◌, Option, none, some, List, [], ◌∷◌, ◌==◌,
}
use zeto.Field.{F}

-- The templates of circomlib, as what they compute: `none` and `false` stand for constraints that no
-- values satisfy. `smt_verifier` is of an inclusion proof, by the signals `enabled`, `root`, `siblings`,
-- `key` and `value`.
pub record Circomlib : Type 0 where
  pub poseidon : List ℕ → ℕ
  pub is_zero : ℕ → ℕ
  pub is_equal : ℕ → ℕ → ℕ
  pub greater_eq_than : ℕ → ℕ → ℕ → Option ℕ
  pub baby_pbk : ℕ → Option (ℕ × ℕ)
  pub smt_verifier : ℕ → ℕ → List ℕ → ℕ → ℕ → Bool

-- The field's operations, on signals.
abbrev pub plus : ℕ → ℕ → ℕ
plus a b = (a + b) % F

abbrev pub minus : ℕ → ℕ → ℕ
minus a b = (a + (F - b % F)) % F

abbrev pub times : ℕ → ℕ → ℕ
times a b = (a * b) % F

-- `signal === 1`, of an output that is there if its constraints can be satisfied.
abbrev pub is_one : Option ℕ → Bool
is_one none = false
is_one (some out) = out == 1

-- The bus `CommitmentInputs`.
pub record CommitmentInputs : Type 0 where
  pub value : ℕ
  pub salt : ℕ
  pub owner_public_key : ℕ × ℕ

-- The loop that fills an array of them.
unfoldable pub commitment_inputs : List ℕ → List ℕ → List (ℕ × ℕ) → List CommitmentInputs
commitment_inputs (value ∷ values) (salt ∷ salts) (key ∷ keys) =
    record { value = value; salt = salt; owner_public_key = key }
    ∷ commitment_inputs values salts keys
commitment_inputs _ _ _ = []

-- `sumInputs = sumInputs + inputValues[i]`
unfoldable pub sum_from : ℕ → List ℕ → ℕ
sum_from acc [] = acc
sum_from acc (value ∷ values) = sum_from (plus acc value) values

module _ (lib : Circomlib) where
  -- `CheckPositive`
  unfoldable pub check_positive : List ℕ → Bool
  check_positive [] = true
  check_positive (value ∷ values) =
      is_one (lib.greater_eq_than 100 value 0) && check_positive values

  -- `CheckSum`
  unfoldable pub check_sum : List ℕ → List ℕ → Bool
  unfolding sum_from
  check_sum input_values output_values =
      lib.is_equal (sum_from 0 input_values) (sum_from 0 output_values) == 1

  -- The preimage of a commitment.
  unfoldable pub commitment_of : CommitmentInputs → ℕ
  commitment_of c =
      lib.poseidon (c.value ∷ c.salt ∷ c.owner_public_key.0 ∷ c.owner_public_key.1 ∷ [])

  -- What CheckHashes and CheckNullifiers ask of a signal and the hash calculated for it.
  unfoldable pub check_hash : ℕ → ℕ → Bool
  check_hash signal calculated_hash =
      lib.is_equal signal (times (minus 1 (lib.is_zero signal)) calculated_hash) == 1

  -- `CheckHashes`
  unfoldable pub check_hashes : List ℕ → List CommitmentInputs → Bool
  unfolding check_hash commitment_of
  check_hashes [] [] = true
  check_hashes (hash ∷ hashes) (c ∷ cs) =
      check_hash hash (commitment_of c) && check_hashes hashes cs
  check_hashes _ _ = false

  unfoldable pub nullifier_of : ℕ → ℕ → ℕ → ℕ
  nullifier_of value salt owner_private_key = lib.poseidon (value ∷ salt ∷ owner_private_key ∷ [])

  -- `CheckNullifiers`
  unfoldable pub check_nullifiers : List ℕ → List ℕ → List ℕ → ℕ → Bool
  unfolding check_hash nullifier_of
  check_nullifiers [] [] [] owner_private_key = true
  check_nullifiers (nullifier ∷ nullifiers) (value ∷ values) (salt ∷ salts) owner_private_key =
      check_hash nullifier (nullifier_of value salt owner_private_key)
      && check_nullifiers nullifiers values salts owner_private_key
  check_nullifiers _ _ _ owner_private_key = false

  -- `CheckSMTProof`
  unfoldable pub check_smt_proof : List ℕ → List ℕ → ℕ → List (List ℕ) → List ℕ → Bool
  check_smt_proof [] [] root [] [] = true
  check_smt_proof (index ∷ indexes) (value ∷ values) root (siblings ∷ proofs) (enabled ∷ flags) =
      lib.smt_verifier enabled root siblings index value
      && check_smt_proof indexes values root proofs flags
  check_smt_proof _ _ root _ _ = false
