-- ===== src/Circuits/Signals.antt =====
-- Signals as field elements, which is what a prover gives a circuit and what `checkField` of
-- solidity/contracts/verifiers/impl asks of the public ones.
use zeto.Base.{ℕ, ◌<◌, List, All}
use zeto.Field.{F}
use zeto.Circuits.Tokens.{TransferSignals, NullifierSignals}

abbrev pub AllField : List ℕ → Type 0
AllField xs = All (λ x. x < F) xs

pub record IsWitness (s : TransferSignals) : Type 0 where
  pub input_commitments : AllField s.input_commitments
  pub input_values : AllField s.input_values
  pub input_salts : AllField s.input_salts
  pub input_owner_private_key : s.input_owner_private_key < F
  pub output_commitments : AllField s.output_commitments
  pub output_values : AllField s.output_values
  pub output_salts : AllField s.output_salts
  pub output_owner_public_keys :
      All (λ (k : ℕ × ℕ). (k.0 < F) × (k.1 < F)) s.output_owner_public_keys

pub record IsNullifierWitness (g : NullifierSignals) : Type 0 where
  pub transfer : IsWitness g.transfer
  pub nullifiers : AllField g.nullifiers
  pub smt_node_values : AllField g.smt_node_values
  pub root : g.root < F
  pub merkle_proof : All AllField g.merkle_proof
  pub enabled : AllField g.enabled
