-- ===== src/Circuits/Tokens.antt =====
-- The circuits of transfers, deposits, withdrawals and burning: zkp/circuits/basetokens/anon_base.circom,
-- anon_nullifier_base.circom, and zkp/circuits/lib/deposit.circom,
-- check-inputs-outputs-value-base.circom, check-nullifiers-value-base.circom and burn.circom; and
-- zkp/circuits/check_nullifiers.circom.
use zeto.Base.{
  ℕ, Bool, true, false, ◌&&◌, Option, none, some, List, [], ◌∷◌, length, replicate, ◌==◌,
  if◌then◌else◌,
}
use zeto.Circuits.{
  Circomlib, minus, is_one, commitment_inputs, sum_from, check_positive, check_sum, check_hashes,
  check_nullifiers, check_smt_proof,
}

-- The signals of `Zeto` of anon_base.circom and of `CheckInputsOutputsValue`. The commitments are
-- public.
pub record TransferSignals : Type 0 where
  pub input_commitments : List ℕ
  pub input_values : List ℕ
  pub input_salts : List ℕ
  pub input_owner_private_key : ℕ
  pub output_commitments : List ℕ
  pub output_values : List ℕ
  pub output_salts : List ℕ
  pub output_owner_public_keys : List (ℕ × ℕ)

-- What `Zeto` of anon_nullifier_base.circom has beside them. The nullifiers, the root, the flags and
-- the output commitments are public.
pub record NullifierSignals : Type 0 where
  pub transfer : TransferSignals
  pub nullifiers : List ℕ
  pub smt_node_values : List ℕ
  pub root : ℕ
  pub merkle_proof : List (List ℕ)
  pub enabled : List ℕ

pub record DepositSignals : Type 0 where
  pub output_commitments : List ℕ
  pub output_values : List ℕ
  pub output_salts : List ℕ
  pub output_owner_public_keys : List (ℕ × ℕ)

-- The signals of `Zeto` of zkp/circuits/check_nullifiers.circom. The nullifiers and the commitments
-- are public.
pub record BindingSignals : Type 0 where
  pub nullifiers : List ℕ
  pub input_commitments : List ℕ
  pub input_values : List ℕ
  pub input_salts : List ℕ
  pub input_owner_private_key : ℕ

-- The arrays have the sizes of the template's parameters.
unfoldable pub has_size : {A : Type 0} → ℕ → List A → Bool
has_size n xs = length xs == n

module _ (lib : Circomlib) where
  -- What the circuits have in common: the sizes, the outputs' range, and the hashes of the inputs, which
  -- belong to the owner of the private key, and of the outputs.
  unfoldable pub check_commitments : ℕ → ℕ → TransferSignals → Bool
  unfolding has_size check_positive check_hashes commitment_inputs
  check_commitments n_inputs n_outputs s =
      has_size n_inputs s.input_commitments
      && has_size n_inputs s.input_values
      && has_size n_inputs s.input_salts
      && has_size n_outputs s.output_commitments
      && has_size n_outputs s.output_values
      && has_size n_outputs s.output_salts
      && has_size n_outputs s.output_owner_public_keys
      && elim (lib.baby_pbk s.input_owner_private_key) [
        | none ↦ false
        | some key ↦
            check_positive lib s.output_values
            && check_hashes lib s.input_commitments
                (commitment_inputs s.input_values s.input_salts (replicate n_inputs key))
            && check_hashes lib s.output_commitments
                (commitment_inputs s.output_values s.output_salts s.output_owner_public_keys)
      ]

  -- `Zeto` of anon_base.circom
  unfoldable pub zeto_anon_template : ℕ → ℕ → TransferSignals → Bool
  unfolding check_commitments check_sum
  zeto_anon_template n_inputs n_outputs s =
      check_commitments n_inputs n_outputs s && check_sum lib s.input_values s.output_values

  -- `Zeto` of anon_nullifier_base.circom
  unfoldable pub zeto_anon_nullifier_template : ℕ → ℕ → NullifierSignals → Bool
  unfolding zeto_anon_template check_nullifiers check_smt_proof
  zeto_anon_nullifier_template n_inputs n_outputs s =
      zeto_anon_template n_inputs n_outputs s.transfer
      && check_nullifiers lib s.nullifiers s.transfer.input_values s.transfer.input_salts
          s.transfer.input_owner_private_key
      && check_smt_proof lib s.transfer.input_commitments s.smt_node_values s.root s.merkle_proof
          s.enabled

  -- `Deposit`, with its output.
  unfoldable pub deposit_template : ℕ → DepositSignals → Option ℕ
  unfolding has_size check_positive check_hashes commitment_inputs sum_from
  deposit_template n_outputs s =
      elim (has_size n_outputs s.output_commitments
        && has_size n_outputs s.output_values
        && has_size n_outputs s.output_salts
        && has_size n_outputs s.output_owner_public_keys
        && check_positive lib s.output_values
        && check_hashes lib s.output_commitments
            (commitment_inputs s.output_values s.output_salts s.output_owner_public_keys)) [
              | false ↦ none
              | true ↦ some (sum_from 0 s.output_values)
            ]

  -- The values of the inputs are worth those of the outputs at least.
  unfoldable pub check_enough : List ℕ → List ℕ → Bool
  unfolding sum_from
  check_enough input_values output_values =
      is_one (lib.greater_eq_than 100 (sum_from 0 input_values) (sum_from 0 output_values))

  -- `CheckInputsOutputsValue`, of withdrawals, with its output.
  unfoldable pub withdraw_template : ℕ → ℕ → TransferSignals → Option ℕ
  unfolding check_commitments check_enough sum_from
  withdraw_template n_inputs n_outputs s =
      elim (check_commitments n_inputs n_outputs s && check_enough s.input_values s.output_values) [
        | false ↦ none
        | true ↦ some (minus (sum_from 0 s.input_values) (sum_from 0 s.output_values))
      ]

  -- `Burn`, of one output, which belongs to the owner of the inputs.
  unfoldable pub burn_template : ℕ → TransferSignals → Bool
  unfolding check_commitments check_enough
  burn_template n_inputs s = elim (lib.baby_pbk s.input_owner_private_key) [
    | none ↦ false
    | some key ↦
        check_commitments n_inputs 1 (record s { output_owner_public_keys = key ∷ [] })
        && check_enough s.input_values s.output_values
  ]

  -- `CheckNullifiersInputsOutputsValue`, of withdrawals with nullifiers, with its output. The values of
  -- the tree's leaves are the input commitments.
  unfoldable pub withdraw_nullifier_template : ℕ → ℕ → NullifierSignals → Option ℕ
  unfolding withdraw_template check_nullifiers check_smt_proof
  withdraw_nullifier_template n_inputs n_outputs s =
      if check_nullifiers lib s.nullifiers s.transfer.input_values s.transfer.input_salts
          s.transfer.input_owner_private_key
        && check_smt_proof lib s.transfer.input_commitments s.transfer.input_commitments s.root
            s.merkle_proof s.enabled
      then withdraw_template n_inputs n_outputs s.transfer
      else none

  -- `Zeto` of check_nullifiers.circom
  unfoldable pub zeto_check_nullifiers_template : ℕ → BindingSignals → Bool
  unfolding has_size check_hashes commitment_inputs check_nullifiers
  zeto_check_nullifiers_template n_inputs s =
      has_size n_inputs s.input_commitments
      && has_size n_inputs s.input_values
      && has_size n_inputs s.input_salts
      && elim (lib.baby_pbk s.input_owner_private_key) [
        | none ↦ false
        | some key ↦
            check_hashes lib s.input_commitments
              (commitment_inputs s.input_values s.input_salts (replicate n_inputs key))
            && check_nullifiers lib s.nullifiers s.input_values s.input_salts
                s.input_owner_private_key
      ]
