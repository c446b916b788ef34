-- ===== src/Circuits/Minting.antt =====
-- A fungible token without nullifiers behind the circuit of transfers: `transfer` of ZetoFungible of
-- solidity/contracts/lib/zeto_fungible.sol, called with no inputs.
use zeto.Base.{
  ℕ, ◌<◌, ◌≤◌, ◌≡◌, ◌≢◌, refl, Bool, true, false, inl, inr, Option, some, List, [], ◌∷◌, length,
  ◌==◌, if◌then◌else◌, ok, arith,
}
use zeto.Storage.{
  BaseStorage, unknown, unspent, spent, output_error, check_sorted, validate_inputs,
  validate_outputs, process_inputs, process_outputs, set_all, only_zeto, repeats,
}
use zeto.Token.Fungible.{
  Circuit, transfer_circuit, transfer, base_storage, with_storage, require_proof,
  check_and_pad_commitments, pad_uint_array, validate_transaction_proposal,
  process_inputs_and_outputs,
}
use zeto.Circuits.{Circomlib, CommitmentInputs, commitment_inputs, plus, commitment_of, sum_from}
use zeto.Circuits.Tokens.{
  TransferSignals, DepositSignals, has_size, zeto_anon_template, deposit_template,
}
use zeto.Field.{F}
use zeto.Circuits.Signals.{IsWitness}
use zeto.Circuits.Sums.{CircomlibLaws, max_value, check_positive_iff}
use zeto.Circuits.Hashes.{check_hashes_iff, commitment_of-lt}
use zeto.Circuits.Inflation.{conjured, free_transfer}

-- The outputs of a batch of two: one commitment, and one of zero.
abbrev pub single : ℕ → CommitmentInputs → DepositSignals
single commitment c = record {
  output_commitments = commitment ∷ 0 ∷ [];
  output_values = c.value ∷ 0 ∷ [];
  output_salts = c.salt ∷ 0 ∷ [];
  output_owner_public_keys = c.owner_public_key ∷ (0, 0) ∷ [];
}

abbrev single_amount : CommitmentInputs → ℕ
single_amount c = plus (plus 0 c.value) 0

module _ (lib : Circomlib) (laws : CircomlibLaws lib) where
  single_deposited :
      (c : CommitmentInputs)
      → c.value < max_value
      → deposit_template lib 2 (single (commitment_of lib c) c) ≡ some (single_amount c)
  unfolding deposit_template has_size sum_from commitment_inputs
  single_deposited c small =
      let hashed =
        (check_hashes_iff lib laws (commitment_of lib c ∷ 0 ∷ [])
            (c ∷ record { value = 0; salt = 0; owner_public_key = (0, 0) } ∷ [])
            (commitment_of-lt lib laws c, (omega arith, tt))).1
          (inr refl, (inl refl, tt)) in
      let positive =
        (check_positive_iff lib laws (c.value ∷ 0 ∷ []) (omega (arith, small), (omega arith, tt))).1
          (small, (omega arith, tt)) in
      ground (arith, positive, hashed)

conjured-IsWitness :
    (lib : Circomlib) (laws : CircomlibLaws lib) (private_key : ℕ) (c : CommitmentInputs)
    → private_key < F
    → c.value < max_value
    → c.salt < F
    → (c.owner_public_key.0 < F) × (c.owner_public_key.1 < F)
    → IsWitness (conjured 1 private_key (single_amount c) (single (commitment_of lib c) c))
conjured-IsWitness lib laws private_key c pk small salt keys = record {
  input_commitments = (omega arith, (omega arith, tt));
  input_values = (omega arith, (omega arith, tt));
  input_salts = (omega arith, (omega arith, tt));
  input_owner_private_key = pk;
  output_commitments = (commitment_of-lt lib laws c, (omega arith, tt));
  output_values = (omega (arith, small), (omega arith, tt));
  output_salts = (salt, (omega arith, tt));
  output_owner_public_keys = (keys, ((omega arith, omega arith), tt));
}

module _ (sort : List ℕ → List ℕ) (sort_short : (xs : List ℕ) → length xs ≤ 1 → sort xs ≡ xs) where
  no_inputs : (s : BaseStorage) → validate_inputs sort [] false s ≡ ok tt
  unfolding validate_inputs check_sorted
  no_inputs s = rw (sort_short [] (omega arith)) refl

  one_output :
      (s : BaseStorage) (x : ℕ) → spent s x ≡ unknown → validate_outputs sort (x ∷ []) s ≡ ok tt
  unfolding validate_outputs check_sorted output_error repeats spent
  one_output s x new = rw (sort_short (x ∷ []) (omega arith)) (ground arith)

  module _ {Proof Erc20 : Type 0} (token : ℕ)
      (verify : BaseStorage → Circuit → ℕ → List ℕ → List ℕ → Proof → Bool)
      (safe_transfer_from safe_transfer : ℕ → ℕ → Erc20 → Option Erc20) where
    transfer_one :
        (s : BaseStorage) (x : ℕ) (proof : Proof)
        → token ≡ s.zeto
        → x ≢ 0
        → spent s x ≡ unknown
        → verify s (transfer_circuit false false) 0 (0 ∷ 0 ∷ []) (x ∷ 0 ∷ []) proof ≡ true
        → (t : BaseStorage) × (transfer
              (base_storage sort token)
              verify
              safe_transfer_from
              safe_transfer
              []
              (x ∷ [])
              proof
              s
            ≡ ok t)
          × (t.utxos x ≡ unspent)
    unfolding transfer with_storage require_proof check_and_pad_commitments pad_uint_array
        validate_transaction_proposal process_inputs_and_outputs process_inputs process_outputs
        set_all only_zeto
    transfer_one s x proof mine nz new accepted =
        let other : (x == 0) ≡ false = ground (arith, nz) in
        let mine' : (token == s.zeto) ≡ true = ground (arith, mine) in
        (
          record s { utxos = λ k. if k == x then unspent else s.utxos k },
          rw (no_inputs s, one_output s x new, accepted, mine') (rw (mine', other) refl),
          ground arith,
        )

    -- Suppose that the verifier accepts a proof of whatever field elements satisfy the circuit of
    -- transfers of two inputs and two outputs, and that someone's private key is known. Then, for each
    -- commitment that is not zero and that the token does not know, of a value of the range, a salt and a
    -- key that are field elements, there is a proof with which the token, called without inputs, makes
    -- the commitment an unspent UTXO. The sort leaves lists of one element and fewer as they are.
    pub free_mint :
        (lib : Circomlib) (laws : CircomlibLaws lib)
        (complete : (s : BaseStorage) (t : TransferSignals)
          → IsWitness t
          → zeto_anon_template lib 2 2 t ≡ true
          → (proof : Proof) × (verify s
                (transfer_circuit false false)
                0
                t.input_commitments
                t.output_commitments
                proof
              ≡ true))
        (private_key : ℕ) (key : ℕ × ℕ) (c : CommitmentInputs) (s : BaseStorage)
        → lib.baby_pbk private_key ≡ some key
        → token ≡ s.zeto
        → private_key < F
        → c.value < max_value
        → c.salt < F
        → (c.owner_public_key.0 < F) × (c.owner_public_key.1 < F)
        → commitment_of lib c ≢ 0
        → spent s (commitment_of lib c) ≡ unknown
        → (proof : Proof) × (t : BaseStorage) × (transfer
              (base_storage sort token)
              verify
              safe_transfer_from
              safe_transfer
              []
              (commitment_of lib c ∷ [])
              proof
              s
            ≡ ok t)
          × (t.utxos (commitment_of lib c) ≡ unspent)
    free_mint lib laws complete private_key key c s owned mine pk small salt keys nz new =
        let o = single (commitment_of lib c) c in
        let satisfied =
          free_transfer lib laws 1 2 private_key key o (single_amount c) owned
            (single_deposited lib laws c small) in
        let (proof, accepted) =
          complete s (conjured 1 private_key (single_amount c) o)
            (conjured-IsWitness lib laws private_key c pk small salt keys) satisfied in
        let (t, done, minted) = transfer_one s (commitment_of lib c) proof mine nz new accepted in
        (proof, t, done, minted)
