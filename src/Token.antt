-- ===== src/Token.antt =====
-- A non-fungible token over BaseStorage: ZetoCommon of solidity/contracts/lib/zeto_common.sol and
-- ZetoNonFungible of solidity/contracts/lib/zeto_non_fungible.sol.
pub mod Spending
pub mod Moves
pub mod Lifecycle
pub mod Fungible
mod Tests
use zeto.Base.{
  ℕ, ◌+◌, Bool, true, false, ◌||◌, not, List, [], ◌∷◌, ◌++◌, length, ◌==◌, if◌then◌else◌, Result,
  ok, err, ◌>>◌, ◌>>=◌,
}
use zeto.Storage.{
  BaseStorage, StorageError, invalid_proof, invalid_non_fungible_arity, validate_inputs,
  validate_outputs, process_inputs, process_outputs, process_locked_outputs,
}

-- `verifyProof`, of the verifier's verdict.
unfoldable pub verify_proof : Bool → Result StorageError (Unit {0})
verify_proof true = ok tt
verify_proof false = err invalid_proof

-- `Arrays.sort` of OpenZeppelin, and the token's own address.
module _ (sort : List ℕ → List ℕ) (token : ℕ) where
  -- `validateTransactionProposal`
  unfoldable pub validate_transaction_proposal :
      List ℕ → List ℕ → List ℕ → Bool → BaseStorage → Result StorageError (Unit {0})
  validate_transaction_proposal inputs outputs locked_outputs inputs_locked s =
      validate_inputs sort inputs inputs_locked s
      >> validate_outputs sort (outputs ++ locked_outputs) s

  unfoldable pub process_inputs_and_outputs :
      List ℕ → List ℕ → Bool → BaseStorage → Result StorageError BaseStorage
  process_inputs_and_outputs inputs outputs inputs_locked s = do
    t ← process_inputs token inputs inputs_locked s
    process_outputs token outputs t

  -- `_mint`
  unfoldable pub mint : List ℕ → BaseStorage → Result StorageError BaseStorage
  mint utxos s = validate_outputs sort utxos s >> process_outputs token utxos s

  -- What the operations below have in common: the proposal, the proof, the two ledgers.
  unfoldable pub transact :
      List ℕ → List ℕ → List ℕ → Bool → Bool → BaseStorage → Result StorageError BaseStorage
  unfolding validate_transaction_proposal process_inputs_and_outputs verify_proof
  transact inputs outputs locked_outputs inputs_locked accepted s = do
    validate_transaction_proposal inputs outputs locked_outputs inputs_locked s
    verify_proof accepted
    t ← process_inputs_and_outputs inputs outputs inputs_locked s
    process_locked_outputs token locked_outputs t

  -- `transfer`, which has no locked outputs.
  unfoldable pub transfer : ℕ → ℕ → Bool → BaseStorage → Result StorageError BaseStorage
  unfolding validate_transaction_proposal process_inputs_and_outputs verify_proof
  transfer input output accepted s = do
    validate_transaction_proposal (input ∷ []) (output ∷ []) [] false s
    verify_proof accepted
    process_inputs_and_outputs (input ∷ []) (output ∷ []) false s

  -- `_doLockTransition`
  unfoldable pub do_lock_transition :
      List ℕ → List ℕ → List ℕ → Bool → BaseStorage → Result StorageError BaseStorage
  do_lock_transition inputs outputs locked_outputs accepted s =
      let moved = transact inputs outputs locked_outputs false accepted s in
      if not (length inputs == 1) || not (length outputs == 0) || not (length locked_outputs == 1)
      then err (invalid_non_fungible_arity (length inputs) (length outputs) (length locked_outputs))
      else moved

  -- `_transferLocked`
  unfoldable pub transfer_locked :
      List ℕ → List ℕ → List ℕ → Bool → BaseStorage → Result StorageError BaseStorage
  transfer_locked locked_inputs locked_outputs outputs accepted s =
      let moved = transact locked_inputs outputs locked_outputs true accepted s in
      if not (length locked_inputs == 1) || not (length locked_outputs + length outputs == 1)
      then err (
          invalid_non_fungible_arity (length locked_inputs) (length outputs)
            (length locked_outputs))
      else moved

-- A call of the token that changes the storage, with the verifier's verdict on its proof.
pub data Call : Type 0 where
  call_mint : List ℕ → Call
  call_transfer : ℕ → ℕ → Bool → Call
  call_lock : List ℕ → List ℕ → List ℕ → Bool → Call
  call_transfer_locked : List ℕ → List ℕ → List ℕ → Bool → Call

module _ (sort : List ℕ → List ℕ) (token : ℕ) where
  pub run : Call → BaseStorage → Result StorageError BaseStorage
  unfolding mint transfer do_lock_transition transfer_locked transact
  run (call_mint utxos) s = mint sort token utxos s
  run (call_transfer input output accepted) s = transfer sort token input output accepted s
  run (call_lock inputs outputs locked_outputs accepted) s =
      do_lock_transition sort token inputs outputs locked_outputs accepted s
  run (call_transfer_locked locked_inputs locked_outputs outputs accepted) s =
      transfer_locked sort token locked_inputs locked_outputs outputs accepted s

  -- Calls one after the other: one that reverts changes nothing.
  pub history : List Call → BaseStorage → BaseStorage
  history [] s = s
  history (c ∷ cs) s = history cs (elim (run c s) [ ok t ↦ t | err e ↦ s ])
