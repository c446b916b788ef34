-- ===== src/Token/Fungible.antt =====
-- A fungible token over any storage: ZetoFungible of solidity/contracts/lib/zeto_fungible.sol, with
-- checkAndPadCommitments of solidity/contracts/lib/zeto_common.sol.
pub mod Deposit
pub mod Relocked
mod Tests
use zeto.Base.{
  ℕ, ◌-◌, Bool, true, false, ◌||◌, Option, none, some, List, [], ◌∷◌, ◌++◌, length, replicate, ltb,
  ◌==◌, if◌then◌else◌, Result, ok, err, ◌>>◌, ◌>>=◌,
}
use zeto.Storage.{
  BaseStorage, StorageError, validate_inputs as base_validate_inputs,
  validate_outputs as base_validate_outputs, process_inputs as base_process_inputs,
  process_outputs as base_process_outputs, process_locked_outputs as base_process_locked_outputs,
}
use zeto.Storage.Nullifier.{
  SmtLib, NullifierStorage, NullifierError, lift_base, validate_inputs as nullifier_validate_inputs,
  validate_outputs as nullifier_validate_outputs, process_inputs as nullifier_process_inputs,
  process_outputs as nullifier_process_outputs,
  process_locked_outputs as nullifier_process_locked_outputs,
}

-- `IZetoStorage`, as the token's contract calls it.
pub record ZetoStorage : Type 1 where
  pub State : Type 0
  pub Error : Type 0
  pub validate_inputs : List ℕ → Bool → State → Result Error (Unit {0})
  pub validate_outputs : List ℕ → State → Result Error (Unit {0})
  pub process_inputs : List ℕ → Bool → State → Result Error State
  pub process_outputs : List ℕ → State → Result Error State
  pub process_locked_outputs : List ℕ → State → Result Error State

pub data FungibleError (E : Type 0) : Type 0 where
  from_storage : E → FungibleError E
  utxo_array_too_large : ℕ → FungibleError E
  proof_refused : FungibleError E
  erc20_refused : FungibleError E
  -- Solidity's panic for an index outside an array.
  index_out_of_bounds : FungibleError E

unfoldable pub with_storage : {E A : Type 0} → Result E A → Result (FungibleError E) A
with_storage (ok a) = ok a
with_storage (err e) = err (from_storage e)

abbrev pub max_batch : ℕ
max_batch = 10

-- `Commonlib.padUintArray`, with zeros.
unfoldable pub pad_uint_array : List ℕ → ℕ → List ℕ
pad_uint_array arr target_length =
    if length arr == target_length then arr else arr ++ replicate (target_length - length arr) 0

-- `checkAndPadCommitments`
unfoldable pub check_and_pad_commitments :
    {E : Type 0} → List ℕ → List ℕ → Result (FungibleError E) (List ℕ × List ℕ)
unfolding pad_uint_array
check_and_pad_commitments inputs outputs =
    let len = if ltb (length outputs) (length inputs) then length inputs else length outputs in
    let max_length = if ltb 2 len then max_batch else 2 in
    if ltb max_batch len
    then err (utxo_array_too_large max_batch)
    else ok (pad_uint_array inputs max_length, pad_uint_array outputs max_length)

-- The verifiers of a token: of transfers, for unlocked or locked inputs, of deposits and of
-- withdrawals.
pub data Circuit : Type 0 where
  transfer_circuit : Bool → Bool → Circuit
  deposit_circuit : Circuit
  withdraw_circuit : Bool → Circuit

-- The storage and the ERC20 behind the token.
pub record Ledger (storage : ZetoStorage) (Erc20 : Type 0) : Type 0 where
  pub store : storage.State
  pub erc20 : Erc20

-- The verifiers, with the public inputs that a token makes of amount, inputs, outputs and proof, and the
-- test of the root in a token with nullifiers; and transfers of the ERC20 to and from the token.
module _ (storage : ZetoStorage) {Proof Erc20 : Type 0}
    (verify : storage.State → Circuit → ℕ → List ℕ → List ℕ → Proof → Bool)
    (safe_transfer_from safe_transfer : ℕ → ℕ → Erc20 → Option Erc20) where
  abbrev pub Outcome : Type 0 → Type 0
  Outcome A = Result (FungibleError storage.Error) A

  unfoldable pub require_proof : Bool → Outcome (Unit {0})
  require_proof true = ok tt
  require_proof false = err proof_refused

  unfoldable pub require_erc20 : Option Erc20 → Outcome Erc20
  require_erc20 none = err erc20_refused
  require_erc20 (some e) = ok e

  -- `validateTransactionProposal`
  unfoldable pub validate_transaction_proposal :
      List ℕ → List ℕ → List ℕ → Bool → storage.State → Outcome (Unit {0})
  unfolding with_storage
  validate_transaction_proposal inputs outputs locked_outputs inputs_locked s =
      with_storage (storage.validate_inputs inputs inputs_locked s)
      >> with_storage (storage.validate_outputs (outputs ++ locked_outputs) s)

  -- `processInputsAndOutputs`
  unfoldable pub process_inputs_and_outputs :
      List ℕ → List ℕ → Bool → storage.State → Outcome storage.State
  unfolding with_storage
  process_inputs_and_outputs inputs outputs inputs_locked s = do
    t ← with_storage (storage.process_inputs inputs inputs_locked s)
    with_storage (storage.process_outputs outputs t)

  -- `transfer`
  unfoldable pub transfer : List ℕ → List ℕ → Proof → storage.State → Outcome storage.State
  unfolding validate_transaction_proposal check_and_pad_commitments require_proof
      process_inputs_and_outputs
  transfer inputs outputs proof s = do
    validate_transaction_proposal inputs outputs [] false s
    (padded_inputs, padded_outputs) ← check_and_pad_commitments inputs outputs
    let is_batch = ltb 2 (length inputs) || ltb 2 (length outputs)
    require_proof (verify s (transfer_circuit is_batch false) 0 padded_inputs padded_outputs proof)
    process_inputs_and_outputs padded_inputs padded_outputs false s

  -- `_doLockTransition`
  unfoldable pub do_lock_transition :
      List ℕ → List ℕ → List ℕ → Proof → storage.State → Outcome storage.State
  unfolding validate_transaction_proposal check_and_pad_commitments require_proof
      process_inputs_and_outputs with_storage
  do_lock_transition inputs outputs locked_outputs proof s = do
    validate_transaction_proposal inputs outputs locked_outputs false s
    (padded_inputs, padded_outputs) ← check_and_pad_commitments inputs (locked_outputs ++ outputs)
    let is_batch =
        ltb 2 (length padded_inputs) || ltb 2 (length outputs) || ltb 2 (length locked_outputs)
    require_proof (verify s (transfer_circuit is_batch false) 0 padded_inputs padded_outputs proof)
    t ← process_inputs_and_outputs padded_inputs outputs false s
    with_storage (storage.process_locked_outputs locked_outputs t)

  -- `_transferLocked`
  unfoldable pub transfer_locked :
      List ℕ → List ℕ → List ℕ → Proof → storage.State → Outcome storage.State
  unfolding validate_transaction_proposal check_and_pad_commitments require_proof
      process_inputs_and_outputs with_storage
  transfer_locked locked_inputs locked_outputs outputs proof s = do
    validate_transaction_proposal locked_inputs outputs locked_outputs true s
    (padded_inputs, padded_outputs) ←
        check_and_pad_commitments locked_inputs (locked_outputs ++ outputs)
    let is_batch = ltb 2 (length locked_inputs) || ltb 2 (length (locked_outputs ++ outputs))
    require_proof (verify s (transfer_circuit is_batch true) 0 padded_inputs padded_outputs proof)
    t ← process_inputs_and_outputs padded_inputs padded_outputs true s
    with_storage (storage.process_locked_outputs locked_outputs t)

  -- The verifier's verdict on a deposit, with `constructPublicInputsForDeposit`, which takes the first
  -- two outputs.
  unfoldable pub verify_deposit : storage.State → ℕ → List ℕ → Proof → Outcome (Unit {0})
  unfolding require_proof
  verify_deposit s amount [] proof = err index_out_of_bounds
  verify_deposit s amount (x ∷ []) proof = err index_out_of_bounds
  verify_deposit s amount (x ∷ y ∷ outputs) proof =
      require_proof (verify s deposit_circuit amount [] (x ∷ y ∷ []) proof)

  -- `_mint`
  unfoldable pub mint : List ℕ → storage.State → Outcome storage.State
  unfolding with_storage
  mint utxos s =
      with_storage (storage.validate_outputs utxos s)
      >> with_storage (storage.process_outputs utxos s)

  -- `deposit`, by a sender.
  unfoldable pub deposit :
      ℕ → ℕ → List ℕ → Proof → Ledger storage Erc20 → Outcome (Ledger storage Erc20)
  unfolding verify_deposit mint with_storage require_erc20
  deposit sender amount outputs proof w = do
    with_storage (storage.validate_outputs outputs w.store)
    verify_deposit w.store amount outputs proof
    t ← mint outputs w.store
    e ← require_erc20 (safe_transfer_from sender amount w.erc20)
    ok (record { store = t; erc20 = e })

  -- `withdraw`, by a sender.
  unfoldable pub withdraw :
      ℕ → ℕ → List ℕ → ℕ → Proof → Ledger storage Erc20 → Outcome (Ledger storage Erc20)
  unfolding validate_transaction_proposal check_and_pad_commitments require_proof
      process_inputs_and_outputs require_erc20
  withdraw sender amount inputs output proof w = do
    validate_transaction_proposal inputs (output ∷ []) [] false w.store
    (padded_inputs, padded_outputs) ← check_and_pad_commitments inputs (output ∷ [])
    let is_batch = ltb 2 (length inputs)
    require_proof
        (verify w.store (withdraw_circuit is_batch) amount padded_inputs (output ∷ []) proof)
    t ← process_inputs_and_outputs padded_inputs padded_outputs false w.store
    e ← require_erc20 (safe_transfer sender amount w.erc20)
    ok (record { store = t; erc20 = e })

-- `_fillEnabledFlags_Nullifier` of solidity/contracts/zeto_anon_nullifier.sol: the flags among the public
-- inputs of a token with nullifiers.
unfoldable pub fill_enabled_flags : List ℕ → List ℕ
fill_enabled_flags [] = []
fill_enabled_flags (nullifier ∷ nullifiers) =
    (if nullifier == 0 then 0 else 1) ∷ fill_enabled_flags nullifiers

-- The storages as the token's contract, whose address is given, calls them.
module _ (sort : List ℕ → List ℕ) (token : ℕ) where
  abbrev pub base_storage : ZetoStorage
  base_storage = record {
    State = BaseStorage;
    Error = StorageError;
    validate_inputs = λ inputs inputs_locked s. base_validate_inputs sort inputs inputs_locked s;
    validate_outputs = λ outputs s. base_validate_outputs sort outputs s;
    process_inputs = λ inputs inputs_locked s. base_process_inputs token inputs inputs_locked s;
    process_outputs = λ outputs s. base_process_outputs token outputs s;
    process_locked_outputs = λ outputs s. base_process_locked_outputs token outputs s;
  }

  abbrev pub nullifier_storage : SmtLib → ZetoStorage
  nullifier_storage smt = record {
    State = NullifierStorage smt;
    Error = NullifierError;
    validate_inputs = λ inputs inputs_locked s.
        lift_base (nullifier_validate_inputs smt sort inputs inputs_locked s);
    validate_outputs = λ outputs s. lift_base (nullifier_validate_outputs smt sort outputs s);
    process_inputs =
        λ inputs inputs_locked s. nullifier_process_inputs smt token inputs inputs_locked s;
    process_outputs = λ outputs s. nullifier_process_outputs smt token outputs s;
    process_locked_outputs = λ outputs s. nullifier_process_locked_outputs smt token outputs s;
  }
