-- ===== src/Storage.antt =====
-- The record of UTXOs that a token without nullifiers keeps: BaseStorage of
-- solidity/contracts/lib/storage/base.sol.
pub mod Checked
pub mod Forward
pub mod Accepted
pub mod Nullifier
pub mod Tests
use zeto.Base.{
  ℕ, zero, suc, ◌+◌, ◌≡◌, Bool, true, false, ◌&&◌, ◌||◌, not, Option, none, some, List, [], ◌∷◌,
  ◌++◌, length, ltb, ◌==◌, if◌then◌else◌, Result, ok, err, ◌>>◌, ◌>>=◌,
}

-- `UTXOStatus`
pub data UtxoStatus : Type 0 where
  unknown unspent spent_utxo : UtxoStatus

-- What reverts the transaction, in the storage or in the token above it.
pub data StorageError : Type 0 where
  utxo_duplicate utxo_not_minted utxo_already_spent utxo_already_owned already_locked :
      ℕ → StorageError
  storage_unauthorized : ℕ → StorageError
  invalid_proof : StorageError
  invalid_non_fungible_arity : ℕ → ℕ → ℕ → StorageError

-- The mappings `_utxos` and `_lockedUtxos`, and the contract that owns the storage.
pub record BaseStorage : Type 0 where
  pub zeto : ℕ
  pub utxos : ℕ → UtxoStatus
  pub locked_utxos : ℕ → UtxoStatus

abbrev pub is_unknown : UtxoStatus → Bool
is_unknown unknown = true
is_unknown _ = false

abbrev pub is_unspent : UtxoStatus → Bool
is_unspent unspent = true
is_unspent _ = false

abbrev pub is_spent : UtxoStatus → Bool
is_spent spent_utxo = true
is_spent _ = false

-- `i > 0 && sorted[i] == sorted[i - 1]`
unfoldable pub repeats : Option ℕ → ℕ → Bool
repeats none x = false
repeats (some p) x = x == p

-- The tests of `validateInputs` on one input that is not zero.
unfoldable pub input_error : BaseStorage → Bool → Option ℕ → ℕ → Option StorageError
unfolding repeats
input_error s inputs_locked previous x =
    if repeats previous x
    then some (utxo_duplicate x)
    else if is_unknown (s.locked_utxos x) && is_unknown (s.utxos x)
    then some (utxo_not_minted x)
    else if is_spent (s.locked_utxos x) || is_spent (s.utxos x)
    then some (utxo_already_spent x)
    else if not inputs_locked && is_unspent (s.locked_utxos x)
    then some (already_locked x)
    else none

-- The tests of `validateOutputs` on one output that is not zero.
unfoldable pub output_error : BaseStorage → Option ℕ → ℕ → Option StorageError
unfolding repeats
output_error s previous x =
    if repeats previous x
    then some (utxo_duplicate x)
    else if is_spent (s.utxos x) || is_spent (s.locked_utxos x)
    then some (utxo_already_spent x)
    else if is_unspent (s.utxos x) || is_unspent (s.locked_utxos x)
    then some (utxo_already_owned x)
    else none

-- The loop over the sorted commitments, which skips zeros and stops at the first error.
unfoldable pub check_sorted :
    (Option ℕ → ℕ → Option StorageError) → Option ℕ → List ℕ → Result StorageError (Unit {0})
check_sorted test previous [] = ok tt
check_sorted test previous (x ∷ xs) =
    let rest = check_sorted test (some x) xs in
    if x == 0 then rest else elim (test previous x) [ none ↦ rest | some e ↦ err e ]

-- A mapping with one value changed for the elements of a list, zeros excepted.
unfoldable pub set_all : List ℕ → UtxoStatus → (ℕ → UtxoStatus) → ℕ → UtxoStatus
set_all [] v m = m
set_all (x ∷ xs) v m = set_all xs v (if x == 0 then m else λ k. if k == x then v else m k)

-- `onlyZeto`
unfoldable pub only_zeto : {A : Type 0} → ℕ → BaseStorage → A → Result StorageError A
only_zeto sender s a = if sender == s.zeto then ok a else err (storage_unauthorized sender)

unfoldable pub process_inputs : ℕ → List ℕ → Bool → BaseStorage → Result StorageError BaseStorage
unfolding only_zeto
process_inputs sender inputs true s =
    only_zeto sender s (record s { locked_utxos = set_all inputs spent_utxo s.locked_utxos })
process_inputs sender inputs false s =
    only_zeto sender s (record s { utxos = set_all inputs spent_utxo s.utxos })

unfoldable pub process_outputs : ℕ → List ℕ → BaseStorage → Result StorageError BaseStorage
unfolding only_zeto
process_outputs sender outputs s =
    only_zeto sender s (record s { utxos = set_all outputs unspent s.utxos })

unfoldable pub process_locked_outputs : ℕ → List ℕ → BaseStorage → Result StorageError BaseStorage
unfolding only_zeto
process_locked_outputs sender locked_outputs s =
    only_zeto sender s (record s { locked_utxos = set_all locked_outputs unspent s.locked_utxos })

unfoldable pub locked : BaseStorage → ℕ → Bool
locked s x = is_unspent (s.locked_utxos x)

unfoldable pub spent : BaseStorage → ℕ → UtxoStatus
spent s x =
    if is_spent (s.utxos x) || is_spent (s.locked_utxos x)
    then spent_utxo
    else if is_unspent (s.utxos x) || is_unspent (s.locked_utxos x)
    then unspent
    else unknown

-- `Arrays.sort` of OpenZeppelin.
module _ (sort : List ℕ → List ℕ) where
  unfoldable pub validate_inputs : List ℕ → Bool → BaseStorage → Result StorageError (Unit {0})
  validate_inputs inputs inputs_locked s =
      check_sorted (input_error s inputs_locked) none (sort inputs)

  unfoldable pub validate_outputs : List ℕ → BaseStorage → Result StorageError (Unit {0})
  validate_outputs outputs s = check_sorted (output_error s) none (sort outputs)
