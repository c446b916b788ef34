-- ===== src/Locks.antt =====
-- Locks on UTXOs: ZetoLockableLib of solidity/contracts/lib/zeto_lockable_lib.sol over the state of
-- solidity/contracts/lib/zeto_lockable_storage.sol.
pub mod Parts
pub mod Rights
pub mod Lost
pub mod NonFungible
mod Tests
use zeto.Base.{
  ℕ, ◌+◌, Bool, true, false, ◌&&◌, not, List, [], ◌∷◌, length, ltb, ◌==◌, if◌then◌else◌, Result, ok,
  err, ◌>>◌, ◌>>=◌,
}
use zeto.Storage.{BaseStorage, StorageError}

-- `ZetoLockInfo`. A lock is active when its owner is not the zero address.
pub record LockInfo : Type 0 where
  pub owner : ℕ
  pub spender : ℕ
  pub spend_commitment : ℕ
  pub cancel_commitment : ℕ
  pub locked_inputs : List ℕ

-- The layout of ZetoLockableStorage, beside the storage of the UTXOs.
pub record LockState : Type 0 where
  pub storage : BaseStorage
  pub locks : ℕ → LockInfo
  pub tx_ids : ℕ → ℕ → Bool
  pub utxo_delegates : ℕ → ℕ

pub data LockError : Type 0 where
  storage_error : StorageError → LockError
  duplicate_lock : ℕ → LockError
  duplicate_transaction : ℕ → LockError
  lock_not_active : ℕ → LockError
  lock_unauthorized : ℕ → ℕ → ℕ → LockError
  lock_immutable : ℕ → LockError
  invalid_unlock_hash : ℕ → ℕ → LockError

-- `ZetoCreateLockArgs`, with the verifier's verdict on the proof.
pub record CreateLockArgs : Type 0 where
  pub tx_id : ℕ
  pub inputs : List ℕ
  pub outputs : List ℕ
  pub locked_outputs : List ℕ
  pub accepted : Bool

-- `ZetoSpendLockArgs`, with the verifier's verdict on the proof.
pub record SpendLockArgs : Type 0 where
  pub tx_id : ℕ
  pub locked_outputs : List ℕ
  pub outputs : List ℕ
  pub accepted : Bool
  pub data_hash : ℕ

-- A token over the storage: the two hooks that it gives, `_doLockTransition` and `_transferLocked`, and
-- its own calls that change the storage.
pub record LockHooks : Type 1 where
  pub OwnCall : Type 0
  pub own_call : OwnCall → BaseStorage → Result StorageError BaseStorage
  pub do_lock_transition : CreateLockArgs → BaseStorage → Result StorageError BaseStorage
  pub transfer_locked :
      List ℕ → List ℕ → List ℕ → Bool → BaseStorage → Result StorageError BaseStorage

unfoldable pub guard : Bool → LockError → Result LockError (Unit {0})
guard true e = ok tt
guard false e = err e

unfoldable pub in_storage : {A : Type 0} → Result StorageError A → Result LockError A
in_storage (ok a) = ok a
in_storage (err e) = err (storage_error e)

-- `_useTxId`
unfoldable pub use_tx_id : ℕ → ℕ → LockState → Result LockError LockState
unfolding guard
use_tx_id sender tx w = do
  guard (not (w.tx_ids sender tx)) (duplicate_transaction tx)
  ok (record w { tx_ids = λ a i. if (a == sender) && (i == tx) then true else w.tx_ids a i })

-- `_requireLockActive`
unfoldable pub require_lock_active : ℕ → LockState → Result LockError (Unit {0})
unfolding guard
require_lock_active lock_id w = guard (not ((w.locks lock_id).owner == 0)) (lock_not_active lock_id)

-- `_requireLockOwner`
unfoldable pub require_lock_owner : ℕ → ℕ → LockState → Result LockError (Unit {0})
unfolding guard
require_lock_owner sender lock_id w =
    let owner = (w.locks lock_id).owner in
    guard (owner == sender) (lock_unauthorized lock_id owner sender)

-- `_requireLockSpender`
unfoldable pub require_lock_spender : ℕ → ℕ → LockState → Result LockError (Unit {0})
unfolding guard
require_lock_spender sender lock_id w =
    let spender = (w.locks lock_id).spender in
    guard (spender == sender) (lock_unauthorized lock_id spender sender)

-- `setLockDelegates`, and `_clearLockDelegates` with the zero address.
unfoldable pub set_lock_delegates : List ℕ → ℕ → (ℕ → ℕ) → ℕ → ℕ
set_lock_delegates [] spender m = m
set_lock_delegates (x ∷ xs) spender m =
    set_lock_delegates xs spender (if x == 0 then m else λ k. if k == x then spender else m k)

unfoldable pub write_lock : ℕ → LockInfo → (ℕ → LockInfo) → ℕ → LockInfo
write_lock lock_id lock locks k = if k == lock_id then lock else locks k

-- What `delete` leaves.
abbrev pub no_lock : LockInfo
no_lock = record {
  owner = 0;
  spender = 0;
  spend_commitment = 0;
  cancel_commitment = 0;
  locked_inputs = [];
}

-- A call of the token, of the token's own calls.
pub data LockCall (OwnCall : Type 0) : Type 0 where
  own : OwnCall → LockCall OwnCall
  create : CreateLockArgs → ℕ → ℕ → LockCall OwnCall
  update : ℕ → ℕ → ℕ → ℕ → LockCall OwnCall
  delegate : ℕ → ℕ → ℕ → LockCall OwnCall
  spend : ℕ → SpendLockArgs → LockCall OwnCall
  cancel : ℕ → SpendLockArgs → LockCall OwnCall

-- The token, keccak256 of a lock's name and of an unlock's content, and the two domains of the latter.
module _ (hooks : LockHooks) (lock_id_of : ℕ → ℕ → ℕ)
    (unlock_hash : ℕ → List ℕ → List ℕ → List ℕ → ℕ → ℕ) (spend_domain cancel_domain : ℕ) where
  -- `createLock`
  pub create_lock : ℕ → CreateLockArgs → ℕ → ℕ → LockState → Result LockError LockState
  unfolding use_tx_id in_storage guard
  create_lock sender args spend_commitment cancel_commitment w = do
    let lock_id = lock_id_of sender args.tx_id
    guard ((w.locks lock_id).owner == 0) (duplicate_lock lock_id)
    u ← use_tx_id sender args.tx_id w
    s ← in_storage (hooks.do_lock_transition args u.storage)
    let lock : LockInfo = record {
      owner = sender;
      spender = sender;
      spend_commitment = spend_commitment;
      cancel_commitment = cancel_commitment;
      locked_inputs = args.locked_outputs;
    }
    ok (record u {
      storage = s;
      locks = write_lock lock_id lock u.locks;
      utxo_delegates = set_lock_delegates args.locked_outputs sender u.utxo_delegates;
    })

  -- `updateLock`
  pub update_lock : ℕ → ℕ → ℕ → ℕ → ℕ → LockState → Result LockError LockState
  unfolding use_tx_id require_lock_active require_lock_owner guard
  update_lock sender lock_id tx spend_commitment cancel_commitment w = do
    require_lock_active lock_id w
    require_lock_owner sender lock_id w
    guard ((w.locks lock_id).spender == (w.locks lock_id).owner) (lock_immutable lock_id)
    u ← use_tx_id sender tx w
    let lock : LockInfo = record (u.locks lock_id) {
      spend_commitment = spend_commitment;
      cancel_commitment = cancel_commitment;
    }
    ok (record u { locks = write_lock lock_id lock u.locks })

  -- `delegateLock`
  pub delegate_lock : ℕ → ℕ → ℕ → ℕ → LockState → Result LockError LockState
  unfolding use_tx_id require_lock_active require_lock_spender
  delegate_lock sender lock_id tx new_spender w = do
    require_lock_active lock_id w
    require_lock_spender sender lock_id w
    u ← use_tx_id sender tx w
    let lock : LockInfo = record (u.locks lock_id) { spender = new_spender }
    ok (record u {
      locks = write_lock lock_id lock u.locks;
      utxo_delegates = set_lock_delegates lock.locked_inputs new_spender u.utxo_delegates;
    })

  -- `_consumeLock`
  pub consume_lock : ℕ → ℕ → List ℕ → ℕ → ℕ → SpendLockArgs → LockState → Result LockError LockState
  unfolding use_tx_id in_storage guard
  consume_lock sender lock_id locked_inputs expected_hash domain args w = do
    u ← use_tx_id sender args.tx_id w
    let actual_hash =
        unlock_hash domain locked_inputs args.locked_outputs args.outputs args.data_hash
    guard (if expected_hash == 0 then true else actual_hash == expected_hash)
        (invalid_unlock_hash expected_hash actual_hash)
    let cleared = set_lock_delegates locked_inputs 0 u.utxo_delegates
    s ← in_storage (
        hooks.transfer_locked locked_inputs args.locked_outputs args.outputs args.accepted
          u.storage)
    ok (record u {
      storage = s;
      locks = write_lock lock_id no_lock u.locks;
      utxo_delegates =
          if ltb 0 (length args.locked_outputs)
          then set_lock_delegates args.locked_outputs sender cleared
          else cleared;
    })

  -- `spendLock`
  pub spend_lock : ℕ → ℕ → SpendLockArgs → LockState → Result LockError LockState
  unfolding consume_lock require_lock_active require_lock_spender
  spend_lock sender lock_id args w = do
    require_lock_active lock_id w
    require_lock_spender sender lock_id w
    let lock = w.locks lock_id
    consume_lock sender lock_id lock.locked_inputs lock.spend_commitment spend_domain args w

  -- `cancelLock`
  pub cancel_lock : ℕ → ℕ → SpendLockArgs → LockState → Result LockError LockState
  unfolding consume_lock require_lock_active require_lock_spender
  cancel_lock sender lock_id args w = do
    require_lock_active lock_id w
    require_lock_spender sender lock_id w
    let lock = w.locks lock_id
    consume_lock sender lock_id lock.locked_inputs lock.cancel_commitment cancel_domain args w

  pub run : ℕ → LockCall hooks.OwnCall → LockState → Result LockError LockState
  unfolding in_storage
  run sender (own c) w = do
    s ← in_storage (hooks.own_call c w.storage)
    ok (record w { storage = s })
  run sender (create args spend_commitment cancel_commitment) w =
      create_lock sender args spend_commitment cancel_commitment w
  run sender (update lock_id tx spend_commitment cancel_commitment) w =
      update_lock sender lock_id tx spend_commitment cancel_commitment w
  run sender (delegate lock_id tx new_spender) w = delegate_lock sender lock_id tx new_spender w
  run sender (spend lock_id args) w = spend_lock sender lock_id args w
  run sender (cancel lock_id args) w = cancel_lock sender lock_id args w

  -- Calls one after the other: one that reverts changes nothing.
  pub history : List (ℕ × LockCall hooks.OwnCall) → LockState → LockState
  history [] w = w
  history ((sender, c) ∷ cs) w = history cs (elim (run sender c w) [ ok v ↦ v | err e ↦ w ])
