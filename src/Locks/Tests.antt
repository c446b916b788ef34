-- ===== src/Locks/Tests.antt =====
-- Calls on locks over a small non-fungible token.
use zeto.Base.{
  ℕ, ◌+◌, ◌*◌, ◌≡◌, ◌≢◌, refl, true, List, [], ◌∷◌, ◌==◌, if◌then◌else◌, Result, ok, err, arith,
}
use zeto.Storage.{
  BaseStorage, unknown, unspent, check_sorted, input_error, output_error, repeats, validate_inputs,
  validate_outputs, process_inputs, process_outputs, process_locked_outputs, only_zeto, set_all,
}
use zeto.Storage.Tests.{insert, insertion_sort, mem-insertion_sort}
use zeto.Locks.{
  SpendLockArgs, LockState, LockError, LockHooks, LockCall, own, create, spend, run, history,
  create_lock, spend_lock, consume_lock, guard, in_storage, use_tx_id, require_lock_active,
  require_lock_spender, write_lock, lock_unauthorized,
}
use zeto.Token.{
  transact, do_lock_transition, transfer_locked, validate_transaction_proposal,
  process_inputs_and_outputs, verify_proof,
}
use zeto.Locks.Rights.{run-Allowed, tx_id_once, Allowed}
use zeto.Locks.Lost.{IsHeld, fresh_locks, relocked_lost}
use zeto.Locks.NonFungible.{
  TokenCall, mint_utxos, move_utxo, non_fungible_hooks, non_fungible_hooks-LockHooksLaws,
}

-- The token's address is 7, and it has the UTXO 5.
abbrev minted : BaseStorage
minted = record {
  zeto = 7;
  utxos = λ x. if x == 5 then unspent else unknown;
  locked_utxos = λ x. unknown;
}

abbrev hooks : LockHooks
hooks = non_fungible_hooks insertion_sort 7

abbrev lock_id_of : ℕ → ℕ → ℕ
lock_id_of sender tx = sender * 100 + tx

abbrev unlock_hash : ℕ → List ℕ → List ℕ → List ℕ → ℕ → ℕ
unlock_hash domain locked_inputs locked_outputs outputs data_hash = domain + data_hash

abbrev first_lock : LockCall TokenCall
first_lock =
    create
      (record {
        tx_id = 3;
        inputs = 5 ∷ [];
        outputs = [];
        locked_outputs = 6 ∷ [];
        accepted = true;
      })
      0 0

abbrev relock : SpendLockArgs
relock = record { tx_id = 4; locked_outputs = 8 ∷ []; outputs = []; accepted = true; data_hash = 0 }

abbrev call : ℕ → LockCall TokenCall → LockState → Result LockError LockState
call sender c w = run hooks lock_id_of unlock_hash 1 2 sender c w

abbrev after_call : ℕ → LockCall TokenCall → LockState → LockState
after_call sender c w = elim (call sender c w) [ ok v ↦ v | err e ↦ w ]

-- The UTXO 5 is locked as 6 by the account 1, in the lock 103.
abbrev one_lock : LockState
one_lock = history hooks lock_id_of unlock_hash 1 2 ((1, first_lock) ∷ []) (fresh_locks minted)

abbrev relocked : LockState
relocked = after_call 1 (spend 103 relock) one_lock

locked_first : call 1 first_lock (fresh_locks minted) ≡ ok one_lock
unfolding history run create_lock spend_lock consume_lock do_lock_transition transfer_locked
    transact validate_transaction_proposal process_inputs_and_outputs verify_proof validate_inputs
    validate_outputs process_inputs process_outputs process_locked_outputs only_zeto check_sorted
    input_error output_error repeats insertion_sort insert set_all guard in_storage use_tx_id
    require_lock_active require_lock_spender write_lock
locked_first = refl

spent_again : call 1 (spend 103 relock) one_lock ≡ ok relocked
unfolding history run create_lock spend_lock consume_lock do_lock_transition transfer_locked
    transact validate_transaction_proposal process_inputs_and_outputs verify_proof validate_inputs
    validate_outputs process_inputs process_outputs process_locked_outputs only_zeto check_sorted
    input_error output_error repeats insertion_sort insert set_all guard in_storage use_tx_id
    require_lock_active require_lock_spender write_lock
spent_again = refl

not_the_spender : call 2 (spend 103 relock) one_lock ≡ err (lock_unauthorized 103 1 2)
unfolding history run create_lock spend_lock consume_lock do_lock_transition transfer_locked
    transact validate_transaction_proposal process_inputs_and_outputs verify_proof validate_inputs
    validate_outputs process_inputs process_outputs process_locked_outputs only_zeto check_sorted
    input_error output_error repeats insertion_sort insert set_all guard in_storage use_tx_id
    require_lock_active require_lock_spender write_lock
not_the_spender = refl

relocked_lost_example :
    IsHeld
      (history hooks lock_id_of unlock_hash 1 2
        ((1, own (move_utxo 8 9 true)) ∷ [])
        relocked).storage
      8
relocked_lost_example =
    relocked_lost hooks (non_fungible_hooks-LockHooksLaws insertion_sort mem-insertion_sort 7)
      lock_id_of unlock_hash 1 2 minted ((1, first_lock) ∷ []) 1 103 relock relocked 8
      ((1, own (move_utxo 8 9 true)) ∷ []) spent_again (λ e. absurd (omega (arith, e))) refl

-- The lock of the account 1 goes when that account spends it, and only that account can.
run-Allowed_example : Allowed 1 (one_lock.locks 103) (relocked.locks 103)
run-Allowed_example =
    run-Allowed hooks lock_id_of unlock_hash 1 2 1 (spend 103 relock) one_lock relocked 103
      spent_again

-- The account 1 has used the id 4, and cannot use it for another lock.
tx_id_once_example :
    call 1
      (create
        (record {
          tx_id = 4;
          inputs = 9 ∷ [];
          outputs = [];
          locked_outputs = 10 ∷ [];
          accepted = true;
        })
        0
        0)
      (history hooks lock_id_of unlock_hash 1 2 ((1, own (mint_utxos (9 ∷ []))) ∷ []) relocked)
    ≢ ok (fresh_locks minted)
tx_id_once_example =
    tx_id_once hooks lock_id_of unlock_hash 1 2 1 4 (spend 103 relock)
      (create
        (record {
          tx_id = 4;
          inputs = 9 ∷ [];
          outputs = [];
          locked_outputs = 10 ∷ [];
          accepted = true;
        })
        0 0)
      one_lock relocked ((1, own (mint_utxos (9 ∷ []))) ∷ []) refl refl spent_again
      (fresh_locks minted)
