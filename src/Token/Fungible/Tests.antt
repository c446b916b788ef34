-- ===== src/Token/Fungible/Tests.antt =====
-- A small fungible token, whose deposits are proved by the sum of the outputs.
use zeto.Base.{
  ℕ, ◌+◌, ◌-◌, ◌≡◌, ◌≢◌, refl, true, false, ◌==◌, ltb, if◌then◌else◌, Bool, Option, none, some,
  List, [], ◌∷◌, Result, ok, err, arith,
}
use zeto.Storage.{
  BaseStorage, unknown, unspent, spent, locked, validate_inputs as base_validate_inputs,
  validate_outputs, process_inputs as base_process_inputs,
  process_locked_outputs as base_process_locked_outputs, check_sorted, input_error, output_error,
  repeats, set_all,
}
use zeto.Storage.Checked.{mem}
use zeto.Storage.Tests.{insert, insertion_sort, mem-insertion_sort}
use zeto.Storage.Nullifier.{
  NullifierStorage, NullifierError, new_output_error, exists,
  validate_inputs as nullifier_validate_inputs, validate_outputs as nullifier_validate_outputs,
  process_inputs as nullifier_process_inputs, process_outputs, process_locked_outputs,
}
use zeto.Storage.Nullifier.Tests.{list_tree, list_tree-SmtLibLaws}
use zeto.Token.Fungible.{
  Circuit, FungibleError, Ledger, deposit, transfer_locked, base_storage, nullifier_storage,
}
use zeto.Token.Fungible.Deposit.{unproved_outputs_minted}
use zeto.Token.Fungible.Relocked.{relocked_in_tree}

-- The UTXO x holds the value x.
abbrev sum : List ℕ → ℕ
sum [] = 0
sum (x ∷ xs) = x + sum xs

abbrev verify : {State : Type 0} → State → Circuit → ℕ → List ℕ → List ℕ → ℕ → Bool
verify s circuit amount inputs outputs proof = (amount + sum inputs) == sum outputs

-- The ERC20 is the balance of the sender 3.
abbrev take_from : ℕ → ℕ → ℕ → Option ℕ
take_from sender amount balance = if ltb balance amount then none else some (balance - amount)

abbrev give_to : ℕ → ℕ → ℕ → Option ℕ
give_to sender amount balance = some (balance + amount)

abbrev before : Ledger (base_storage insertion_sort 7) ℕ
before = record {
  store = record { zeto = 7; utxos = λ x. unknown; locked_utxos = λ x. unknown };
  erc20 = 100;
}

outputs_new : validate_outputs insertion_sort (2 ∷ 3 ∷ 1000 ∷ []) before.store ≡ ok tt
unfolding validate_outputs check_sorted output_error repeats insertion_sort insert
outputs_new = refl

-- A deposit of 5 that mints 1005.
unproved_outputs_minted_example :
    (t : BaseStorage) × (deposit
        (base_storage insertion_sort 7)
        (λ s. verify s)
        take_from
        give_to
        3
        5
        (2 ∷ 3 ∷ 1000 ∷ [])
        0
        before
      ≡ ok (record { store = t; erc20 = 95 }))
    × ((x : ℕ) → x ≢ 0 → mem x (1000 ∷ []) ≡ true → spent t x ≡ unspent)
unproved_outputs_minted_example =
    unproved_outputs_minted (λ s. verify s) take_from give_to insertion_sort mem-insertion_sort 7 3
      5 2 3 (1000 ∷ []) 0 before 95 refl refl outputs_new refl

-- The UTXO 5 is locked.
abbrev one_locked : NullifierStorage list_tree
one_locked = record {
  base = record {
    zeto = 7;
    utxos = λ x. unknown;
    locked_utxos = λ x. if x == 5 then unspent else unknown;
  };
  commitments_tree = [];
  nullifiers = λ x. false;
}

abbrev moved : Result (FungibleError NullifierError) (NullifierStorage list_tree)
moved =
    transfer_locked (nullifier_storage insertion_sort 7 list_tree) (λ s. verify s) take_from give_to
      (5 ∷ []) (2 ∷ 3 ∷ []) [] 0 one_locked

abbrev relocked : NullifierStorage list_tree
relocked = elim moved [ ok t ↦ t | err e ↦ one_locked ]

goes_through : moved ≡ ok relocked
unfolding transfer_locked validate_outputs check_sorted input_error output_error repeats
    insertion_sort insert nullifier_validate_outputs new_output_error nullifier_process_inputs
    process_outputs process_locked_outputs base_validate_inputs base_process_inputs
    base_process_locked_outputs exists set_all nullifier_validate_inputs
goes_through = refl

relocked_in_tree_example :
    (locked relocked.base 2 ≡ true) × (list_tree.leaf_exists relocked.commitments_tree 2 ≡ true)
relocked_in_tree_example =
    relocked_in_tree list_tree list_tree-SmtLibLaws insertion_sort 7 (λ s. verify s) take_from
      give_to (5 ∷ []) (2 ∷ 3 ∷ []) [] 0 one_locked relocked 2 goes_through
      (λ e. absurd (omega (arith, e))) refl
