-- ===== src/Token/Tests.antt =====
-- A small history of a non-fungible token, with insertion sort for the library's.
use zeto.Base.{◌≡◌, ◌≢◌, refl, true, false, [], ◌∷◌, ◌==◌, if◌then◌else◌, ok, err, arith}
use zeto.Storage.{
  BaseStorage, unknown, unspent, spent_utxo, spent, utxo_already_spent, validate_inputs,
  validate_outputs, process_inputs, process_outputs, only_zeto, set_all, check_sorted, input_error,
  output_error, repeats,
}
use zeto.Storage.Tests.{insert, insertion_sort, mem-insertion_sort}
use zeto.Token.{call_mint, call_transfer, run, history}
use zeto.Token.Spending.{no_double_spend}
use zeto.Token.Lifecycle.{Life, status_of, outcomes, history-Life}

-- The token's address is 7, and it has the UTXO 5.
abbrev minted : BaseStorage
minted = record {
  zeto = 7;
  utxos = λ x. if x == 5 then unspent else unknown;
  locked_utxos = λ x. unknown;
}

abbrev moved : BaseStorage
moved = record {
  zeto = 7;
  utxos = set_all (6 ∷ []) unspent (set_all (5 ∷ []) spent_utxo minted.utxos);
  locked_utxos = λ x. unknown;
}

goes_through : run insertion_sort 7 (call_transfer 5 6 true) minted ≡ ok moved
unfolding run validate_inputs validate_outputs process_inputs process_outputs only_zeto check_sorted
    input_error output_error repeats insertion_sort insert set_all
goes_through = refl

second_transfer : run insertion_sort 7 (call_transfer 5 8 true) moved ≡ err (utxo_already_spent 5)
unfolding run validate_inputs validate_outputs process_inputs process_outputs only_zeto check_sorted
    input_error output_error repeats insertion_sort insert set_all
second_transfer = refl

no_double_spend_example :
    (spent minted 5 ≡ unspent)
    × ((u : BaseStorage)
        → run insertion_sort 7
            (call_transfer 5 8 true)
            (history insertion_sort 7 (call_mint (9 ∷ []) ∷ []) moved)
          ≢ ok u)
no_double_spend_example =
    no_double_spend insertion_sort mem-insertion_sort 7 (call_transfer 5 6 true) minted moved 5
      (call_mint (9 ∷ []) ∷ []) (call_transfer 5 8 true) goes_through
      (λ e. absurd (omega (arith, e))) refl refl

-- The transfer goes through, and to mint its input again does not.
went :
    outcomes insertion_sort 7 (call_transfer 5 6 true ∷ call_mint (5 ∷ []) ∷ []) minted
    ≡ (call_transfer 5 6 true, true) ∷ (call_mint (5 ∷ []), false) ∷ []
unfolding run validate_inputs validate_outputs process_inputs process_outputs only_zeto check_sorted
    input_error output_error repeats insertion_sort insert set_all
went = refl

history-Life_example :
    Life 5
      (outcomes insertion_sort 7 (call_transfer 5 6 true ∷ call_mint (5 ∷ []) ∷ []) minted)
      (status_of minted 5)
      (status_of
        (history insertion_sort 7 (call_transfer 5 6 true ∷ call_mint (5 ∷ []) ∷ []) minted)
        5)
history-Life_example =
    history-Life insertion_sort mem-insertion_sort 7
      (call_transfer 5 6 true ∷ call_mint (5 ∷ []) ∷ []) minted 5 (λ e. absurd (omega (arith, e)))
