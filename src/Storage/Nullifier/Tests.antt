-- ===== src/Storage/Nullifier/Tests.antt =====
-- A small storage with nullifiers, over a tree that is the list of its leaves.
use zeto.Base.{ℕ, ◌≡◌, ◌≢◌, refl, true, false, some, List, [], ◌∷◌, length, leb, ok, err, arith}
use zeto.Storage.{unknown, only_zeto, utxo_already_spent, check_sorted, repeats}
use zeto.Storage.Checked.{mem}
use zeto.Storage.Tests.{insert, insertion_sort, mem-insertion_sort}
use zeto.Storage.Nullifier.{
  SmtLib, NullifierStorage, write, writes, write_inputs, write_outputs, lift_base, process_inputs,
  set_nullifiers, validate_root, validate_inputs, nullifier_error,
}
use zeto.Storage.Nullifier.Kept.{SmtLibLaws, written_for_good}

-- Its roots are numbered by its sizes.
abbrev pub list_tree : SmtLib
list_tree = record {
  Tree = List ℕ;
  leaf_exists = λ t x. mem x t;
  add_leaf = λ i v t. some (v ∷ t);
  root_exists = λ t r. leb r (length t);
  get_root = λ t. length t;
}

pub list_tree-SmtLibLaws : SmtLibLaws list_tree
list_tree-SmtLibLaws = record {
  leaf_added = λ x t u h. ground arith;
  leaf_kept = λ i v x t u h e. ground arith;
  root_kept = λ i v r t u h e. ground arith;
}

-- The token's address is 7.
abbrev empty_storage : NullifierStorage list_tree
empty_storage = record {
  base = record { zeto = 7; utxos = λ x. unknown; locked_utxos = λ x. unknown };
  commitments_tree = [];
  nullifiers = λ x. false;
}

abbrev with_nullifier : NullifierStorage list_tree
with_nullifier = record empty_storage {
  nullifiers = set_nullifiers (9 ∷ []) empty_storage.nullifiers;
}

nullifier_written :
    write list_tree 7 (write_inputs (9 ∷ []) false) empty_storage ≡ ok with_nullifier
unfolding write process_inputs only_zeto lift_base
nullifier_written = refl

nullifier_used_again :
    validate_inputs list_tree insertion_sort (9 ∷ []) false with_nullifier
    ≡ err (utxo_already_spent 9)
unfolding validate_inputs check_sorted nullifier_error repeats insertion_sort insert set_nullifiers
nullifier_used_again = refl

written_for_good_example :
    ((x : ℕ) (ys : List ℕ)
      → x ≢ 0
      → mem x (9 ∷ []) ≡ true
      → mem x ys ≡ true
      → validate_inputs list_tree insertion_sort ys false
          (writes list_tree ((7, write_outputs (5 ∷ [])) ∷ []) with_nullifier)
        ≢ ok tt)
    × ((r : ℕ)
        → validate_root list_tree r empty_storage ≡ ok tt
        → validate_root list_tree r
            (writes list_tree ((7, write_outputs (5 ∷ [])) ∷ []) with_nullifier)
          ≡ ok tt)
written_for_good_example =
    written_for_good list_tree list_tree-SmtLibLaws insertion_sort mem-insertion_sort 7
      (write_inputs (9 ∷ []) false) empty_storage with_nullifier ((7, write_outputs (5 ∷ [])) ∷ [])
      nullifier_written
