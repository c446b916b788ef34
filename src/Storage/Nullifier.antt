-- ===== src/Storage/Nullifier.antt =====
-- The record of a token with nullifiers: NullifierStorage of
-- solidity/contracts/lib/storage/nullifier.sol. Locked UTXOs stand in the BaseStorage that it extends.
pub mod Kept
pub mod Tests
use zeto.Base.{
  ℕ, Bool, true, false, ◌||◌, not, Option, none, some, List, [], ◌∷◌, ◌==◌, if◌then◌else◌, Result,
  ok, err, ◌>>=◌, ◌>>◌,
}
use zeto.Storage.{
  BaseStorage, StorageError, utxo_duplicate, utxo_already_spent, utxo_already_owned, repeats,
  is_unknown, check_sorted, only_zeto, locked, spent, validate_inputs as base_validate_inputs,
  process_inputs as base_process_inputs, process_locked_outputs as base_process_locked_outputs,
}

-- SmtLib, the library of the append-only Merkle tree: whether a commitment's leaf is there, adding it,
-- which reverts in a full tree, and the roots that the tree has had.
pub record SmtLib : Type 1 where
  pub Tree : Type 0
  pub leaf_exists : Tree → ℕ → Bool
  pub add_leaf : ℕ → ℕ → Tree → Option Tree
  pub root_exists : Tree → ℕ → Bool
  pub get_root : Tree → ℕ

pub record NullifierStorage (smt : SmtLib) : Type 0 where
  pub base : BaseStorage
  pub commitments_tree : smt.Tree
  pub nullifiers : ℕ → Bool

pub data NullifierError : Type 0 where
  in_base : StorageError → NullifierError
  utxo_root_not_found : ℕ → NullifierError
  leaf_not_added : ℕ → NullifierError

unfoldable pub lift_base : {A : Type 0} → Result StorageError A → Result NullifierError A
lift_base (ok a) = ok a
lift_base (err e) = err (in_base e)

-- The nullifiers with those of a list, zeros excepted.
unfoldable pub set_nullifiers : List ℕ → (ℕ → Bool) → ℕ → Bool
set_nullifiers [] m = m
set_nullifiers (x ∷ xs) m =
    set_nullifiers xs (if x == 0 then m else λ k. if k == x then true else m k)

-- A write of the storage: of inputs, which are nullifiers unless they are locked, of outputs and of
-- locked outputs.
pub data Write : Type 0 where
  write_inputs : List ℕ → Bool → Write
  write_outputs : List ℕ → Write
  write_locked_outputs : List ℕ → Write

module _ (smt : SmtLib) where
  -- `existsAsLocked`
  unfoldable pub exists_as_locked : ℕ → NullifierStorage smt → Bool
  unfolding locked spent
  exists_as_locked x s = locked s.base x || not (is_unknown (spent s.base x))

  -- `exists`, of `everExistedAsUnlocked` and `existsAsLocked`.
  unfoldable pub exists : ℕ → NullifierStorage smt → Bool
  unfolding exists_as_locked
  exists x s = smt.leaf_exists s.commitments_tree x || exists_as_locked x s

  -- The tests of `validateInputs` on one nullifier that is not zero.
  unfoldable pub nullifier_error : NullifierStorage smt → Option ℕ → ℕ → Option StorageError
  unfolding repeats
  nullifier_error s previous x =
      if repeats previous x
      then some (utxo_duplicate x)
      else if s.nullifiers x
      then some (utxo_already_spent x)
      else none

  -- The tests of `validateOutputs` on one output that is not zero.
  unfoldable pub new_output_error : NullifierStorage smt → Option ℕ → ℕ → Option StorageError
  unfolding repeats exists
  new_output_error s previous x =
      if repeats previous x
      then some (utxo_duplicate x)
      else if exists x s
      then some (utxo_already_owned x)
      else none

  -- `validateRoot`
  unfoldable pub validate_root : ℕ → NullifierStorage smt → Result NullifierError (Unit {0})
  validate_root root s =
      if smt.root_exists s.commitments_tree root then ok tt else err (utxo_root_not_found root)

  -- The loop of `processOutputs`.
  unfoldable pub add_leaves : List ℕ → smt.Tree → Result NullifierError smt.Tree
  add_leaves [] tree = ok tree
  add_leaves (x ∷ xs) tree = if x == 0 then add_leaves xs tree else elim (smt.add_leaf x x tree) [
    | none ↦ err (leaf_not_added x)
    | some next ↦ add_leaves xs next
  ]

  unfoldable pub process_inputs :
      ℕ → List ℕ → Bool → NullifierStorage smt → Result NullifierError (NullifierStorage smt)
  unfolding only_zeto lift_base
  process_inputs sender inputs true s = do
    lift_base (only_zeto sender s.base tt)
    b ← lift_base (base_process_inputs sender inputs true s.base)
    ok (record s { base = b })
  process_inputs sender inputs false s = do
    lift_base (only_zeto sender s.base tt)
    ok (record s { nullifiers = set_nullifiers inputs s.nullifiers })

  unfoldable pub process_outputs :
      ℕ → List ℕ → NullifierStorage smt → Result NullifierError (NullifierStorage smt)
  unfolding only_zeto lift_base add_leaves
  process_outputs sender outputs s = do
    lift_base (only_zeto sender s.base tt)
    tree ← add_leaves outputs s.commitments_tree
    ok (record s { commitments_tree = tree })

  unfoldable pub process_locked_outputs :
      ℕ → List ℕ → NullifierStorage smt → Result NullifierError (NullifierStorage smt)
  unfolding lift_base
  process_locked_outputs sender locked_outputs s = do
    b ← lift_base (base_process_locked_outputs sender locked_outputs s.base)
    ok (record s { base = b })

  unfoldable pub write :
      ℕ → Write → NullifierStorage smt → Result NullifierError (NullifierStorage smt)
  unfolding process_inputs process_outputs process_locked_outputs
  write sender (write_inputs inputs inputs_locked) s = process_inputs sender inputs inputs_locked s
  write sender (write_outputs outputs) s = process_outputs sender outputs s
  write sender (write_locked_outputs outputs) s = process_locked_outputs sender outputs s

  -- Writes one after the other: one that reverts changes nothing.
  unfoldable pub writes : List (ℕ × Write) → NullifierStorage smt → NullifierStorage smt
  writes [] s = s
  writes ((sender, w) ∷ ws) s = writes ws (elim (write sender w s) [ ok t ↦ t | err e ↦ s ])

  -- `Arrays.sort` of OpenZeppelin.
  module _ (sort : List ℕ → List ℕ) where
    unfoldable pub validate_inputs :
        List ℕ → Bool → NullifierStorage smt → Result StorageError (Unit {0})
    unfolding nullifier_error
    validate_inputs inputs true s = base_validate_inputs sort inputs true s.base
    validate_inputs inputs false s = check_sorted (nullifier_error s) none (sort inputs)

    unfoldable pub validate_outputs : List ℕ → NullifierStorage smt → Result StorageError (Unit {0})
    unfolding new_output_error
    validate_outputs outputs s = check_sorted (new_output_error s) none (sort outputs)
