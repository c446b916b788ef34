-- ===== src/Storage/Forward.antt =====
-- How the writes of the storage change what is known of a UTXO.
use zeto.Base.{
  ℕ, ◌≡◌, refl, Bool, true, false, ◌&&◌, not, List, [], ◌∷◌, ◌==◌, if◌then◌else◌, ok, arith,
}
use zeto.Storage.{
  BaseStorage, UtxoStatus, unspent, spent_utxo, set_all, spent, only_zeto, process_inputs,
  process_outputs, process_locked_outputs,
}
use zeto.Storage.Checked.{mem}

pub set_all_lem :
    (xs : List ℕ) (v : UtxoStatus) (m : ℕ → UtxoStatus) (x : ℕ)
    → set_all xs v m x ≡ (if mem x xs && not (x == 0) then v else m x)
unfolding set_all
set_all_lem [] v m x = refl
set_all_lem (y ∷ ys) v m x =
    ground (arith, set_all_lem ys v (if y == 0 then m else λ k. if k == y then v else m k) x)

-- A spent UTXO is spent after the inputs are written, and so are the inputs.
pub spent-process_inputs :
    (sender : ℕ) (inputs : List ℕ) (inputs_locked : Bool) (s t : BaseStorage) (x : ℕ)
    → process_inputs sender inputs inputs_locked s ≡ ok t
    → spent t x ≡ (if mem x inputs && not (x == 0) then spent_utxo else spent s x)
unfolding process_inputs only_zeto spent
spent-process_inputs sender inputs true s t x h =
    ground (arith, set_all_lem inputs spent_utxo s.locked_utxos x)
spent-process_inputs sender inputs false s t x h =
    ground (arith, set_all_lem inputs spent_utxo s.utxos x)

-- A UTXO that is not among the outputs stays what it was.
pub spent-process_outputs :
    (sender : ℕ) (outputs : List ℕ) (s t : BaseStorage) (x : ℕ)
    → process_outputs sender outputs s ≡ ok t
    → mem x outputs && not (x == 0) ≡ false
    → spent t x ≡ spent s x
unfolding process_outputs only_zeto spent
spent-process_outputs sender outputs s t x h m =
    ground (arith, set_all_lem outputs unspent s.utxos x)

pub spent-process_locked_outputs :
    (sender : ℕ) (outputs : List ℕ) (s t : BaseStorage) (x : ℕ)
    → process_locked_outputs sender outputs s ≡ ok t
    → mem x outputs && not (x == 0) ≡ false
    → spent t x ≡ spent s x
unfolding process_locked_outputs only_zeto spent
spent-process_locked_outputs sender outputs s t x h m =
    ground (arith, set_all_lem outputs unspent s.locked_utxos x)

-- What the two mappings say of a UTXO that is not zero after inputs and outputs of both kinds are
-- written.
pub process_all_lem :
    (sender : ℕ) (inputs outputs locked_outputs : List ℕ) (inputs_locked : Bool)
    (s a b t : BaseStorage) (x : ℕ)
    → process_inputs sender inputs inputs_locked s ≡ ok a
    → process_outputs sender outputs a ≡ ok b
    → process_locked_outputs sender locked_outputs b ≡ ok t
    → (x == 0) ≡ false
    → (t.utxos x ≡ (
        if mem x outputs
        then unspent
        else if mem x inputs && not inputs_locked
        then spent_utxo
        else s.utxos x))
      × (t.locked_utxos x ≡ (
          if mem x locked_outputs
          then unspent
          else if mem x inputs && inputs_locked
          then spent_utxo
          else s.locked_utxos x))
unfolding process_inputs process_outputs process_locked_outputs only_zeto
process_all_lem sender inputs outputs locked_outputs true s a b t x ha hb ht nz = (
  ground (arith, set_all_lem outputs unspent a.utxos x),
  ground (
    arith,
    set_all_lem inputs spent_utxo s.locked_utxos x,
    set_all_lem locked_outputs unspent b.locked_utxos x,
  ),
)
process_all_lem sender inputs outputs locked_outputs false s a b t x ha hb ht nz = (
  ground (arith, set_all_lem inputs spent_utxo s.utxos x, set_all_lem outputs unspent a.utxos x),
  ground (arith, set_all_lem locked_outputs unspent b.locked_utxos x),
)

-- The same after outputs alone.
pub process_outputs_lem :
    (sender : ℕ) (outputs : List ℕ) (s t : BaseStorage) (x : ℕ)
    → process_outputs sender outputs s ≡ ok t
    → (x == 0) ≡ false
    → (t.utxos x ≡ (if mem x outputs then unspent else s.utxos x))
      × (t.locked_utxos x ≡ s.locked_utxos x)
unfolding process_outputs only_zeto
process_outputs_lem sender outputs s t x h nz =
    (ground (arith, set_all_lem outputs unspent s.utxos x), ground arith)
