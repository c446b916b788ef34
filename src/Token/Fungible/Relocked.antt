-- ===== src/Token/Fungible/Relocked.antt =====
-- Locked outputs of a call that unlocks.
use zeto.Base.{
  ℕ, ◌≡◌, ◌≢◌, refl, sym, Bool, true, Bool-cases, inl, inr, ◌||◌, Option, List, ◌++◌, length,
  replicate, ltb, ◌-◌, if◌then◌else◌, Result, ok, err, >>=-eq-ok, ok-injective, arith,
}
use zeto.Storage.{locked, process_locked_outputs as base_process_locked_outputs}
use zeto.Storage.Checked.{mem, mem-append}
use zeto.Storage.Nullifier.{
  SmtLib, NullifierStorage, lift_base, add_leaves, process_inputs, process_outputs,
  process_locked_outputs,
}
use zeto.Storage.Nullifier.Kept.{
  SmtLibLaws, add_leaves_lem, base_locked_outputs_kept, lift_base-eq-ok,
}
use zeto.Storage.{only_zeto}
use zeto.Token.Fungible.{
  Circuit, transfer_circuit, with_storage, pad_uint_array, max_batch, check_and_pad_commitments,
  require_proof, validate_transaction_proposal, process_inputs_and_outputs, transfer_locked,
  nullifier_storage,
}

with_storage-eq-ok : {E A : Type 0} (r : Result E A) {a : A} → with_storage r ≡ ok a → r ≡ ok a
unfolding with_storage
with_storage-eq-ok (ok b) h = cc
with_storage-eq-ok (err e) h = cc

mem-pad_uint_array : (xs : List ℕ) (n x : ℕ) → mem x xs ≡ true → mem x (pad_uint_array xs n) ≡ true
unfolding pad_uint_array
mem-pad_uint_array xs n x m = ground (arith, mem-append x xs (replicate (n - length xs) 0), m)

mem-check_and_pad_commitments :
    {E : Type 0} (inputs outputs : List ℕ) (padded : List ℕ × List ℕ) (x : ℕ)
    → check_and_pad_commitments {E = E} inputs outputs ≡ ok padded
    → mem x outputs ≡ true
    → mem x padded.1 ≡ true
unfolding check_and_pad_commitments
mem-check_and_pad_commitments inputs outputs padded x h m =
    let len = if ltb (length outputs) (length inputs) then length inputs else length outputs in
    elim (Bool-cases (ltb max_batch len)) [
      | inl e ↦ absurd (ground arith)
      | inr e ↦
          rw (sym (ok-injective (rw e at h)))
            (mem-pad_uint_array outputs (if ltb 2 len then max_batch else 2) x m)
    ]

module _ (smt : SmtLib) (laws : SmtLibLaws smt) (sort : List ℕ → List ℕ) (token : ℕ) where
  output_in_tree :
      (outputs : List ℕ) (s t : NullifierStorage smt) (x : ℕ)
      → process_outputs smt token outputs s ≡ ok t
      → x ≢ 0
      → mem x outputs ≡ true
      → smt.leaf_exists t.commitments_tree x ≡ true
  unfolding process_outputs
  output_in_tree outputs s t x h nz m =
      let (_, mine, h₁) = >>=-eq-ok (lift_base (only_zeto token s.base tt)) _ h in
      let (tree, added, h₂) = >>=-eq-ok (add_leaves smt outputs s.commitments_tree) _ h₁ in
      let (roots, leaves, new) = add_leaves_lem smt laws outputs s.commitments_tree tree added in
      rw (sym (ok-injective h₂)) (new x nz m)

  locked_output_locked :
      (outputs : List ℕ) (s t : NullifierStorage smt) (x : ℕ)
      → process_locked_outputs smt token outputs s ≡ ok t
      → x ≢ 0
      → mem x outputs ≡ true
      → (t.commitments_tree ≡ s.commitments_tree) × (locked t.base x ≡ true)
  unfolding process_locked_outputs
  locked_output_locked outputs s t x h nz m =
      let (b, moved, h₁) =
        >>=-eq-ok (lift_base (base_process_locked_outputs token outputs s.base)) _ h in
      let done = lift_base-eq-ok (base_process_locked_outputs token outputs s.base) moved in
      rw (sym (ok-injective h₁))
        (refl, (base_locked_outputs_kept smt laws token outputs s.base b x done).1 nz m)

  module _ {Proof Erc20 : Type 0}
      (verify : NullifierStorage smt → Circuit → ℕ → List ℕ → List ℕ → Proof → Bool)
      (safe_transfer_from safe_transfer : ℕ → ℕ → Erc20 → Option Erc20) where
    -- In a fungible token with nullifiers, a locked output other than zero of a call that moves locked
    -- inputs stands, after the call, in the record of locked UTXOs and also in the tree of commitments,
    -- from which unlocked UTXOs are spent by a nullifier. The tree is assumed to grow only.
    pub relocked_in_tree :
        (inputs locked_outputs outputs : List ℕ) (proof : Proof) (s t : NullifierStorage smt)
        (x : ℕ)
        → transfer_locked
            (nullifier_storage sort token smt)
            verify
            safe_transfer_from
            safe_transfer
            inputs
            locked_outputs
            outputs
            proof
            s
          ≡ ok t
        → x ≢ 0
        → mem x locked_outputs ≡ true
        → (locked t.base x ≡ true) × (smt.leaf_exists t.commitments_tree x ≡ true)
    unfolding transfer_locked process_inputs_and_outputs
    relocked_in_tree inputs locked_outputs outputs proof s t x h nz m =
        let all = locked_outputs ++ outputs in
        let storage = nullifier_storage sort token smt in
        let (_, valid, h₁) =
          >>=-eq-ok
            (validate_transaction_proposal storage verify safe_transfer_from safe_transfer inputs
              outputs locked_outputs true s)
            _ h in
        let (padded, fits, h₂) = >>=-eq-ok (check_and_pad_commitments inputs all) _ h₁ in
        let (_, verified, h₃) =
          >>=-eq-ok
            (require_proof storage verify safe_transfer_from safe_transfer (
              verify s (transfer_circuit (ltb 2 (length inputs) || ltb 2 (length all)) true) 0
                padded.0 padded.1 proof))
            _ h₂ in
        let (b, moved, h₄) =
          >>=-eq-ok
            (process_inputs_and_outputs storage verify safe_transfer_from safe_transfer padded.0
              padded.1 true s)
            _ h₃ in
        let (a, taken, h₅) =
          >>=-eq-ok (with_storage (process_inputs smt token padded.0 true s)) _ moved in
        let (same, held) =
          locked_output_locked locked_outputs b t x
            (with_storage-eq-ok (process_locked_outputs smt token locked_outputs b) h₄) nz m in
        let among : mem x all ≡ true = ground (arith, mem-append x locked_outputs outputs, m) in
        (
          held,
          rw same (
              output_in_tree padded.1 a b x
                (with_storage-eq-ok (process_outputs smt token padded.1 a) h₅) nz
                (mem-check_and_pad_commitments inputs all padded x fits among)),
        )
