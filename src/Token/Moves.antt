-- ===== src/Token/Moves.antt =====
-- What a call of the non-fungible token does to one UTXO.
use zeto.Base.{
  ℕ, ◌≡◌, ◌≢◌, ◌∙◌, Bool, true, false, ◌||◌, ◌&&◌, not, List, [], ◌∷◌, ◌++◌, ◌==◌, if◌then◌else◌,
  ok, >>=-eq-ok, arith,
}
use zeto.Storage.{BaseStorage, unknown, unspent, spent_utxo, spent, locked, validate_outputs}
use zeto.Storage.Checked.{mem, mem-append, validated_input, validated_unlocked, validated_output}
use zeto.Storage.Forward.{process_all_lem, process_outputs_lem}
use zeto.Token.{mint, transact, transfer, do_lock_transition, transfer_locked}
use zeto.Token.Spending.{
  transact_parts, do_lock_transition-transact, transfer_locked-transact, transfer-transact,
}

-- What a call of the token does to one UTXO: whether it is an output o, a locked output k or an input
-- i, of locked inputs if l.
pub record Moved (o k i l : Bool) (s t : BaseStorage) (x : ℕ) : Type 0 where
  pub now : t.utxos x ≡ (if o then unspent else if i && not l then spent_utxo else s.utxos x)
  pub now_locked :
      t.locked_utxos x ≡ (if k then unspent else if i && l then spent_utxo else s.locked_utxos x)
  pub old : i ≡ true → spent s x ≡ unspent
  pub free : i ≡ true → l ≡ false → locked s x ≡ false
  pub new : (o || k) ≡ true → spent s x ≡ unknown

-- `Arrays.sort` keeps the elements.
module _ (sort : List ℕ → List ℕ) (sort_keeps : (xs : List ℕ) (x : ℕ) → mem x (sort xs) ≡ mem x xs)
    (token : ℕ) where
  pub transact-Moved :
      (inputs outputs locked_outputs : List ℕ) (inputs_locked accepted : Bool) (s t : BaseStorage)
      (x : ℕ)
      → transact sort token inputs outputs locked_outputs inputs_locked accepted s ≡ ok t
      → x ≢ 0
      → Moved (mem x outputs) (mem x locked_outputs) (mem x inputs) inputs_locked s t x
  transact-Moved inputs outputs locked_outputs inputs_locked accepted s t x h nz =
      let (vi, vo, a, b, ha, hb, ht) =
        transact_parts sort sort_keeps token inputs outputs locked_outputs inputs_locked accepted s
          t h in
      let not_zero : (x == 0) ≡ false = ground arith in
      let (now, now_locked) =
        process_all_lem token inputs outputs locked_outputs inputs_locked s a b t x ha hb ht
          not_zero in
      let all = mem-append x outputs locked_outputs in
      record {
        now = now;
        now_locked = now_locked;
        old = λ m. validated_input sort sort_keeps inputs inputs_locked s x vi m nz;
        free = λ m e. validated_unlocked sort sort_keeps inputs s x (rw e at vi) m nz;
        new = λ m. validated_output sort sort_keeps (outputs ++ locked_outputs) s x vo (all ∙ m) nz;
      }

  pub mint-Moved :
      (utxos : List ℕ) (s t : BaseStorage) (x : ℕ)
      → mint sort token utxos s ≡ ok t
      → x ≢ 0
      → Moved (mem x utxos) false false false s t x
  unfolding mint
  mint-Moved utxos s t x h nz =
      let (u, vo, ho) = >>=-eq-ok (validate_outputs sort utxos s) _ h in
      let not_zero : (x == 0) ≡ false = ground arith in
      let (now, now_locked) = process_outputs_lem token utxos s t x ho not_zero in
      record {
        now = now;
        now_locked = now_locked;
        old = λ m. absurd (ground arith);
        free = λ m e. absurd (ground arith);
        new = λ m. validated_output sort sort_keeps utxos s x vo (ground (arith, m)) nz;
      }

  pub do_lock_transition-Moved :
      (inputs outputs locked_outputs : List ℕ) (accepted : Bool) (s t : BaseStorage) (x : ℕ)
      → do_lock_transition sort token inputs outputs locked_outputs accepted s ≡ ok t
      → x ≢ 0
      → Moved (mem x outputs) (mem x locked_outputs) (mem x inputs) false s t x
  do_lock_transition-Moved inputs outputs locked_outputs accepted s t x h nz =
      transact-Moved inputs outputs locked_outputs false accepted s t x
        (do_lock_transition-transact sort sort_keeps token inputs outputs locked_outputs accepted s
          t h)
        nz

  pub transfer_locked-Moved :
      (inputs locked_outputs outputs : List ℕ) (accepted : Bool) (s t : BaseStorage) (x : ℕ)
      → transfer_locked sort token inputs locked_outputs outputs accepted s ≡ ok t
      → x ≢ 0
      → Moved (mem x outputs) (mem x locked_outputs) (mem x inputs) true s t x
  transfer_locked-Moved inputs locked_outputs outputs accepted s t x h nz =
      transact-Moved inputs outputs locked_outputs true accepted s t x
        (transfer_locked-transact sort sort_keeps token inputs locked_outputs outputs accepted s t
          h)
        nz

  pub transfer-Moved :
      (input output : ℕ) (accepted : Bool) (s t : BaseStorage) (x : ℕ)
      → transfer sort token input output accepted s ≡ ok t
      → x ≢ 0
      → Moved (mem x (output ∷ [])) false (mem x (input ∷ [])) false s t x
  transfer-Moved input output accepted s t x h nz =
      transact-Moved (input ∷ []) (output ∷ []) [] false accepted s t x
        (transfer-transact sort sort_keeps token input output accepted s t h) nz
