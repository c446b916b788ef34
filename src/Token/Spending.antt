-- ===== src/Token/Spending.antt =====
-- A UTXO of a non-fungible token is spent once.
use zeto.Base.{
  ℕ, ◌≡◌, ◌≢◌, Bool, true, false, ◌||◌, Bool-cases, inl, inr, List, [], ◌∙◌, ◌∷◌, ◌++◌, ◌==◌,
  if◌then◌else◌, Result-cases, ok, >>=-eq-ok, arith,
}
use zeto.Storage.{
  BaseStorage, unknown, unspent, spent_utxo, spent, validate_inputs, validate_outputs,
  process_inputs, process_outputs, process_locked_outputs, only_zeto, set_all,
}
use zeto.Storage.Checked.{mem, mem-append, validated_input, validated_output}
use zeto.Storage.Forward.{spent-process_inputs, spent-process_outputs, spent-process_locked_outputs}
use zeto.Token.{
  verify_proof, validate_transaction_proposal, process_inputs_and_outputs, mint, transact, transfer,
  do_lock_transition, transfer_locked, Call, call_mint, call_transfer, call_lock,
  call_transfer_locked, run, history,
}

abbrev pub inputs_of : Call → List ℕ
inputs_of (call_mint utxos) = []
inputs_of (call_transfer input output accepted) = input ∷ []
inputs_of (call_lock inputs outputs locked_outputs accepted) = inputs
inputs_of (call_transfer_locked locked_inputs locked_outputs outputs accepted) = locked_inputs

abbrev pub outputs_of : Call → List ℕ
outputs_of (call_mint utxos) = utxos
outputs_of (call_transfer input output accepted) = output ∷ []
outputs_of (call_lock inputs outputs locked_outputs accepted) = outputs ++ locked_outputs
outputs_of (call_transfer_locked locked_inputs locked_outputs outputs accepted) =
    outputs ++ locked_outputs

-- What a call that goes through tells of a UTXO x: an input was unspent and is spent after it, an
-- output was unknown, and what was spent is spent.
record Effect (c : Call) (s t : BaseStorage) (x : ℕ) : Type 0 where
  used : mem x (inputs_of c) ≡ true → (spent s x ≡ unspent) × (spent t x ≡ spent_utxo)
  made : mem x (outputs_of c) ≡ true → spent s x ≡ unknown
  kept : spent s x ≡ spent_utxo → spent t x ≡ spent_utxo

-- `Arrays.sort` keeps the elements.
module _ (sort : List ℕ → List ℕ) (sort_keeps : (xs : List ℕ) (x : ℕ) → mem x (sort xs) ≡ mem x xs)
    (token : ℕ) where
  pub transact_parts :
      (inputs outputs locked_outputs : List ℕ) (inputs_locked accepted : Bool) (s t : BaseStorage)
      → transact sort token inputs outputs locked_outputs inputs_locked accepted s ≡ ok t
      → (validate_inputs sort inputs inputs_locked s ≡ ok tt)
        × (validate_outputs sort (outputs ++ locked_outputs) s ≡ ok tt)
        × (a b : BaseStorage) × (process_inputs token inputs inputs_locked s ≡ ok a)
        × (process_outputs token outputs a ≡ ok b)
        × (process_locked_outputs token locked_outputs b ≡ ok t)
  unfolding transact validate_transaction_proposal process_inputs_and_outputs
  transact_parts inputs outputs locked_outputs inputs_locked accepted s t h =
      let (u, checked, h₁) =
        >>=-eq-ok
          (validate_transaction_proposal sort token inputs outputs locked_outputs inputs_locked s) _
          h in
      let (v, vi, vo) = >>=-eq-ok (validate_inputs sort inputs inputs_locked s) _ checked in
      let (w, verified, h₂) = >>=-eq-ok (verify_proof accepted) _ h₁ in
      let (b, moved, ht) =
        >>=-eq-ok (process_inputs_and_outputs sort token inputs outputs inputs_locked s) _ h₂ in
      let (a, ha, hb) = >>=-eq-ok (process_inputs token inputs inputs_locked s) _ moved in
      (vi, vo, a, b, ha, hb, ht)

  module _ (inputs outputs locked_outputs : List ℕ) (inputs_locked accepted : Bool)
      (s t : BaseStorage) (x : ℕ) (nz : x ≢ 0)
      (h : transact sort token inputs outputs locked_outputs inputs_locked accepted s ≡ ok t) where
    transact_uses :
        (mem x inputs ≡ true → (spent s x ≡ unspent) × (spent t x ≡ spent_utxo))
        × (mem x (outputs ++ locked_outputs) ≡ true → spent s x ≡ unknown)
        × (spent s x ≡ spent_utxo → spent t x ≡ spent_utxo)
    transact_uses =
        let (vi, vo, a, b, ha, hb, ht) =
          transact_parts inputs outputs locked_outputs inputs_locked accepted s t h in
        let not_zero : (x == 0) ≡ false = ground arith in
        let old : mem x inputs ≡ true → spent s x ≡ unspent =
          λ m. validated_input sort sort_keeps inputs inputs_locked s x vi m nz in
        let new : mem x (outputs ++ locked_outputs) ≡ true → spent s x ≡ unknown =
          λ m. validated_output sort sort_keeps (outputs ++ locked_outputs) s x vo m nz in
        let after : mem x (outputs ++ locked_outputs) ≡ false
            → spent t x ≡ (if mem x inputs then spent_utxo else spent s x) =
          λ m. ground (
            arith,
            spent-process_locked_outputs token locked_outputs b t x ht,
            spent-process_outputs token outputs a b x hb,
            spent-process_inputs token inputs inputs_locked s a x ha,
            mem-append x outputs locked_outputs,
          ) in
        elim (Bool-cases (mem x (outputs ++ locked_outputs))) [
          | inl m ↦
              (λ i. absurd (ground (arith, old i, new m)), new, λ e. absurd (ground (arith, new m)))
          | inr m ↦ (λ i. ground (arith, old i, after m), new, λ e. ground (arith, after m))
        ]

  pub no_locked_outputs :
      (outputs : List ℕ) (a t : BaseStorage)
      → process_outputs token outputs a ≡ ok t
      → process_locked_outputs token [] t ≡ ok t
  unfolding process_outputs process_locked_outputs only_zeto set_all
  no_locked_outputs outputs a t h = ground arith

  pub do_lock_transition-transact :
      (inputs outputs locked_outputs : List ℕ) (accepted : Bool) (s t : BaseStorage)
      → do_lock_transition sort token inputs outputs locked_outputs accepted s ≡ ok t
      → transact sort token inputs outputs locked_outputs false accepted s ≡ ok t
  unfolding do_lock_transition
  do_lock_transition-transact inputs outputs locked_outputs accepted s t h = ground arith

  pub transfer_locked-transact :
      (inputs locked_outputs outputs : List ℕ) (accepted : Bool) (s t : BaseStorage)
      → transfer_locked sort token inputs locked_outputs outputs accepted s ≡ ok t
      → transact sort token inputs outputs locked_outputs true accepted s ≡ ok t
  unfolding transfer_locked
  transfer_locked-transact inputs locked_outputs outputs accepted s t h = ground arith

  pub transfer-transact :
      (input output : ℕ) (accepted : Bool) (s t : BaseStorage)
      → transfer sort token input output accepted s ≡ ok t
      → transact sort token (input ∷ []) (output ∷ []) [] false accepted s ≡ ok t
  unfolding transfer transact
  transfer-transact input output accepted s t h =
      let (u, checked, h₁) =
        >>=-eq-ok (validate_transaction_proposal sort token (input ∷ []) (output ∷ []) [] false s) _
          h in
      let (w, verified, moved) = >>=-eq-ok (verify_proof accepted) _ h₁ in
      let (a, taken, given) = >>=-eq-ok (process_inputs token (input ∷ []) false s) _ moved in
      rw (checked, verified, moved) (no_locked_outputs (output ∷ []) a t given)

  mint-Effect :
      (utxos : List ℕ) (s t : BaseStorage) (x : ℕ)
      → x ≢ 0
      → mint sort token utxos s ≡ ok t
      → Effect (call_mint utxos) s t x
  unfolding mint
  mint-Effect utxos s t x nz h =
      let (u, vo, ho) = >>=-eq-ok (validate_outputs sort utxos s) _ h in
      let new : mem x utxos ≡ true → spent s x ≡ unknown =
        λ m. validated_output sort sort_keeps utxos s x vo m nz in
      record {
        used = λ m. absurd (ground arith);
        made = new;
        kept = λ e. elim (Bool-cases (mem x utxos)) [
          | inl m ↦ absurd (ground (arith, new m))
          | inr m ↦ spent-process_outputs token utxos s t x ho (ground arith) ∙ e
        ];
      }

  effect :
      (c : Call) (s t : BaseStorage) (x : ℕ) → x ≢ 0 → run sort token c s ≡ ok t → Effect c s t x
  unfolding run
  effect (call_mint utxos) s t x nz h = mint-Effect utxos s t x nz h
  effect (call_transfer input output accepted) s t x nz h =
      let (used, made, kept) =
        transact_uses (input ∷ []) (output ∷ []) [] false accepted s t x nz
          (transfer-transact input output accepted s t h) in
      record { used = used; made = made; kept = kept }
  effect (call_lock inputs outputs locked_outputs accepted) s t x nz h =
      let (used, made, kept) =
        transact_uses inputs outputs locked_outputs false accepted s t x nz
          (do_lock_transition-transact inputs outputs locked_outputs accepted s t h) in
      record { used = used; made = made; kept = kept }
  effect (call_transfer_locked inputs locked_outputs outputs accepted) s t x nz h =
      let (used, made, kept) =
        transact_uses inputs outputs locked_outputs true accepted s t x nz
          (transfer_locked-transact inputs locked_outputs outputs accepted s t h) in
      record { used = used; made = made; kept = kept }

  spent-history :
      (cs : List Call) (s : BaseStorage) (x : ℕ)
      → x ≢ 0
      → spent s x ≡ spent_utxo
      → spent (history sort token cs s) x ≡ spent_utxo
  unfolding history
  spent-history [] s x nz e = e
  spent-history (c ∷ cs) s x nz e = elim (Result-cases (run sort token c s)) [
    | inl (t, h) ↦ rw h (spent-history cs t x nz ((effect c s t x nz h).kept e))
    | inr (f, h) ↦ rw h (spent-history cs s x nz e)
  ]

  -- A UTXO other than zero that is an input of a call that goes through was unspent before it, and
  -- after any further calls no call that has it as an input or as an output goes through. The sort is
  -- assumed to keep the elements.
  pub no_double_spend :
      (c : Call) (s t : BaseStorage) (x : ℕ) (cs : List Call) (d : Call)
      → run sort token c s ≡ ok t
      → x ≢ 0
      → mem x (inputs_of c) ≡ true
      → (mem x (inputs_of d) || mem x (outputs_of d)) ≡ true
      → (spent s x ≡ unspent)
        × ((u : BaseStorage) → run sort token d (history sort token cs t) ≢ ok u)
  no_double_spend c s t x cs d h nz used again =
      let (before, gone) = (effect c s t x nz h).used used in
      let still = spent-history cs t x nz gone in
      (
        before,
        λ u e.
            let next = effect d (history sort token cs t) u x nz e in
            elim (Bool-cases (mem x (inputs_of d))) [
              | inl m ↦ absurd (ground (arith, next.used m))
              | inr m ↦ absurd (ground (arith, next.made (ground arith)))
            ],
      )
