-- ===== src/Circuits/Exact.antt =====
-- The signals that satisfy the templates, without the templates of circomlib.
use zeto.Base.{
  ℕ, ◌%◌, ◌<◌, ◌≡◌, ◌↔◌, ◌⊎◌, refl, true, ◌&&◌, Bool-cases, inl, inr, sym, some, List, [], ◌∷◌,
  length, replicate, All, arith,
}
use zeto.Field.{F}
use zeto.Circuits.{Circomlib, commitment_inputs, nullifier_of, check_nullifiers, minus, sum_from}
use zeto.Circuits.Tokens.{
  TransferSignals, check_commitments, zeto_anon_template, withdraw_template, check_enough,
}
use zeto.Circuits.Sums.{
  CircomlibLaws, sum, max_value, check_positive_iff, check_sum_iff, is_one-some,
}
use zeto.Circuits.Hashes.{
  AreOpened, check_commitments-Checked, Checked-check_commitments, check_hash_iff, check_hashes_iff,
}

module _ (lib : Circomlib) where
  -- What transfers and withdrawals have in common: the arrays have their sizes, the private key has a
  -- public one, the outputs' values lie in the range, each input commitment is zero or the hash of its
  -- value and salt for the owner of the private key, and each output commitment is zero or the hash of
  -- its value, salt and key.
  pub record Opened (n_inputs n_outputs : ℕ) (s : TransferSignals) : Type 0 where
    pub inputs_sized :
        (length s.input_commitments ≡ n_inputs)
        × (length s.input_values ≡ n_inputs)
        × (length s.input_salts ≡ n_inputs)
    pub outputs_sized :
        (length s.output_commitments ≡ n_outputs)
        × (length s.output_values ≡ n_outputs)
        × (length s.output_salts ≡ n_outputs)
        × (length s.output_owner_public_keys ≡ n_outputs)
    pub key : ℕ × ℕ
    pub owned : lib.baby_pbk s.input_owner_private_key ≡ some key
    pub ranged : All (λ x. x < max_value) s.output_values
    pub inputs_opened :
        AreOpened lib s.input_commitments
          (commitment_inputs s.input_values s.input_salts (replicate n_inputs key))
    pub outputs_opened :
        AreOpened lib s.output_commitments
          (commitment_inputs s.output_values s.output_salts s.output_owner_public_keys)

  -- The signals that a statement is about are field elements.
  pub record IsField (s : TransferSignals) : Type 0 where
    pub inputs : All (λ x. x < F) s.input_commitments
    pub outputs : All (λ x. x < F) s.output_commitments
    pub values : All (λ x. x < F) s.output_values

  -- Each nullifier is zero or the hash that belongs to it.
  abbrev pub AreNullified : List ℕ → List ℕ → List ℕ → ℕ → Type 0
  AreNullified [] [] [] k = Unit
  AreNullified (n ∷ nullifiers) (v ∷ values) (s ∷ salts) k =
      ((n ≡ 0) ⊎ (n ≡ nullifier_of lib v s k)) × AreNullified nullifiers values salts k
  AreNullified _ _ _ k = ⊥

  module _ (laws : CircomlibLaws lib) where
    pub check_commitments_iff :
        (n_inputs n_outputs : ℕ) (s : TransferSignals)
        → IsField s
        → (check_commitments lib n_inputs n_outputs s ≡ true) ↔ Opened n_inputs n_outputs s
    check_commitments_iff n m s f = (
      λ h.
          let c = check_commitments-Checked lib n m s h in
          record {
            inputs_sized = c.inputs_sized;
            outputs_sized = c.outputs_sized;
            key = c.key;
            owned = c.owned;
            ranged = (check_positive_iff lib laws s.output_values f.values).0 c.positive;
            inputs_opened =
                (check_hashes_iff lib laws s.input_commitments _ f.inputs).0 c.inputs_hashed;
            outputs_opened =
                (check_hashes_iff lib laws s.output_commitments _ f.outputs).0 c.outputs_hashed;
          },
      λ o. Checked-check_commitments lib n m s (record {
        inputs_sized = o.inputs_sized;
        outputs_sized = o.outputs_sized;
        key = o.key;
        owned = o.owned;
        positive = (check_positive_iff lib laws s.output_values f.values).1 o.ranged;
        inputs_hashed =
            (check_hashes_iff lib laws s.input_commitments _ f.inputs).1 o.inputs_opened;
        outputs_hashed =
            (check_hashes_iff lib laws s.output_commitments _ f.outputs).1 o.outputs_opened;
      }),
    )

    -- Signals that are field elements satisfy the circuit of transfers exactly when the arrays have their
    -- sizes, the private key has a public one, the outputs' values lie in the range, each commitment is
    -- zero or the hash that belongs to it, and the sums of the values agree modulo F.
    pub zeto_anon_template_iff :
        (n_inputs n_outputs : ℕ) (s : TransferSignals)
        → IsField s
        → (zeto_anon_template lib n_inputs n_outputs s ≡ true)
          ↔ (Opened n_inputs n_outputs s × ((sum s.input_values % F) ≡ (sum s.output_values % F)))
    unfolding zeto_anon_template
    zeto_anon_template_iff n m s f =
        let (a, b) = check_commitments_iff n m s f in
        let (c, d) = check_sum_iff lib laws s.input_values s.output_values in
        (λ h. (a (ground arith), c (ground arith)), λ (o, e). rw (b o) (d e))

    check_enough_iff :
        (xs ys : List ℕ)
        → (check_enough lib xs ys ≡ true) ↔ (minus (sum_from 0 xs) (sum_from 0 ys) < max_value)
    unfolding check_enough
    check_enough_iff xs ys =
        let (f, g) = is_one-some (lib.greater_eq_than 100 (sum_from 0 xs) (sum_from 0 ys)) in
        let (h, k) = laws.greater_eq_than_lem 100 (sum_from 0 xs) (sum_from 0 ys) (omega arith) in
        (λ e. h (f e), λ e. g (k e))

    -- Signals that are field elements satisfy the circuit of withdrawals, with an output, exactly when
    -- they do what those of transfers have in common, and the difference of the sums, which is the
    -- output, lies in the range.
    pub withdraw_template_iff :
        (n_inputs n_outputs : ℕ) (s : TransferSignals) (out : ℕ)
        → IsField s
        → (withdraw_template lib n_inputs n_outputs s ≡ some out) ↔ (
            Opened n_inputs n_outputs s
            × (minus (sum_from 0 s.input_values) (sum_from 0 s.output_values) ≡ out)
            × (out < max_value))
    unfolding withdraw_template
    withdraw_template_iff n m s out f =
        let (a, b) = check_commitments_iff n m s f in
        let (c, d) = check_enough_iff s.input_values s.output_values in
        let paid = minus (sum_from 0 s.input_values) (sum_from 0 s.output_values) in
        (
          λ h.
              elim (Bool-cases
                (check_commitments lib n m s && check_enough lib s.input_values s.output_values)) [
                  | inl e ↦
                      let same : paid ≡ out = ground arith in
                      (a (ground arith), same, rw (sym same) (c (ground arith)))
                  | inr e ↦ absurd (ground arith)
                ],
          λ (o, same, small). ground (arith, b o, d (rw same small), same),
        )

    pub check_nullifiers_iff :
        (nullifiers values salts : List ℕ) (k : ℕ)
        → All (λ x. x < F) nullifiers
        → (check_nullifiers lib nullifiers values salts k ≡ true)
          ↔ AreNullified nullifiers values salts k
    unfolding check_nullifiers nullifier_of
    check_nullifiers_iff [] [] [] k b = (λ h. tt, λ h. refl)
    check_nullifiers_iff [] [] (s ∷ salts) k b = (λ h. ground arith, λ h. absurd h)
    check_nullifiers_iff [] (v ∷ values) salts k b = (λ h. ground arith, λ h. absurd h)
    check_nullifiers_iff (n ∷ ns) [] salts k b = (λ h. ground arith, λ h. absurd h)
    check_nullifiers_iff (n ∷ ns) (v ∷ values) [] k b = (λ h. ground arith, λ h. absurd h)
    check_nullifiers_iff (n ∷ ns) (v ∷ values) (s ∷ salts) k (b, bs) =
        let (f, g) =
          check_hash_iff lib laws n (nullifier_of lib v s k) b
            (laws.poseidon_lt (v ∷ s ∷ k ∷ [])) in
        let (fs, gs) = check_nullifiers_iff ns values salts k bs in
        (λ e. (f (ground arith), fs (ground arith)), λ (e, es). rw (g e) (gs es))
