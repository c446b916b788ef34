-- ===== src/Circuits/Inflation.antt =====
-- Transfers whose inputs are all commitments of zero, whose values and salts
-- zkp/circuits/lib/check-hashes.circom hashes for nothing.
use zeto.Base.{
  ℕ, zero, suc, ◌<◌, ◌≡◌, refl, ap, subst, true, ◌&&◌, Bool-cases, inl, inr, some, List, [], ◌∷◌,
  length, length-replicate, replicate, All, arith,
}
use zeto.Field.{F}
use zeto.Circuits.{
  Circomlib, CommitmentInputs, commitment_inputs, sum_from, check_positive, check_hashes, check_sum,
}
use zeto.Circuits.Tokens.{
  TransferSignals, DepositSignals, has_size, zeto_anon_template, deposit_template,
}
use zeto.Circuits.Sums.{CircomlibLaws, sum, sum_from-mod, check_sum_iff}
use zeto.Circuits.Hashes.{AreOpened, Checked, Checked-check_commitments, check_hashes_iff, sized}

-- The signals: the first input has the whole amount for its value.
abbrev pub conjured : ℕ → ℕ → ℕ → DepositSignals → TransferSignals
conjured n private_key amount o = record {
  input_commitments = replicate (suc n) 0;
  input_values = amount ∷ replicate n 0;
  input_salts = replicate (suc n) 0;
  input_owner_private_key = private_key;
  output_commitments = o.output_commitments;
  output_values = o.output_values;
  output_salts = o.output_salts;
  output_owner_public_keys = o.output_owner_public_keys;
}

sum-replicate : (n : ℕ) → sum (replicate n 0) ≡ 0
sum-replicate zero = refl
sum-replicate (suc n) = omega (arith, sum-replicate n)

length-commitment_inputs :
    (values salts : List ℕ) (keys : List (ℕ × ℕ))
    → length salts ≡ length values
    → length keys ≡ length values
    → length (commitment_inputs values salts keys) ≡ length values
unfolding commitment_inputs
length-commitment_inputs [] salts keys es ek = refl
length-commitment_inputs (v ∷ values) [] keys es ek = absurd (omega arith)
length-commitment_inputs (v ∷ values) (s ∷ salts) [] es ek = absurd (omega arith)
length-commitment_inputs (v ∷ values) (s ∷ salts) (k ∷ keys) es ek =
    omega (arith, length-commitment_inputs values salts keys (omega arith) (omega arith))

zeros_small : (n : ℕ) → All (λ h. h < F) (replicate n 0)
zeros_small zero = tt
zeros_small (suc n) = (omega arith, zeros_small n)

-- What a deposit's circuit has made sure of.
record Deposited (lib : Circomlib) (m : ℕ) (o : DepositSignals) (amount : ℕ) : Type 0 where
  sizes :
      (length o.output_commitments ≡ m)
      × (length o.output_values ≡ m)
      × (length o.output_salts ≡ m)
      × (length o.output_owner_public_keys ≡ m)
  positive : check_positive lib o.output_values ≡ true
  hashed :
      check_hashes lib o.output_commitments
        (commitment_inputs o.output_values o.output_salts o.output_owner_public_keys)
      ≡ true
  total : sum_from 0 o.output_values ≡ amount

module _ (lib : Circomlib) where
  zeros_opened : (cs : List CommitmentInputs) → AreOpened lib (replicate (length cs) 0) cs
  zeros_opened [] = tt
  zeros_opened (c ∷ cs) = (inl refl, zeros_opened cs)

  deposit_template-Deposited :
      (m : ℕ) (o : DepositSignals) (amount : ℕ)
      → deposit_template lib m o ≡ some amount
      → Deposited lib m o amount
  unfolding deposit_template
  deposit_template-Deposited m o amount h =
      elim (Bool-cases (
        has_size m o.output_commitments
        && has_size m o.output_values
        && has_size m o.output_salts
        && has_size m o.output_owner_public_keys
        && check_positive lib o.output_values
        && check_hashes lib o.output_commitments
            (commitment_inputs o.output_values o.output_salts o.output_owner_public_keys))) [
              | inl e ↦ record {
                sizes = (
                  (sized m o.output_commitments).0 (ground arith),
                  (sized m o.output_values).0 (ground arith),
                  (sized m o.output_salts).0 (ground arith),
                  (sized m o.output_owner_public_keys).0 (ground arith),
                );
                positive = ground arith;
                hashed = ground arith;
                total = ground arith;
              }
              | inr e ↦ absurd (ground arith)
            ]

  -- Whatever outputs and amount satisfy the circuit of deposits, and whoever's private key is taken, there
  -- are signals that satisfy the circuit of transfers with these outputs and nothing but commitments of
  -- zero for inputs. A transfer makes the amount from nothing.
  pub free_transfer :
      (laws : CircomlibLaws lib) (n m private_key : ℕ) (key : ℕ × ℕ) (o : DepositSignals)
      (amount : ℕ)
      → lib.baby_pbk private_key ≡ some key
      → deposit_template lib m o ≡ some amount
      → zeto_anon_template lib (suc n) m (conjured n private_key amount o) ≡ true
  unfolding zeto_anon_template
  free_transfer laws n m private_key key o amount owned h =
      let s = conjured n private_key amount o in
      let d = deposit_template-Deposited m o amount h in
      let cs = commitment_inputs s.input_values s.input_salts (replicate (suc n) key) in
      let long : length cs ≡ suc n = omega (
        arith,
        length-replicate {A = ℕ} n 0,
        length-replicate n key,
        length-commitment_inputs s.input_values s.input_salts (replicate (suc n) key)
            (omega (arith, length-replicate {A = ℕ} n 0))
            (omega (arith, length-replicate {A = ℕ} n 0, length-replicate n key)),
      ) in
      let checked : Checked lib (suc n) m s = record {
        inputs_sized = (
          length-replicate {A = ℕ} (suc n) 0,
          ap suc (length-replicate {A = ℕ} n 0),
          length-replicate {A = ℕ} (suc n) 0,
        );
        outputs_sized = d.sizes;
        key = key;
        owned = owned;
        positive = d.positive;
        inputs_hashed =
            (check_hashes_iff lib laws (replicate (suc n) 0) cs (zeros_small (suc n))).1
              (subst (λ l. AreOpened lib (replicate l 0) cs) long (zeros_opened cs));
        outputs_hashed = d.hashed;
      } in
      let even : check_sum lib s.input_values s.output_values ≡ true =
        (check_sum_iff lib laws s.input_values s.output_values).1
          (omega (arith, d.total, sum-replicate n, sum_from-mod 0 o.output_values)) in
      rw (Checked-check_commitments lib (suc n) m s checked) even
