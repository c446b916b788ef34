-- ===== src/Scenarios/Passing.antt =====
-- The tests without nullifiers satisfy the constraints, and come to the verifier's two verdicts.
use zeto.Base.{ℕ, ◌<◌, ◌≡◌, ◌↔◌, refl, Bool, true, false, inl, inr, some, List, [], ◌∷◌, ok, arith}
use zeto.Field.{F}
use zeto.Circuits.{Circomlib, commitment_inputs, commitment_of, sum_from}
use zeto.Circuits.Tokens.{zeto_anon_template, deposit_template, withdraw_template}
use zeto.Circuits.Sums.{CircomlibLaws, check_positive_iff}
use zeto.Circuits.Hashes.{check_hashes_iff}
use zeto.Circuits.Exact.{Opened, IsField, zeto_anon_template_iff, withdraw_template_iff}
use zeto.Scenarios.{
  Keypair, tamper, check_proof, poseidon4, anon_main, anon_inputs, anon_test, deposit_main,
  deposit_inputs, deposit_test, expect_output, withdraw_main, withdraw_inputs, withdraw_test,
}

module _ {Proof : Type 0} (prove : List ℕ → Proof) (verify : List ℕ → Proof → Bool) where
  -- Where the constraints are satisfied, the rest of a test comes to two verdicts.
  pub check_proof_iff :
      (original tampered : ℕ) (ps : List ℕ)
      → (check_proof prove verify (some ps) original tampered ≡ ok tt) ↔ (
          (verify ps (prove ps) ≡ true) × (verify (tamper original tampered ps) (prove ps) ≡ false))
  unfolding check_proof
  check_proof_iff o t ps = (λ h. (ground arith, ground arith), λ (h, k). rw (h, k) refl)

module _ (lib : Circomlib) (laws : CircomlibLaws lib) (poseidon : List ℕ → ℕ)
    (agrees : (xs : List ℕ) → poseidon xs ≡ lib.poseidon xs) where
  pub poseidon4-lt : (v s : ℕ) (k : ℕ × ℕ) → poseidon4 poseidon v s k < F
  unfolding poseidon4
  poseidon4-lt v s (x, y) = rw (agrees (v ∷ s ∷ x ∷ y ∷ [])) (laws.poseidon_lt (v ∷ s ∷ x ∷ y ∷ []))

  pub poseidon4_lem :
      (v s : ℕ) (k : ℕ × ℕ)
      → poseidon4 poseidon v s k
        ≡ commitment_of lib (record { value = v; salt = s; owner_public_key = k })
  unfolding poseidon4 commitment_of
  poseidon4_lem v s (x, y) = agrees (v ∷ s ∷ x ∷ y ∷ [])

  module _ (format_priv_key : ℕ → ℕ) {Proof : Type 0} (prove : List ℕ → Proof)
      (verify : List ℕ → Proof → Bool) where
    pub anon_inputs_satisfy :
        (sender receiver : Keypair) (salt1 salt2 salt3 : ℕ)
        → lib.baby_pbk (format_priv_key sender.priv_key) ≡ some sender.pub_key
        → zeto_anon_template lib 2 2
            (anon_inputs poseidon format_priv_key sender receiver salt1 salt2 salt3)
          ≡ true
    unfolding anon_inputs commitment_inputs
    anon_inputs_satisfy sender receiver salt1 salt2 salt3 owned =
        let s = anon_inputs poseidon format_priv_key sender receiver salt1 salt2 salt3 in
        let field : IsField lib s = record {
          inputs =
              (poseidon4-lt 15 salt1 sender.pub_key, (poseidon4-lt 100 salt2 sender.pub_key, tt));
          outputs = (poseidon4-lt 115 salt3 receiver.pub_key, (omega arith, tt));
          values = (omega arith, (omega arith, tt));
        } in
        let opened : Opened lib 2 2 s = record {
          inputs_sized = (refl, refl, refl);
          outputs_sized = (refl, refl, refl, refl);
          key = sender.pub_key;
          owned = owned;
          ranged = (omega arith, (omega arith, tt));
          inputs_opened = (
            inr (poseidon4_lem 15 salt1 sender.pub_key),
            (inr (poseidon4_lem 100 salt2 sender.pub_key), tt),
          );
          outputs_opened = (inr (poseidon4_lem 115 salt3 receiver.pub_key), (inl refl, tt));
        } in
        (zeto_anon_template_iff lib laws 2 2 s field).1 (opened, refl)

    pub anon_test_iff :
        (sender receiver : Keypair) (salt1 salt2 salt3 : ℕ)
        → lib.baby_pbk (format_priv_key sender.priv_key) ≡ some sender.pub_key
        → let output = poseidon4 poseidon 115 salt3 receiver.pub_key in
          let signals =
            poseidon4 poseidon 15 salt1 sender.pub_key
            ∷ poseidon4 poseidon 100 salt2 sender.pub_key
            ∷ output
            ∷ 0
            ∷ [] in
          (anon_test poseidon format_priv_key lib prove verify sender receiver salt1 salt2 salt3
            ≡ ok tt)
          ↔ ((verify signals (prove signals) ≡ true)
              × (verify
                    (tamper output (poseidon4 poseidon 100 salt3 receiver.pub_key) signals)
                    (prove signals)
                  ≡ false))
    unfolding anon_test anon_main anon_inputs
    anon_test_iff sender receiver salt1 salt2 salt3 owned =
        rw (anon_inputs_satisfy sender receiver salt1 salt2 salt3 owned) (
          check_proof_iff prove verify (poseidon4 poseidon 115 salt3 receiver.pub_key)
            (poseidon4 poseidon 100 salt3 receiver.pub_key) _)

    deposit_inputs_satisfy :
        (sender : Keypair) (salt1 : ℕ)
        → deposit_template lib 2 (deposit_inputs poseidon format_priv_key sender salt1) ≡ some 200
    unfolding deposit_inputs deposit_template commitment_inputs sum_from
    deposit_inputs_satisfy sender salt1 =
        let s = deposit_inputs poseidon format_priv_key sender salt1 in
        let positive =
          (check_positive_iff lib laws s.output_values (omega arith, (omega arith, tt))).1
            (omega arith, (omega arith, tt)) in
        let hashed =
          (check_hashes_iff lib laws s.output_commitments
              (commitment_inputs s.output_values s.output_salts s.output_owner_public_keys)
              (poseidon4-lt 200 salt1 sender.pub_key, (poseidon4-lt 0 salt1 sender.pub_key, tt))).1
            (
              inr (poseidon4_lem 200 salt1 sender.pub_key),
              (inr (poseidon4_lem 0 salt1 sender.pub_key), tt),
            ) in
        ground (arith, positive, hashed)

    deposit_inputs_signals :
        (sender : Keypair) (salt1 : ℕ)
        → deposit_main lib (deposit_inputs poseidon format_priv_key sender salt1)
          ≡ some (200 ∷ (deposit_inputs poseidon format_priv_key sender salt1).output_commitments)
    unfolding deposit_main
    deposit_inputs_signals sender salt1 = ground (arith, deposit_inputs_satisfy sender salt1)

    pub deposit_test_iff :
        (sender : Keypair) (salt1 : ℕ)
        → let output = poseidon4 poseidon 200 salt1 sender.pub_key in
          let signals = 200 ∷ output ∷ poseidon4 poseidon 0 salt1 sender.pub_key ∷ [] in
          (deposit_test poseidon format_priv_key lib prove verify sender salt1 ≡ ok tt) ↔ (
            (verify signals (prove signals) ≡ true)
            × (verify
                  (tamper output (poseidon4 poseidon 100 salt1 sender.pub_key) signals)
                  (prove signals)
                ≡ false))
    unfolding deposit_test expect_output deposit_inputs
    deposit_test_iff sender salt1 = rw (deposit_inputs_signals sender salt1) (
        check_proof_iff prove verify (poseidon4 poseidon 200 salt1 sender.pub_key)
          (poseidon4 poseidon 100 salt1 sender.pub_key) _)

    pub withdraw_inputs_satisfy :
        (alice : Keypair) (salt1 salt2 salt3 : ℕ)
        → lib.baby_pbk (format_priv_key alice.priv_key) ≡ some alice.pub_key
        → withdraw_template lib 2 1
            (withdraw_inputs poseidon format_priv_key alice salt1 salt2 salt3)
          ≡ some 80
    unfolding withdraw_inputs commitment_inputs sum_from
    withdraw_inputs_satisfy alice salt1 salt2 salt3 owned =
        let s = withdraw_inputs poseidon format_priv_key alice salt1 salt2 salt3 in
        let field : IsField lib s = record {
          inputs =
              (poseidon4-lt 15 salt1 alice.pub_key, (poseidon4-lt 100 salt2 alice.pub_key, tt));
          outputs = (poseidon4-lt 35 salt3 alice.pub_key, tt);
          values = (omega arith, tt);
        } in
        let opened : Opened lib 2 1 s = record {
          inputs_sized = (refl, refl, refl);
          outputs_sized = (refl, refl, refl, refl);
          key = alice.pub_key;
          owned = owned;
          ranged = (omega arith, tt);
          inputs_opened = (
            inr (poseidon4_lem 15 salt1 alice.pub_key),
            (inr (poseidon4_lem 100 salt2 alice.pub_key), tt),
          );
          outputs_opened = (inr (poseidon4_lem 35 salt3 alice.pub_key), tt);
        } in
        (withdraw_template_iff lib laws 2 1 s 80 field).1 (opened, refl, omega arith)

    pub withdraw_test_iff :
        (alice : Keypair) (salt1 salt2 salt3 : ℕ)
        → lib.baby_pbk (format_priv_key alice.priv_key) ≡ some alice.pub_key
        → let output = poseidon4 poseidon 35 salt3 alice.pub_key in
          let signals =
            80
            ∷ poseidon4 poseidon 15 salt1 alice.pub_key
            ∷ poseidon4 poseidon 100 salt2 alice.pub_key
            ∷ output
            ∷ [] in
          (withdraw_test poseidon format_priv_key lib prove verify alice salt1 salt2 salt3 ≡ ok tt)
          ↔ ((verify signals (prove signals) ≡ true)
              × (verify
                    (tamper output (poseidon4 poseidon 100 salt3 alice.pub_key) signals)
                    (prove signals)
                  ≡ false))
    unfolding withdraw_test withdraw_main withdraw_inputs
    withdraw_test_iff alice salt1 salt2 salt3 owned =
        rw (withdraw_inputs_satisfy alice salt1 salt2 salt3 owned) (
          check_proof_iff prove verify (poseidon4 poseidon 35 salt3 alice.pub_key)
            (poseidon4 poseidon 100 salt3 alice.pub_key) _)
