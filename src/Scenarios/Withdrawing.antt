-- ===== src/Scenarios/Withdrawing.antt =====
-- The tests of withdrawals with nullifiers and of nullifiers alone.
use zeto.Base.{ℕ, ◌≡◌, ◌↔◌, refl, Bool, true, false, inr, some, List, [], ◌∷◌, ok, arith}
use zeto.Circuits.{Circomlib, commitment_inputs}
use zeto.Circuits.Tokens.{withdraw_nullifier_template, zeto_check_nullifiers_template, has_size}
use zeto.Circuits.Sums.{CircomlibLaws}
use zeto.Circuits.Hashes.{check_hashes_iff}
use zeto.Scenarios.{Keypair, tamper, poseidon4, withdraw_inputs}
use zeto.Scenarios.Passing.{check_proof_iff, poseidon4-lt, poseidon4_lem, withdraw_inputs_satisfy}
use zeto.Scenarios.Nullifiers.{
  Merkletree, poseidon3, withdraw_nullifier_main, check_nullifiers_main, withdraw_nullifier_inputs,
  check_nullifiers_inputs, withdraw_nullifier_test, check_nullifiers_test,
}
use zeto.Scenarios.NullifiersPassing.{MerkletreeLaws, add_leaf_lem, two_nullifiers, two_proofs}

module _ (lib : Circomlib) (laws : CircomlibLaws lib) (poseidon : List ℕ → ℕ)
    (agrees : (xs : List ℕ) → poseidon xs ≡ lib.poseidon xs) (format_priv_key : ℕ → ℕ)
    {Proof : Type 0} (prove : List ℕ → Proof) (verify : List ℕ → Proof → Bool) where
  module _ (merkle : Merkletree) (merkle_laws : MerkletreeLaws lib merkle) where
    withdraw_nullifier_inputs_satisfy :
        (alice : Keypair) (salt1 salt2 salt3 : ℕ) (t u : merkle.Tree)
        → lib.baby_pbk (format_priv_key alice.priv_key) ≡ some alice.pub_key
        → merkle.add
            (poseidon4 poseidon 15 salt1 alice.pub_key)
            (poseidon4 poseidon 15 salt1 alice.pub_key)
            merkle.empty
          ≡ some t
        → merkle.add
            (poseidon4 poseidon 100 salt2 alice.pub_key)
            (poseidon4 poseidon 100 salt2 alice.pub_key)
            t
          ≡ some u
        → withdraw_nullifier_template lib 2 1
            (withdraw_nullifier_inputs merkle poseidon format_priv_key alice salt1 salt2 salt3 u)
          ≡ some 80
    unfolding withdraw_nullifier_inputs withdraw_nullifier_template withdraw_inputs
    withdraw_nullifier_inputs_satisfy alice salt1 salt2 salt3 t u owned first second =
        let paid =
          withdraw_inputs_satisfy lib laws poseidon agrees format_priv_key prove verify alice salt1
            salt2 salt3 owned in
        rw
          (
            two_nullifiers lib laws poseidon agrees salt1 salt2 (format_priv_key alice.priv_key),
            two_proofs lib laws poseidon agrees merkle merkle_laws
                (poseidon4 poseidon 15 salt1 alice.pub_key)
                (poseidon4 poseidon 100 salt2 alice.pub_key) t u first second,
          )
          paid

    withdraw_nullifier_inputs_signals :
        (alice : Keypair) (salt1 salt2 salt3 : ℕ) (u : merkle.Tree)
        → withdraw_nullifier_template lib 2 1
            (withdraw_nullifier_inputs merkle poseidon format_priv_key alice salt1 salt2 salt3 u)
          ≡ some 80
        → withdraw_nullifier_main lib
            (withdraw_nullifier_inputs merkle poseidon format_priv_key alice salt1 salt2 salt3 u)
          ≡ some (
              80
              ∷ poseidon3 poseidon 15 salt1 (format_priv_key alice.priv_key)
              ∷ poseidon3 poseidon 100 salt2 (format_priv_key alice.priv_key)
              ∷ merkle.root u
              ∷ 1
              ∷ 1
              ∷ poseidon4 poseidon 35 salt3 alice.pub_key
              ∷ [])
    unfolding withdraw_nullifier_main withdraw_nullifier_inputs
    withdraw_nullifier_inputs_signals alice salt1 salt2 salt3 u h =
        rw (withdraw_nullifier_main, h) refl

    pub withdraw_nullifier_test_iff :
        (alice : Keypair) (salt1 salt2 salt3 : ℕ) (t u : merkle.Tree)
        → lib.baby_pbk (format_priv_key alice.priv_key) ≡ some alice.pub_key
        → merkle.add
            (poseidon4 poseidon 15 salt1 alice.pub_key)
            (poseidon4 poseidon 15 salt1 alice.pub_key)
            merkle.empty
          ≡ some t
        → merkle.add
            (poseidon4 poseidon 100 salt2 alice.pub_key)
            (poseidon4 poseidon 100 salt2 alice.pub_key)
            t
          ≡ some u
        → let output = poseidon4 poseidon 35 salt3 alice.pub_key in
          let signals =
            80
            ∷ poseidon3 poseidon 15 salt1 (format_priv_key alice.priv_key)
            ∷ poseidon3 poseidon 100 salt2 (format_priv_key alice.priv_key)
            ∷ merkle.root u
            ∷ 1
            ∷ 1
            ∷ output
            ∷ [] in
          (withdraw_nullifier_test merkle poseidon format_priv_key lib prove verify alice salt1
              salt2 salt3
            ≡ ok tt)
          ↔ ((verify signals (prove signals) ≡ true)
              × (verify
                    (tamper output (poseidon4 poseidon 100 salt3 alice.pub_key) signals)
                    (prove signals)
                  ≡ false))
    unfolding withdraw_nullifier_test
    withdraw_nullifier_test_iff alice salt1 salt2 salt3 t u owned first second =
        let paid =
          withdraw_nullifier_inputs_satisfy alice salt1 salt2 salt3 t u owned first second in
        rw
          (
            add_leaf_lem merkle (poseidon4 poseidon 15 salt1 alice.pub_key) merkle.empty t first,
            add_leaf_lem merkle (poseidon4 poseidon 100 salt2 alice.pub_key) t u second,
            withdraw_nullifier_inputs_signals alice salt1 salt2 salt3 u paid,
          )
          (check_proof_iff prove verify (poseidon4 poseidon 35 salt3 alice.pub_key)
            (poseidon4 poseidon 100 salt3 alice.pub_key) _)

  check_nullifiers_inputs_satisfy :
      (sender : Keypair) (salt1 salt2 : ℕ)
      → lib.baby_pbk (format_priv_key sender.priv_key) ≡ some sender.pub_key
      → zeto_check_nullifiers_template lib 2
          (check_nullifiers_inputs poseidon format_priv_key sender salt1 salt2)
        ≡ true
  unfolding check_nullifiers_inputs zeto_check_nullifiers_template commitment_inputs has_size
  check_nullifiers_inputs_satisfy sender salt1 salt2 owned =
      let hashed =
        (check_hashes_iff lib laws
            (poseidon4 poseidon 15 salt1 sender.pub_key
              ∷ poseidon4 poseidon 100 salt2 sender.pub_key
              ∷ [])
            (record { value = 15; salt = salt1; owner_public_key = sender.pub_key }
              ∷ record { value = 100; salt = salt2; owner_public_key = sender.pub_key }
              ∷ [])
            (
              poseidon4-lt lib laws poseidon agrees 15 salt1 sender.pub_key,
              (poseidon4-lt lib laws poseidon agrees 100 salt2 sender.pub_key, tt),
            )).1
          (
            inr (poseidon4_lem lib laws poseidon agrees 15 salt1 sender.pub_key),
            (inr (poseidon4_lem lib laws poseidon agrees 100 salt2 sender.pub_key), tt),
          ) in
      ground (
        arith,
        hashed,
        owned,
        two_nullifiers lib laws poseidon agrees salt1 salt2 (format_priv_key sender.priv_key),
      )

  pub check_nullifiers_test_iff :
      (sender : Keypair) (salt1 salt2 : ℕ)
      → lib.baby_pbk (format_priv_key sender.priv_key) ≡ some sender.pub_key
      → let input1 = poseidon4 poseidon 15 salt1 sender.pub_key in
        let input2 = poseidon4 poseidon 100 salt2 sender.pub_key in
        let signals =
          poseidon3 poseidon 15 salt1 (format_priv_key sender.priv_key)
          ∷ poseidon3 poseidon 100 salt2 (format_priv_key sender.priv_key)
          ∷ input1
          ∷ input2
          ∷ [] in
        (check_nullifiers_test poseidon format_priv_key lib prove verify sender salt1 salt2 ≡ ok tt)
        ↔ ((verify signals (prove signals) ≡ true)
            × (verify (tamper input1 input2 signals) (prove signals) ≡ false))
  unfolding check_nullifiers_test check_nullifiers_main check_nullifiers_inputs
  check_nullifiers_test_iff sender salt1 salt2 owned =
      rw (check_nullifiers_inputs_satisfy sender salt1 salt2 owned) (
        check_proof_iff prove verify (poseidon4 poseidon 15 salt1 sender.pub_key)
          (poseidon4 poseidon 100 salt2 sender.pub_key) _)
