-- ===== src/Scenarios/Nullifiers.antt =====
-- The integration tests of transfers and withdrawals with nullifiers: anon_nullifier.js,
-- withdraw_nullifier.js and check_nullifiers.js of zkp/js/integration-test.
use zeto.Base.{
  ℕ, Bool, Option, none, some, List, [], ◌∷◌, ◌++◌, if◌then◌else◌, Result, ok, err, ◌>>=◌,
}
use zeto.Circuits.{Circomlib}
use zeto.Circuits.Tokens.{
  NullifierSignals, BindingSignals, zeto_anon_nullifier_template, withdraw_nullifier_template,
  zeto_check_nullifiers_template,
}
use zeto.Scenarios.{TestError, leaf_refused, Keypair, check_proof, poseidon4}

-- Merkletree of js-merkletree: adding a leaf, which may fail, the root, and the siblings of
-- generateCircomVerifierProof for a leaf.
pub record Merkletree : Type 1 where
  pub Tree : Type 0
  pub empty : Tree
  pub add : ℕ → ℕ → Tree → Option Tree
  pub root : Tree → ℕ
  pub siblings : ℕ → Tree → List ℕ

-- The main components.
module _ (lib : Circomlib) where
  unfoldable pub anon_nullifier_transfer_main : NullifierSignals → Option (List ℕ)
  unfolding zeto_anon_nullifier_template
  anon_nullifier_transfer_main s =
      if zeto_anon_nullifier_template lib 2 2 s
      then some (s.nullifiers ++ s.root ∷ s.enabled ++ s.transfer.output_commitments)
      else none

  unfoldable pub withdraw_nullifier_main : NullifierSignals → Option (List ℕ)
  unfolding withdraw_nullifier_template
  withdraw_nullifier_main s = elim (withdraw_nullifier_template lib 2 1 s) [
    | none ↦ none
    | some out ↦ some (out ∷ s.nullifiers ++ s.root ∷ s.enabled ++ s.transfer.output_commitments)
  ]

  unfoldable pub check_nullifiers_main : BindingSignals → Option (List ℕ)
  unfolding zeto_check_nullifiers_template
  check_nullifiers_main s =
      if zeto_check_nullifiers_template lib 2 s
      then some (s.nullifiers ++ s.input_commitments)
      else none

-- A nullifier, by the package poseidon-lite.
unfoldable pub poseidon3 : (List ℕ → ℕ) → ℕ → ℕ → ℕ → ℕ
poseidon3 poseidon value salt private_key = poseidon (value ∷ salt ∷ private_key ∷ [])

module _ (poseidon : List ℕ → ℕ) (format_priv_key : ℕ → ℕ) where
  -- The signals of check_nullifiers.js.
  unfoldable pub check_nullifiers_inputs : Keypair → ℕ → ℕ → BindingSignals
  unfolding poseidon4 poseidon3
  check_nullifiers_inputs sender salt1 salt2 =
      let sender_private_key = format_priv_key sender.priv_key in
      record {
        nullifiers =
            poseidon3 poseidon 15 salt1 sender_private_key
            ∷ poseidon3 poseidon 100 salt2 sender_private_key
            ∷ [];
        input_commitments =
            poseidon4 poseidon 15 salt1 sender.pub_key
            ∷ poseidon4 poseidon 100 salt2 sender.pub_key
            ∷ [];
        input_values = 15 ∷ 100 ∷ [];
        input_salts = salt1 ∷ salt2 ∷ [];
        input_owner_private_key = sender_private_key;
      }

  module _ (lib : Circomlib) {Proof : Type 0} (prove : List ℕ → Proof)
      (verify : List ℕ → Proof → Bool) where
    -- The test of check_nullifiers.js.
    unfoldable pub check_nullifiers_test : Keypair → ℕ → ℕ → Result TestError (Unit {0})
    unfolding check_nullifiers_inputs check_nullifiers_main check_proof poseidon4
    check_nullifiers_test sender salt1 salt2 =
        check_proof prove verify
          (check_nullifiers_main lib (check_nullifiers_inputs sender salt1 salt2))
          (poseidon4 poseidon 15 salt1 sender.pub_key) (poseidon4 poseidon 100 salt2 sender.pub_key)

module _ (merkle : Merkletree) where
  -- `smt.add`, awaited.
  unfoldable pub add_leaf : ℕ → merkle.Tree → Result TestError merkle.Tree
  add_leaf input smt = elim (merkle.add input input smt) [ none ↦ err leaf_refused | some t ↦ ok t ]

  module _ (poseidon : List ℕ → ℕ) (format_priv_key : ℕ → ℕ) where
    -- The signals of anon_nullifier.js, of the tree that has the inputs. The circuit takes the input
    -- commitments for the values of the leaves.
    unfoldable pub anon_nullifier_inputs :
        Keypair → Keypair → ℕ → ℕ → ℕ → merkle.Tree → NullifierSignals
    unfolding poseidon4 poseidon3
    anon_nullifier_inputs alice bob salt1 salt2 salt3 smt_alice =
        let sender_private_key = format_priv_key alice.priv_key in
        let input1 = poseidon4 poseidon 15 salt1 alice.pub_key in
        let input2 = poseidon4 poseidon 100 salt2 alice.pub_key in
        record {
          transfer = record {
            input_commitments = input1 ∷ input2 ∷ [];
            input_values = 15 ∷ 100 ∷ [];
            input_salts = salt1 ∷ salt2 ∷ [];
            input_owner_private_key = sender_private_key;
            output_commitments =
                poseidon4 poseidon 80 salt3 bob.pub_key
                ∷ poseidon4 poseidon 35 salt3 alice.pub_key
                ∷ [];
            output_values = 80 ∷ 35 ∷ [];
            output_salts = salt3 ∷ salt3 ∷ [];
            output_owner_public_keys = bob.pub_key ∷ alice.pub_key ∷ [];
          };
          nullifiers =
              poseidon3 poseidon 15 salt1 sender_private_key
              ∷ poseidon3 poseidon 100 salt2 sender_private_key
              ∷ [];
          smt_node_values = input1 ∷ input2 ∷ [];
          root = merkle.root smt_alice;
          merkle_proof = merkle.siblings input1 smt_alice ∷ merkle.siblings input2 smt_alice ∷ [];
          enabled = 1 ∷ 1 ∷ [];
        }

    -- The signals of withdraw_nullifier.js.
    unfoldable pub withdraw_nullifier_inputs : Keypair → ℕ → ℕ → ℕ → merkle.Tree → NullifierSignals
    unfolding poseidon4 poseidon3
    withdraw_nullifier_inputs alice salt1 salt2 salt3 smt_alice =
        let sender_private_key = format_priv_key alice.priv_key in
        let input1 = poseidon4 poseidon 15 salt1 alice.pub_key in
        let input2 = poseidon4 poseidon 100 salt2 alice.pub_key in
        record {
          transfer = record {
            input_commitments = input1 ∷ input2 ∷ [];
            input_values = 15 ∷ 100 ∷ [];
            input_salts = salt1 ∷ salt2 ∷ [];
            input_owner_private_key = sender_private_key;
            output_commitments = poseidon4 poseidon 35 salt3 alice.pub_key ∷ [];
            output_values = 35 ∷ [];
            output_salts = salt3 ∷ [];
            output_owner_public_keys = alice.pub_key ∷ [];
          };
          nullifiers =
              poseidon3 poseidon 15 salt1 sender_private_key
              ∷ poseidon3 poseidon 100 salt2 sender_private_key
              ∷ [];
          smt_node_values = input1 ∷ input2 ∷ [];
          root = merkle.root smt_alice;
          merkle_proof = merkle.siblings input1 smt_alice ∷ merkle.siblings input2 smt_alice ∷ [];
          enabled = 1 ∷ 1 ∷ [];
        }

    module _ (lib : Circomlib) {Proof : Type 0} (prove : List ℕ → Proof)
        (verify : List ℕ → Proof → Bool) where
      -- The test of anon_nullifier.js.
      unfoldable pub anon_nullifier_test :
          Keypair → Keypair → ℕ → ℕ → ℕ → Result TestError (Unit {0})
      unfolding anon_nullifier_inputs anon_nullifier_transfer_main check_proof poseidon4 add_leaf
      anon_nullifier_test alice bob salt1 salt2 salt3 = do
        t ← add_leaf (poseidon4 poseidon 15 salt1 alice.pub_key) merkle.empty
        smt_alice ← add_leaf (poseidon4 poseidon 100 salt2 alice.pub_key) t
        check_proof prove verify
            (anon_nullifier_transfer_main lib
              (anon_nullifier_inputs alice bob salt1 salt2 salt3 smt_alice))
            (poseidon4 poseidon 80 salt3 bob.pub_key) (poseidon4 poseidon 100 salt3 bob.pub_key)

      -- The test of withdraw_nullifier.js.
      unfoldable pub withdraw_nullifier_test : Keypair → ℕ → ℕ → ℕ → Result TestError (Unit {0})
      unfolding withdraw_nullifier_inputs withdraw_nullifier_main check_proof poseidon4 add_leaf
      withdraw_nullifier_test alice salt1 salt2 salt3 = do
        t ← add_leaf (poseidon4 poseidon 15 salt1 alice.pub_key) merkle.empty
        smt_alice ← add_leaf (poseidon4 poseidon 100 salt2 alice.pub_key) t
        check_proof prove verify
            (withdraw_nullifier_main lib
              (withdraw_nullifier_inputs alice salt1 salt2 salt3 smt_alice))
            (poseidon4 poseidon 35 salt3 alice.pub_key) (poseidon4 poseidon 100 salt3 alice.pub_key)
