-- ===== src/Scenarios.antt =====
-- The integration tests of zkp/js/integration-test, from the signals that they make to the proof that
-- they tamper with: here those of transfers, deposits and withdrawals without nullifiers.
pub mod Nullifiers
pub mod Passing
pub mod NullifiersPassing
pub mod Withdrawing
mod Tests
use zeto.Base.{
  ℕ, ◌≡◌, Bool, true, false, Option, none, some, List, [], ◌∷◌, ◌++◌, map, ◌==◌, if◌then◌else◌,
  Result, ok, err, ◌>>=◌, ◌>>◌,
}
use zeto.Circuits.{Circomlib}
use zeto.Circuits.Tokens.{
  TransferSignals, DepositSignals, zeto_anon_template, deposit_template, withdraw_template,
}

-- What makes a test fail.
pub data TestError : Type 0 where
  constraints_violated : TestError
  leaf_refused : TestError
  wrong_output : TestError
  proof_not_accepted : TestError
  tampered_accepted : TestError

-- A key pair of maci-crypto's genKeypair.
pub record Keypair : Type 0 where
  pub priv_key : ℕ
  pub pub_key : ℕ × ℕ

abbrev zero_pubkey : ℕ × ℕ
zero_pubkey = (0, 0)

-- The main components: the public signals of what satisfies the template, the outputs first.
module _ (lib : Circomlib) where
  unfoldable pub anon_main : TransferSignals → Option (List ℕ)
  unfolding zeto_anon_template
  anon_main s =
      if zeto_anon_template lib 2 2 s
      then some (s.input_commitments ++ s.output_commitments)
      else none

  unfoldable pub deposit_main : DepositSignals → Option (List ℕ)
  unfolding deposit_template
  deposit_main s = elim (deposit_template lib 2 s) [
    | none ↦ none
    | some out ↦ some (out ∷ s.output_commitments)
  ]

  unfoldable pub withdraw_main : TransferSignals → Option (List ℕ)
  unfolding withdraw_template
  withdraw_main s = elim (withdraw_template lib 2 1 s) [
    | none ↦ none
    | some out ↦ some (out ∷ s.input_commitments ++ s.output_commitments)
  ]

-- `publicSignals.map((ps) => ps.toString() === original.toString() ? tampered : ps)`
unfoldable pub tamper : ℕ → ℕ → List ℕ → List ℕ
tamper original tampered public_signals =
    map (λ ps. if ps == original then tampered else ps) public_signals

-- groth16 of snarkjs, with the proving and the verification key of the circuit: a proof for the public
-- signals of a witness, and the verdict on it.
module _ {Proof : Type 0} (prove : List ℕ → Proof) (verify : List ℕ → Proof → Bool) where
  -- From `circuit.calculateWTNSBin` to the end of a test.
  unfoldable pub check_proof : Option (List ℕ) → ℕ → ℕ → Result TestError (Unit {0})
  unfolding tamper
  check_proof none original tampered = err constraints_violated
  check_proof (some public_signals) original tampered =
      let proof = prove public_signals in
      if verify public_signals proof
      then (if verify (tamper original tampered public_signals) proof
          then err tampered_accepted
          else ok tt)
      else err proof_not_accepted

-- A commitment, by the package poseidon-lite.
unfoldable pub poseidon4 : (List ℕ → ℕ) → ℕ → ℕ → ℕ × ℕ → ℕ
poseidon4 poseidon value salt (x, y) = poseidon (value ∷ salt ∷ x ∷ y ∷ [])

-- The packages poseidon-lite and maci-crypto.
module _ (poseidon : List ℕ → ℕ) (format_priv_key : ℕ → ℕ) where
  -- The signals of anon.js.
  unfoldable pub anon_inputs : Keypair → Keypair → ℕ → ℕ → ℕ → TransferSignals
  unfolding poseidon4
  anon_inputs sender receiver salt1 salt2 salt3 = record {
    input_commitments =
        poseidon4 poseidon 15 salt1 sender.pub_key
        ∷ poseidon4 poseidon 100 salt2 sender.pub_key
        ∷ [];
    input_values = 15 ∷ 100 ∷ [];
    input_salts = salt1 ∷ salt2 ∷ [];
    input_owner_private_key = format_priv_key sender.priv_key;
    output_commitments = poseidon4 poseidon 115 salt3 receiver.pub_key ∷ 0 ∷ [];
    output_values = 115 ∷ 0 ∷ [];
    output_salts = salt3 ∷ salt3 ∷ [];
    output_owner_public_keys = receiver.pub_key ∷ zero_pubkey ∷ [];
  }

  -- The signals of deposit.js.
  unfoldable pub deposit_inputs : Keypair → ℕ → DepositSignals
  unfolding poseidon4
  deposit_inputs sender salt1 = record {
    output_commitments =
        poseidon4 poseidon 200 salt1 sender.pub_key
        ∷ poseidon4 poseidon 0 salt1 sender.pub_key
        ∷ [];
    output_values = 200 ∷ 0 ∷ [];
    output_salts = salt1 ∷ salt1 ∷ [];
    output_owner_public_keys = sender.pub_key ∷ sender.pub_key ∷ [];
  }

  -- The signals of withdraw.js.
  unfoldable pub withdraw_inputs : Keypair → ℕ → ℕ → ℕ → TransferSignals
  unfolding poseidon4
  withdraw_inputs alice salt1 salt2 salt3 = record {
    input_commitments =
        poseidon4 poseidon 15 salt1 alice.pub_key ∷ poseidon4 poseidon 100 salt2 alice.pub_key ∷ [];
    input_values = 15 ∷ 100 ∷ [];
    input_salts = salt1 ∷ salt2 ∷ [];
    input_owner_private_key = format_priv_key alice.priv_key;
    output_commitments = poseidon4 poseidon 35 salt3 alice.pub_key ∷ [];
    output_values = 35 ∷ [];
    output_salts = salt3 ∷ [];
    output_owner_public_keys = alice.pub_key ∷ [];
  }

  module _ (lib : Circomlib) {Proof : Type 0} (prove : List ℕ → Proof)
      (verify : List ℕ → Proof → Bool) where
    -- The test of anon.js.
    unfoldable pub anon_test : Keypair → Keypair → ℕ → ℕ → ℕ → Result TestError (Unit {0})
    unfolding anon_inputs anon_main check_proof poseidon4
    anon_test sender receiver salt1 salt2 salt3 =
        check_proof prove verify (anon_main lib (anon_inputs sender receiver salt1 salt2 salt3))
          (poseidon4 poseidon 115 salt3 receiver.pub_key)
          (poseidon4 poseidon 100 salt3 receiver.pub_key)

    -- `expect(witness[1]).to.equal(BigInt(200))`
    unfoldable pub expect_output : ℕ → Option (List ℕ) → Result TestError (Unit {0})
    expect_output expected none = err constraints_violated
    expect_output expected (some []) = err wrong_output
    expect_output expected (some (out ∷ public_signals)) =
        if out == expected then ok tt else err wrong_output

    -- The test of deposit.js.
    unfoldable pub deposit_test : Keypair → ℕ → Result TestError (Unit {0})
    unfolding deposit_inputs deposit_main check_proof poseidon4 expect_output
    deposit_test sender salt1 =
        let witness = deposit_main lib (deposit_inputs sender salt1) in
        expect_output 200 witness
        >> check_proof prove verify witness (poseidon4 poseidon 200 salt1 sender.pub_key)
            (poseidon4 poseidon 100 salt1 sender.pub_key)

    -- The test of withdraw.js.
    unfoldable pub withdraw_test : Keypair → ℕ → ℕ → ℕ → Result TestError (Unit {0})
    unfolding withdraw_inputs withdraw_main check_proof poseidon4
    withdraw_test alice salt1 salt2 salt3 =
        check_proof prove verify (withdraw_main lib (withdraw_inputs alice salt1 salt2 salt3))
          (poseidon4 poseidon 35 salt3 alice.pub_key) (poseidon4 poseidon 100 salt3 alice.pub_key)
