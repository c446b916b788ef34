-- ===== src/Deploy/Modules/ZetoAnonEncNullifierKyc.antt =====
-- The module of solidity/ignition/modules/zeto_anon_enc_nullifier_kyc.ts.
use zeto.Base.{some, [], ◌∷◌}
use zeto.Deploy.Modules.{Module, build_module, contract, use_module, field, give, ◌>>=◌}
use zeto.Deploy.Modules.Deps.{
  batch_withdraw_nullifier_verifier_module, deposit_kyc_verifier_module, smt_lib_module,
  withdraw_nullifier_verifier_module, zeto_lockable_lib_module,
}

abbrev pub verifier_module : Module
verifier_module = build_module "Groth16Verifier_AnonEncNullifierKyc" do
  verifier ← contract "Groth16Verifier_AnonEncNullifierKyc"
  give (("verifier", some verifier) ∷ [])

abbrev pub batch_verifier_module : Module
batch_verifier_module = build_module "Groth16Verifier_AnonEncNullifierKycBatch" do
  verifier ← contract "Groth16Verifier_AnonEncNullifierKycBatch"
  give (("verifier", some verifier) ∷ [])

abbrev pub zeto_anon_enc_nullifier_kyc_module : Module
zeto_anon_enc_nullifier_kyc_module = build_module "Zeto_AnonEncNullifierKyc" do
  given1 ← use_module zeto_lockable_lib_module
  let zeto_lockable_lib = field "zetoLockableLib" given1
  given2 ← use_module smt_lib_module
  let smt_lib = field "smtLib" given2
  let poseidon2 = field "poseidon2" given2
  let poseidon3 = field "poseidon3" given2
  given3 ← use_module verifier_module
  let verifier = field "verifier" given3
  given4 ← use_module batch_verifier_module
  let batch_verifier = field "verifier" given4
  given5 ← use_module deposit_kyc_verifier_module
  let deposit_verifier = field "verifier" given5
  given6 ← use_module withdraw_nullifier_verifier_module
  let withdraw_verifier = field "verifier" given6
  given7 ← use_module batch_withdraw_nullifier_verifier_module
  let batch_withdraw_verifier = field "verifier" given7
  give (
      ("depositVerifier", deposit_verifier)
      ∷ ("withdrawVerifier", withdraw_verifier)
      ∷ ("verifier", verifier)
      ∷ ("batchVerifier", batch_verifier)
      ∷ ("batchWithdrawVerifier", batch_withdraw_verifier)
      ∷ ("smtLib", smt_lib)
      ∷ ("poseidon2", poseidon2)
      ∷ ("poseidon3", poseidon3)
      ∷ ("zetoLockableLib", zeto_lockable_lib)
      ∷ [])
