-- ===== src/Deploy/Modules/Deps.antt =====
-- The modules that the tokens share, solidity/ignition/modules/lib/deps.ts.
use zeto.Base.{some, [], ◌∷◌}
use zeto.Deploy.Modules.{Module, build_module, contract, library, give, ◌>>=◌}

abbrev pub smt_lib_module : Module
smt_lib_module = build_module "SmtLib" do
  poseidon2 ← library "Poseidon2"
  poseidon3 ← library "Poseidon3"
  poseidon5 ← library "Poseidon5"
  poseidon6 ← library "Poseidon6"
  smt_lib ← contract "SmtLib"
  give (
      ("smtLib", some smt_lib)
      ∷ ("poseidon2", some poseidon2)
      ∷ ("poseidon3", some poseidon3)
      ∷ ("poseidon5", some poseidon5)
      ∷ ("poseidon6", some poseidon6)
      ∷ [])

abbrev pub zeto_lockable_lib_module : Module
zeto_lockable_lib_module = build_module "ZetoLockableLib" do
  zeto_lockable_lib ← library "ZetoLockableLib"
  give (("zetoLockableLib", some zeto_lockable_lib) ∷ [])

abbrev pub deposit_verifier_module : Module
deposit_verifier_module =
    build_module "Groth16Verifier_Deposit"
      do verifier ← contract "Groth16Verifier_Deposit"; give (("verifier", some verifier) ∷ [])

abbrev pub deposit_kyc_verifier_module : Module
deposit_kyc_verifier_module =
    build_module "Groth16Verifier_DepositKyc"
      do verifier ← contract "Groth16Verifier_DepositKyc"; give (("verifier", some verifier) ∷ [])

abbrev pub withdraw_nullifier_verifier_module : Module
withdraw_nullifier_verifier_module = build_module "Groth16Verifier_WithdrawNullifier" do
  verifier ← contract "Groth16Verifier_WithdrawNullifier"
  give (("verifier", some verifier) ∷ [])

abbrev pub batch_withdraw_nullifier_verifier_module : Module
batch_withdraw_nullifier_verifier_module = build_module "Groth16Verifier_WithdrawNullifierBatch" do
  verifier ← contract "Groth16Verifier_WithdrawNullifierBatch"
  give (("verifier", some verifier) ∷ [])

abbrev pub withdraw_verifier_module : Module
withdraw_verifier_module =
    build_module "Groth16Verifier_Withdraw"
      do verifier ← contract "Groth16Verifier_Withdraw"; give (("verifier", some verifier) ∷ [])

abbrev pub batch_withdraw_verifier_module : Module
batch_withdraw_verifier_module =
    build_module "Groth16Verifier_WithdrawBatch" do
      verifier ← contract "Groth16Verifier_WithdrawBatch"
      give (("verifier", some verifier) ∷ [])
