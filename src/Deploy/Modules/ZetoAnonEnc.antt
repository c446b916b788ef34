-- ===== src/Deploy/Modules/ZetoAnonEnc.antt =====
-- The module of solidity/ignition/modules/zeto_anon_enc.ts.
use zeto.Base.{some, [], ◌∷◌}
use zeto.Deploy.Modules.{Module, build_module, contract, use_module, field, give, ◌>>=◌}
use zeto.Deploy.Modules.Deps.{
  batch_withdraw_verifier_module, deposit_verifier_module, withdraw_verifier_module,
  zeto_lockable_lib_module,
}

abbrev pub verifier_module : Module
verifier_module =
    build_module "Groth16Verifier_AnonEnc"
      do verifier ← contract "Groth16Verifier_AnonEnc"; give (("verifier", some verifier) ∷ [])

abbrev pub batch_verifier_module : Module
batch_verifier_module =
    build_module "Groth16Verifier_AnonEncBatch"
      do verifier ← contract "Groth16Verifier_AnonEncBatch"; give (("verifier", some verifier) ∷ [])

abbrev pub zeto_anon_enc_module : Module
zeto_anon_enc_module = build_module "Zeto_AnonEnc" do
  given1 ← use_module zeto_lockable_lib_module
  let zeto_lockable_lib = field "zetoLockableLib" given1
  given2 ← use_module verifier_module
  let verifier = field "verifier" given2
  given3 ← use_module batch_verifier_module
  let batch_verifier = field "verifier" given3
  given4 ← use_module deposit_verifier_module
  let deposit_verifier = field "verifier" given4
  given5 ← use_module withdraw_verifier_module
  let withdraw_verifier = field "verifier" given5
  given6 ← use_module batch_withdraw_verifier_module
  let batch_withdraw_verifier = field "verifier" given6
  give (
      ("depositVerifier", deposit_verifier)
      ∷ ("withdrawVerifier", withdraw_verifier)
      ∷ ("verifier", verifier)
      ∷ ("batchVerifier", batch_verifier)
      ∷ ("batchWithdrawVerifier", batch_withdraw_verifier)
      ∷ ("zetoLockableLib", zeto_lockable_lib)
      ∷ [])
