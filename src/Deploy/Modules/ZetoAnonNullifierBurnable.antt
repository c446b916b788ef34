-- ===== src/Deploy/Modules/ZetoAnonNullifierBurnable.antt =====
-- The module of solidity/ignition/modules/zeto_anon_nullifier_burnable.ts.
use zeto.Base.{some, [], ◌∷◌}
use zeto.Deploy.Modules.{Module, build_module, contract, use_module, field, give, ◌>>=◌}
use zeto.Deploy.Modules.Deps.{
  batch_withdraw_nullifier_verifier_module, deposit_verifier_module, smt_lib_module,
  withdraw_nullifier_verifier_module, zeto_lockable_lib_module,
}

abbrev pub verifier_module : Module
verifier_module = build_module "Groth16Verifier_AnonNullifierTransfer" do
  verifier ← contract "Groth16Verifier_AnonNullifierTransfer"
  give (("verifier", some verifier) ∷ [])

abbrev pub lock_verifier_module : Module
lock_verifier_module =
    build_module "Groth16Verifier_Anon"
      do verifier ← contract "Groth16Verifier_Anon"; give (("verifier", some verifier) ∷ [])

abbrev pub batch_verifier_module : Module
batch_verifier_module = build_module "Groth16Verifier_AnonNullifierTransferBatch" do
  verifier ← contract "Groth16Verifier_AnonNullifierTransferBatch"
  give (("verifier", some verifier) ∷ [])

abbrev pub batch_lock_verifier_module : Module
batch_lock_verifier_module =
    build_module "Groth16Verifier_AnonBatch"
      do verifier ← contract "Groth16Verifier_AnonBatch"; give (("verifier", some verifier) ∷ [])

abbrev pub burn_nullifier_verifier_module : Module
burn_nullifier_verifier_module =
    build_module "Groth16Verifier_BurnNullifier" do
      verifier ← contract "Groth16Verifier_BurnNullifier"
      give (("verifier", some verifier) ∷ [])

abbrev pub batch_burn_nullifier_verifier_module : Module
batch_burn_nullifier_verifier_module = build_module "Groth16Verifier_BurnNullifierBatch" do
  verifier ← contract "Groth16Verifier_BurnNullifierBatch"
  give (("verifier", some verifier) ∷ [])

abbrev pub zeto_anon_nullifier_burnable_module : Module
zeto_anon_nullifier_burnable_module = build_module "Zeto_AnonNullifier" do
  given1 ← use_module zeto_lockable_lib_module
  let zeto_lockable_lib = field "zetoLockableLib" given1
  given2 ← use_module smt_lib_module
  let smt_lib = field "smtLib" given2
  let poseidon2 = field "poseidon2" given2
  let poseidon3 = field "poseidon3" given2
  given3 ← use_module verifier_module
  let verifier = field "verifier" given3
  given4 ← use_module lock_verifier_module
  let lock_verifier = field "verifier" given4
  given5 ← use_module batch_verifier_module
  let batch_verifier = field "verifier" given5
  given6 ← use_module batch_lock_verifier_module
  let batch_lock_verifier = field "verifier" given6
  given7 ← use_module deposit_verifier_module
  let deposit_verifier = field "verifier" given7
  given8 ← use_module withdraw_nullifier_verifier_module
  let withdraw_verifier = field "verifier" given8
  given9 ← use_module batch_withdraw_nullifier_verifier_module
  let batch_withdraw_verifier = field "verifier" given9
  given10 ← use_module burn_nullifier_verifier_module
  let burn_verifier = field "verifier" given10
  given11 ← use_module batch_burn_nullifier_verifier_module
  let batch_burn_verifier = field "verifier" given11
  give (
      ("depositVerifier", deposit_verifier)
      ∷ ("withdrawVerifier", withdraw_verifier)
      ∷ ("verifier", verifier)
      ∷ ("lockVerifier", lock_verifier)
      ∷ ("batchVerifier", batch_verifier)
      ∷ ("batchLockVerifier", batch_lock_verifier)
      ∷ ("batchWithdrawVerifier", batch_withdraw_verifier)
      ∷ ("burnVerifier", burn_verifier)
      ∷ ("batchBurnVerifier", batch_burn_verifier)
      ∷ ("smtLib", smt_lib)
      ∷ ("poseidon2", poseidon2)
      ∷ ("poseidon3", poseidon3)
      ∷ ("zetoLockableLib", zeto_lockable_lib)
      ∷ [])
