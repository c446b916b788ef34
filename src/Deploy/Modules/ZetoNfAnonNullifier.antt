-- ===== src/Deploy/Modules/ZetoNfAnonNullifier.antt =====
-- The module of solidity/ignition/modules/zeto_nf_anon_nullifier.ts.
use zeto.Base.{some, [], ◌∷◌}
use zeto.Deploy.Modules.{Module, build_module, contract, use_module, field, give, ◌>>=◌}
use zeto.Deploy.Modules.Deps.{smt_lib_module, zeto_lockable_lib_module}

abbrev pub verifier_module : Module
verifier_module = build_module "Groth16Verifier_NfAnonNullifierTransfer" do
  verifier ← contract "Groth16Verifier_NfAnonNullifierTransfer"
  give (("verifier", some verifier) ∷ [])

abbrev pub lock_verifier_module : Module
lock_verifier_module =
    build_module "Groth16Verifier_NfAnon"
      do verifier ← contract "Groth16Verifier_NfAnon"; give (("verifier", some verifier) ∷ [])

abbrev pub zeto_nf_anon_nullifier_module : Module
zeto_nf_anon_nullifier_module = build_module "Zeto_NfAnonNullifier" do
  given1 ← use_module zeto_lockable_lib_module
  let zeto_lockable_lib = field "zetoLockableLib" given1
  given2 ← use_module smt_lib_module
  let smt_lib = field "smtLib" given2
  let poseidon2 = field "poseidon2" given2
  let poseidon3 = field "poseidon3" given2
  given3 ← use_module verifier_module
  let verifier = field "verifier" given3
  given4 ← use_module lock_verifier_module
  let lock_verifier = field "verifier" given4
  give (
      ("verifier", verifier)
      ∷ ("lockVerifier", lock_verifier)
      ∷ ("smtLib", smt_lib)
      ∷ ("poseidon2", poseidon2)
      ∷ ("poseidon3", poseidon3)
      ∷ ("zetoLockableLib", zeto_lockable_lib)
      ∷ [])
