-- ===== src/Deploy/Modules/ZetoNfAnon.antt =====
-- The module of solidity/ignition/modules/zeto_nf_anon.ts.
use zeto.Base.{some, [], ◌∷◌}
use zeto.Deploy.Modules.{Module, build_module, contract, use_module, field, give, ◌>>=◌}
use zeto.Deploy.Modules.Deps.{zeto_lockable_lib_module}

abbrev pub verifier_module : Module
verifier_module =
    build_module "Groth16Verifier_NfAnon"
      do verifier ← contract "Groth16Verifier_NfAnon"; give (("verifier", some verifier) ∷ [])

abbrev pub zeto_nf_anon_module : Module
zeto_nf_anon_module = build_module "Zeto_NfAnon" do
  given1 ← use_module zeto_lockable_lib_module
  let zeto_lockable_lib = field "zetoLockableLib" given1
  given2 ← use_module verifier_module
  let verifier = field "verifier" given2
  give (("verifier", verifier) ∷ ("zetoLockableLib", zeto_lockable_lib) ∷ [])
