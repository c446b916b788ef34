-- ===== src/Deploy/Given.antt =====
-- The tokens' scripts on what their Ignition modules give.
pub mod Wired
use Prim.Native.String.{◌++◌ as append}
use zeto.Base.{
  Bool, true, false, ◌&&◌, not, ◌||◌, ◌≡◌, refl, none, some, List, [], ◌∷◌, String, str_eq,
}
use zeto.Deploy.Scripts.{Deployed, VerifiersInfo}
use zeto.Deploy.Tokens.{
  TokenContract, deploy_dependencies, zeto_anon, zeto_anon_burnable, zeto_anon_enc,
  zeto_anon_enc_nullifier, zeto_anon_enc_nullifier_kyc, zeto_anon_enc_nullifier_non_repudiation,
  zeto_anon_nullifier, zeto_anon_nullifier_burnable, zeto_anon_nullifier_kyc,
  zeto_anon_nullifier_qurrency, zeto_nf_anon, zeto_nf_anon_nullifier,
}
use zeto.Deploy.Modules.{Future, Results, Module, field}
use zeto.Deploy.Modules.ZetoAnon.{zeto_anon_module}
use zeto.Deploy.Modules.ZetoAnonBurnable.{zeto_anon_burnable_module}
use zeto.Deploy.Modules.ZetoAnonEnc.{zeto_anon_enc_module}
use zeto.Deploy.Modules.ZetoAnonEncNullifier.{zeto_anon_enc_nullifier_module}
use zeto.Deploy.Modules.ZetoAnonEncNullifierKyc.{zeto_anon_enc_nullifier_kyc_module}
use zeto.Deploy.Modules.ZetoAnonEncNullifierNonRepudiation.{
  zeto_anon_enc_nullifier_non_repudiation_module,
}
use zeto.Deploy.Modules.ZetoAnonNullifier.{zeto_anon_nullifier_module}
use zeto.Deploy.Modules.ZetoAnonNullifierBurnable.{zeto_anon_nullifier_burnable_module}
use zeto.Deploy.Modules.ZetoAnonNullifierKyc.{zeto_anon_nullifier_kyc_module}
use zeto.Deploy.Modules.ZetoAnonNullifierQurrency.{zeto_anon_nullifier_qurrency_module}
use zeto.Deploy.Modules.ZetoNfAnon.{zeto_nf_anon_module}
use zeto.Deploy.Modules.ZetoNfAnonNullifier.{zeto_nf_anon_nullifier_module}

-- The module that a token's script imports.
abbrev pub module_of : TokenContract → Module
module_of zeto_anon = zeto_anon_module
module_of zeto_anon_burnable = zeto_anon_burnable_module
module_of zeto_anon_enc = zeto_anon_enc_module
module_of zeto_anon_enc_nullifier = zeto_anon_enc_nullifier_module
module_of zeto_anon_enc_nullifier_kyc = zeto_anon_enc_nullifier_kyc_module
module_of zeto_anon_enc_nullifier_non_repudiation = zeto_anon_enc_nullifier_non_repudiation_module
module_of zeto_anon_nullifier = zeto_anon_nullifier_module
module_of zeto_anon_nullifier_burnable = zeto_anon_nullifier_burnable_module
module_of zeto_anon_nullifier_kyc = zeto_anon_nullifier_kyc_module
module_of zeto_anon_nullifier_qurrency = zeto_anon_nullifier_qurrency_module
module_of zeto_nf_anon = zeto_nf_anon_module
module_of zeto_nf_anon_nullifier = zeto_nf_anon_nullifier_module

module _ {Address : Type 0} (target : Future → Address) (undefined : Address) where
  target_of : String → Results → Address
  target_of name results = elim (field name results) [
    | none ↦ undefined
    | some future ↦ target future
  ]

  -- `const { … } = await ignition.deploy(module)`: the address of each result, and a value that stands
  -- for `undefined` where the module gives none.
  unfoldable pub deployed_by : Results → Deployed Address
  unfolding target_of
  deployed_by results = record {
    verifier = target_of "verifier" results;
    deposit_verifier = target_of "depositVerifier" results;
    withdraw_verifier = target_of "withdrawVerifier" results;
    batch_verifier = target_of "batchVerifier" results;
    batch_withdraw_verifier = target_of "batchWithdrawVerifier" results;
    lock_verifier = target_of "lockVerifier" results;
    batch_lock_verifier = target_of "batchLockVerifier" results;
    burn_verifier = target_of "burnVerifier" results;
    batch_burn_verifier = target_of "batchBurnVerifier" results;
    zeto_lockable_lib = target_of "zetoLockableLib" results;
    smt_lib = target_of "smtLib" results;
    poseidon2 = target_of "poseidon2" results;
    poseidon3 = target_of "poseidon3" results;
    poseidon5 = target_of "poseidon5" results;
    poseidon6 = target_of "poseidon6" results;
  }

-- A script reads nothing that its module does not give: whatever stands for `undefined`, wherever the
-- contracts have been deployed, it returns the same.
pub nothing_undefined :
    {Address : Type 0} (zero_address deployer u v : Address) (target : Future → Address)
    (t : TokenContract)
    → deploy_dependencies zero_address deployer (deployed_by target u (module_of t).results) t
      ≡ deploy_dependencies zero_address deployer (deployed_by target v (module_of t).results) t
unfolding deploy_dependencies deployed_by
nothing_undefined zero_address deployer u v target zeto_anon = refl
nothing_undefined zero_address deployer u v target zeto_anon_burnable = refl
nothing_undefined zero_address deployer u v target zeto_anon_enc = refl
nothing_undefined zero_address deployer u v target zeto_anon_enc_nullifier = refl
nothing_undefined zero_address deployer u v target zeto_anon_enc_nullifier_kyc = refl
nothing_undefined zero_address deployer u v target zeto_anon_enc_nullifier_non_repudiation = refl
nothing_undefined zero_address deployer u v target zeto_anon_nullifier = refl
nothing_undefined zero_address deployer u v target zeto_anon_nullifier_burnable = refl
nothing_undefined zero_address deployer u v target zeto_anon_nullifier_kyc = refl
nothing_undefined zero_address deployer u v target zeto_anon_nullifier_qurrency = refl
nothing_undefined zero_address deployer u v target zeto_nf_anon = refl
nothing_undefined zero_address deployer u v target zeto_nf_anon_nullifier = refl

abbrev same_future : Future → Future → Bool
same_future f g = str_eq f.module_id g.module_id && str_eq f.contract_id g.contract_id

abbrev among : Future → List Future → Bool
among f [] = false
among f (g ∷ gs) = same_future f g || among f gs

abbrev pub all_different : List Future → Bool
all_different [] = true
all_different (f ∷ fs) = not (among f fs) && all_different fs

-- No module makes two futures of the same names, its own and those of the modules it uses together.
pub futures_different : (t : TokenContract) → all_different (module_of t).futures ≡ true
futures_different zeto_anon = refl
futures_different zeto_anon_burnable = refl
futures_different zeto_anon_enc = refl
futures_different zeto_anon_enc_nullifier = refl
futures_different zeto_anon_enc_nullifier_kyc = refl
futures_different zeto_anon_enc_nullifier_non_repudiation = refl
futures_different zeto_anon_nullifier = refl
futures_different zeto_anon_nullifier_burnable = refl
futures_different zeto_anon_nullifier_kyc = refl
futures_different zeto_anon_nullifier_qurrency = refl
futures_different zeto_nf_anon = refl
futures_different zeto_nf_anon_nullifier = refl

-- Whether a slot is empty or has the contract that is named after another's, with `Batch` at the end.
abbrev is_batch_of : String → String → Bool
is_batch_of batch single = str_eq batch "" || str_eq batch (append single "Batch")

abbrev pub batches_match : VerifiersInfo String → Bool
batches_match v =
    is_batch_of v.batch_verifier v.verifier
    && is_batch_of v.batch_withdraw_verifier v.withdraw_verifier
    && is_batch_of v.batch_lock_verifier v.lock_verifier
    && is_batch_of v.batch_burn_verifier v.burn_verifier

-- The slots of a token that is deployed by its script and its module, by the names of the contracts in
-- them; an empty slot has the empty name.
abbrev pub verifier_names : TokenContract → VerifiersInfo String
verifier_names t =
    let named = deployed_by (λ f. f.contract_id) "undefined" (module_of t).results in
    (deploy_dependencies "" "" named t).verifiers

-- In every token each slot for batches is empty or has the contract that is named after the one in the
-- slot for single calls, with Batch at the end.
pub batches_matched : (t : TokenContract) → batches_match (verifier_names t) ≡ true
unfolding deploy_dependencies deployed_by
batches_matched zeto_anon = refl
batches_matched zeto_anon_burnable = refl
batches_matched zeto_anon_enc = refl
batches_matched zeto_anon_enc_nullifier = refl
batches_matched zeto_anon_enc_nullifier_kyc = refl
batches_matched zeto_anon_enc_nullifier_non_repudiation = refl
batches_matched zeto_anon_nullifier = refl
batches_matched zeto_anon_nullifier_burnable = refl
batches_matched zeto_anon_nullifier_kyc = refl
batches_matched zeto_anon_nullifier_qurrency = refl
batches_matched zeto_nf_anon = refl
batches_matched zeto_nf_anon_nullifier = refl
