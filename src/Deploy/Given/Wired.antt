-- ===== src/Deploy/Given/Wired.antt =====
-- Which of the verifiers that a token's module deploys its script hands to the token, and where.
use zeto.Base.{Bool, true, false, ◌≡◌, refl, none, some, String, if◌then◌else◌}
use zeto.Deploy.Scripts.{VerifiersInfo}
use zeto.Deploy.Tokens.{
  TokenContract, deploy_dependencies, zeto_anon, zeto_anon_burnable, zeto_anon_enc,
  zeto_anon_enc_nullifier, zeto_anon_enc_nullifier_kyc, zeto_anon_enc_nullifier_non_repudiation,
  zeto_anon_nullifier, zeto_anon_nullifier_burnable, zeto_anon_nullifier_kyc,
  zeto_anon_nullifier_qurrency, zeto_nf_anon, zeto_nf_anon_nullifier,
}
use zeto.Deploy.Modules.{Future, Results, field}
use zeto.Deploy.Given.{module_of, deployed_by}

-- The tokens whose proofs for locked inputs are those for unlocked ones, so that their verifiers serve
-- both.
abbrev pub shares_verifiers : TokenContract → Bool
shares_verifiers zeto_anon = true
shares_verifiers zeto_anon_enc = true
shares_verifiers zeto_nf_anon = true
shares_verifiers _ = false

module _ {Address : Type 0} (target : Future → Address) where
  -- The address of what a module gives by a name, or another value.
  abbrev given_or : Address → String → Results → Address
  given_or other name results = elim (field name results) [
    | none ↦ other
    | some future ↦ target future
  ]

  -- Each slot has what the module gives by the slot's name. Where the module gives nothing, it has the
  -- zero address, or in the slots for locked inputs of a token that shares its verifiers, the verifier for
  -- unlocked ones.
  abbrev pub IsWired : Address → TokenContract → VerifiersInfo Address → Type 0
  IsWired zero_address t v =
      let results = (module_of t).results in
      (v.verifier ≡ given_or zero_address "verifier" results)
      × (v.deposit_verifier ≡ given_or zero_address "depositVerifier" results)
      × (v.withdraw_verifier ≡ given_or zero_address "withdrawVerifier" results)
      × (v.batch_verifier ≡ given_or zero_address "batchVerifier" results)
      × (v.batch_withdraw_verifier ≡ given_or zero_address "batchWithdrawVerifier" results)
      × (v.burn_verifier ≡ given_or zero_address "burnVerifier" results)
      × (v.batch_burn_verifier ≡ given_or zero_address "batchBurnVerifier" results)
      × (v.lock_verifier
          ≡ given_or (if shares_verifiers t then v.verifier else zero_address) "lockVerifier"
              results)
      × (v.batch_lock_verifier
          ≡ given_or (if shares_verifiers t then v.batch_verifier else zero_address)
              "batchLockVerifier" results)

-- Every verifier that a token's module deploys is handed to the token in the slot of its name, wherever
-- it has been deployed. A slot for which the module has none gets the zero address, except that
-- Zeto_Anon, Zeto_AnonEnc and Zeto_NfAnon get the verifiers for unlocked inputs for locked ones too. The
-- owner is the account that deploys.
pub deploy_dependencies-IsWired :
    {Address : Type 0} (zero_address deployer undefined : Address) (target : Future → Address)
    (t : TokenContract)
    → let d = deployed_by target undefined (module_of t).results in
      let given = deploy_dependencies zero_address deployer d t in
      IsWired target zero_address t given.verifiers × (given.initial_owner ≡ deployer)
unfolding deploy_dependencies deployed_by
deploy_dependencies-IsWired z a u target zeto_anon =
    ((refl, refl, refl, refl, refl, refl, refl, refl, refl), refl)
deploy_dependencies-IsWired z a u target zeto_anon_burnable =
    ((refl, refl, refl, refl, refl, refl, refl, refl, refl), refl)
deploy_dependencies-IsWired z a u target zeto_anon_enc =
    ((refl, refl, refl, refl, refl, refl, refl, refl, refl), refl)
deploy_dependencies-IsWired z a u target zeto_anon_enc_nullifier =
    ((refl, refl, refl, refl, refl, refl, refl, refl, refl), refl)
deploy_dependencies-IsWired z a u target zeto_anon_enc_nullifier_kyc =
    ((refl, refl, refl, refl, refl, refl, refl, refl, refl), refl)
deploy_dependencies-IsWired z a u target zeto_anon_enc_nullifier_non_repudiation =
    ((refl, refl, refl, refl, refl, refl, refl, refl, refl), refl)
deploy_dependencies-IsWired z a u target zeto_anon_nullifier =
    ((refl, refl, refl, refl, refl, refl, refl, refl, refl), refl)
deploy_dependencies-IsWired z a u target zeto_anon_nullifier_burnable =
    ((refl, refl, refl, refl, refl, refl, refl, refl, refl), refl)
deploy_dependencies-IsWired z a u target zeto_anon_nullifier_kyc =
    ((refl, refl, refl, refl, refl, refl, refl, refl, refl), refl)
deploy_dependencies-IsWired z a u target zeto_anon_nullifier_qurrency =
    ((refl, refl, refl, refl, refl, refl, refl, refl, refl), refl)
deploy_dependencies-IsWired z a u target zeto_nf_anon =
    ((refl, refl, refl, refl, refl, refl, refl, refl, refl), refl)
deploy_dependencies-IsWired z a u target zeto_nf_anon_nullifier =
    ((refl, refl, refl, refl, refl, refl, refl, refl, refl), refl)
