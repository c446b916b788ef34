-- ===== src/Deploy/Tokens.antt =====
-- The tokens that have a script in solidity/scripts/tokens, and `deploy` of
-- solidity/scripts/lib/common.ts.
pub mod Libraries
mod Tests
use zeto.Base.{
  Bool, true, false, Option, none, some, List, [], ◌∷◌, String, str_eq, if◌then◌else◌, Result, ok,
  err,
}
use zeto.Deploy.Scripts.{Deployed, Dependencies}
use zeto.Deploy.Scripts.Plain.{
  zeto_anon_dependencies, zeto_anon_burnable_dependencies, zeto_anon_enc_dependencies,
  zeto_nf_anon_dependencies,
}
use zeto.Deploy.Scripts.Nullifier.{
  zeto_anon_enc_nullifier_dependencies, zeto_anon_enc_nullifier_kyc_dependencies,
  zeto_anon_enc_nullifier_non_repudiation_dependencies, zeto_anon_nullifier_dependencies,
  zeto_anon_nullifier_burnable_dependencies, zeto_anon_nullifier_kyc_dependencies,
  zeto_anon_nullifier_qurrency_dependencies, zeto_nf_anon_nullifier_dependencies,
}

-- The token contracts that have a script.
pub data TokenContract : Type 0 where
  zeto_anon zeto_anon_burnable zeto_anon_enc zeto_anon_enc_nullifier zeto_anon_enc_nullifier_kyc
        zeto_anon_enc_nullifier_non_repudiation zeto_anon_nullifier zeto_anon_nullifier_burnable
        zeto_anon_nullifier_kyc zeto_anon_nullifier_qurrency zeto_nf_anon zeto_nf_anon_nullifier :
      TokenContract

unfoldable pub contract_name : TokenContract → String
contract_name zeto_anon = "Zeto_Anon"
contract_name zeto_anon_burnable = "Zeto_AnonBurnable"
contract_name zeto_anon_enc = "Zeto_AnonEnc"
contract_name zeto_anon_enc_nullifier = "Zeto_AnonEncNullifier"
contract_name zeto_anon_enc_nullifier_kyc = "Zeto_AnonEncNullifierKyc"
contract_name zeto_anon_enc_nullifier_non_repudiation = "Zeto_AnonEncNullifierNonRepudiation"
contract_name zeto_anon_nullifier = "Zeto_AnonNullifier"
contract_name zeto_anon_nullifier_burnable = "Zeto_AnonNullifierBurnable"
contract_name zeto_anon_nullifier_kyc = "Zeto_AnonNullifierKyc"
contract_name zeto_anon_nullifier_qurrency = "Zeto_AnonNullifierQurrency"
contract_name zeto_nf_anon = "Zeto_NfAnon"
contract_name zeto_nf_anon_nullifier = "Zeto_NfAnonNullifier"

-- Whether the contract has `setERC20`, which it inherits from ZetoFungible of
-- solidity/contracts/lib/zeto_fungible.sol.
unfoldable pub has_set_erc20 : TokenContract → Bool
has_set_erc20 zeto_anon = true
has_set_erc20 zeto_anon_burnable = true
has_set_erc20 zeto_anon_enc = true
has_set_erc20 zeto_anon_enc_nullifier = true
has_set_erc20 zeto_anon_enc_nullifier_kyc = true
has_set_erc20 zeto_anon_enc_nullifier_non_repudiation = true
has_set_erc20 zeto_anon_nullifier = true
has_set_erc20 zeto_anon_nullifier_burnable = true
has_set_erc20 zeto_anon_nullifier_kyc = true
has_set_erc20 zeto_anon_nullifier_qurrency = true
has_set_erc20 zeto_nf_anon = false
has_set_erc20 zeto_nf_anon_nullifier = false

module _ {Address : Type 0} (zero_address deployer : Address) (d : Deployed Address) where
  -- `require('./tokens/…').deployDependencies()`
  unfoldable pub deploy_dependencies : TokenContract → Dependencies Address
  unfolding zeto_anon_dependencies zeto_anon_burnable_dependencies zeto_anon_enc_dependencies
      zeto_anon_enc_nullifier_dependencies zeto_anon_enc_nullifier_kyc_dependencies
      zeto_anon_enc_nullifier_non_repudiation_dependencies zeto_anon_nullifier_dependencies
      zeto_anon_nullifier_burnable_dependencies zeto_anon_nullifier_kyc_dependencies
      zeto_anon_nullifier_qurrency_dependencies zeto_nf_anon_dependencies
      zeto_nf_anon_nullifier_dependencies
  deploy_dependencies zeto_anon = zeto_anon_dependencies zero_address deployer d
  deploy_dependencies zeto_anon_burnable = zeto_anon_burnable_dependencies zero_address deployer d
  deploy_dependencies zeto_anon_enc = zeto_anon_enc_dependencies zero_address deployer d
  deploy_dependencies zeto_anon_enc_nullifier =
      zeto_anon_enc_nullifier_dependencies zero_address deployer d
  deploy_dependencies zeto_anon_enc_nullifier_kyc =
      zeto_anon_enc_nullifier_kyc_dependencies zero_address deployer d
  deploy_dependencies zeto_anon_enc_nullifier_non_repudiation =
      zeto_anon_enc_nullifier_non_repudiation_dependencies zero_address deployer d
  deploy_dependencies zeto_anon_nullifier = zeto_anon_nullifier_dependencies zero_address deployer d
  deploy_dependencies zeto_anon_nullifier_burnable =
      zeto_anon_nullifier_burnable_dependencies zero_address deployer d
  deploy_dependencies zeto_anon_nullifier_kyc =
      zeto_anon_nullifier_kyc_dependencies zero_address deployer d
  deploy_dependencies zeto_anon_nullifier_qurrency =
      zeto_anon_nullifier_qurrency_dependencies zero_address deployer d
  deploy_dependencies zeto_nf_anon = zeto_nf_anon_dependencies zero_address deployer d
  deploy_dependencies zeto_nf_anon_nullifier =
      zeto_nf_anon_nullifier_dependencies zero_address deployer d

-- What `deploy` does.
pub data Dispatch : Type 0 where
  skipped deploy_fungible deploy_non_fungible : Dispatch

pub data DeployError : Type 0 where
  no_contract_name invalid_contract_name : DeployError

unfoldable pub fungibility_of : String → List (String × String) → Option String
fungibility_of name [] = none
fungibility_of name ((n, f) ∷ entries) =
    if str_eq n name then some f else fungibility_of name entries

-- `deploy`, of TEST_DEPLOY_SCRIPTS, ZETO_NAME and tokens.json.
unfoldable pub deploy :
    Option String → Option String → List (String × String) → Result DeployError Dispatch
deploy test_scripts zeto_name fungibilities =
    if elim test_scripts [ none ↦ false | some value ↦ str_eq value "true" ]
    then ok skipped
    else elim zeto_name [
      | none ↦ err no_contract_name
      | some name ↦
          if str_eq name ""
          then err no_contract_name
          else elim (fungibility_of name fungibilities) [
            | none ↦ err invalid_contract_name
            | some f ↦
                if str_eq f ""
                then err invalid_contract_name
                else if str_eq f "fungible"
                then ok deploy_fungible
                else ok deploy_non_fungible
          ]
    ]

-- tokens.json
abbrev pub tokens : List (String × String)
tokens =
    ("Zeto_Anon", "fungible")
    ∷ ("Zeto_AnonBurnable", "fungible")
    ∷ ("Zeto_AnonEnc", "fungible")
    ∷ ("Zeto_AnonEncNullifier", "fungible")
    ∷ ("Zeto_AnonEncNullifierKyc", "fungible")
    ∷ ("Zeto_AnonNullifierQurrency", "fungible")
    ∷ ("Zeto_AnonNullifier", "fungible")
    ∷ ("Zeto_AnonNullifierKyc", "fungible")
    ∷ ("Zeto_AnonEncNullifierNonRepudiation", "fungible")
    ∷ ("Zeto_NfAnon", "non-fungible")
    ∷ ("Zeto_NfAnonNullifier", "non-fungible")
    ∷ []
