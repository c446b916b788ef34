-- ===== src/Deploy/Chain.antt =====
-- The deployment of a token, as the transactions that solidity/scripts/deploy_upgradeable.ts and
-- solidity/scripts/deploy_cloneable.ts send.
pub mod Owner
pub mod Kinds
mod Tests
use zeto.Base.{
  Bool, true, false, Option, none, some, List, [], ◌∷◌, ◌++◌, String, str_eq, if◌then◌else◌, Result,
  ok, err,
}
use zeto.Deploy.Linking.{FileReferences, link_bytecode}
use zeto.Deploy.Scripts.{Dependencies}
use zeto.Deploy.Modules.{Future, Module}
use zeto.Deploy.Given.{module_of, deployed_by}
use zeto.Deploy.Tokens.{
  TokenContract, zeto_anon, zeto_anon_burnable, zeto_anon_enc, zeto_anon_enc_nullifier,
  zeto_anon_enc_nullifier_kyc, zeto_anon_enc_nullifier_non_repudiation, zeto_anon_nullifier,
  zeto_anon_nullifier_burnable, zeto_anon_nullifier_kyc, zeto_anon_nullifier_qurrency, zeto_nf_anon,
  zeto_nf_anon_nullifier, contract_name, deploy_dependencies, has_set_erc20, DeployError, skipped,
  deploy_fungible, deploy_non_fungible, deploy,
}

pub data ScriptError : Type 0 where
  -- `require` finds no script of the name.
  script_not_found : String → ScriptError
  erc20_not_found : ScriptError
  -- `setERC20` is called on a contract that has no such function.
  no_set_erc20 : ScriptError
  -- What `deploy` throws.
  not_deployed : DeployError → ScriptError

abbrev all_scripts : List TokenContract
all_scripts =
    zeto_anon ∷ zeto_anon_burnable ∷ zeto_anon_enc ∷ zeto_anon_enc_nullifier
    ∷ zeto_anon_enc_nullifier_kyc ∷ zeto_anon_enc_nullifier_non_repudiation ∷ zeto_anon_nullifier
    ∷ zeto_anon_nullifier_burnable ∷ zeto_anon_nullifier_kyc ∷ zeto_anon_nullifier_qurrency
    ∷ zeto_nf_anon ∷ zeto_nf_anon_nullifier ∷ []

unfoldable pub named : String → List TokenContract → Option TokenContract
unfolding contract_name
named name [] = none
named name (t ∷ ts) = if str_eq (contract_name t) name then some t else named name ts

-- `require('./tokens/…')`: the files are named after the contracts.
unfoldable pub script_of : String → Option TokenContract
unfolding named
script_of name = named name all_scripts

-- Whether the contract of a name has `setERC20`.
unfoldable pub takes_erc20 : String → Bool
unfolding script_of has_set_erc20
takes_erc20 name = elim (script_of name) [ none ↦ false | some t ↦ has_set_erc20 t ]

-- The characters of addresses and code.
module _ (Char : Type 0) where
  pub record Artifact : Type 0 where
    pub bytecode : List Char
    pub link_references : List (String × FileReferences)

  pub record Factory : Type 0 where
    pub name : String
    pub code : List Char

  pub data Transaction : Type 0 where
    deploy_erc20 : Transaction
    -- `ignition.deploy` of a token's module.
    deploy_module : Module → Transaction
    -- `upgrades.deployProxy`, of what the initializer is given and what is allowed as unsafe.
    deploy_proxy : Factory → Dependencies (List Char) → List String → Transaction
    deploy_contract : Factory → Transaction
    -- `setERC20` on a token, by an account, of a contract.
    set_erc20 : List Char → List Char → List Char → Transaction

  -- What the scripts find: the first signer, the zero address, what the transactions create, which
  -- depends on those before, contracts at an address, and the compiler's artifacts.
  pub record Network : Type 0 where
    pub signer : List Char
    pub zero_address : List Char
    pub undefined : List Char
    pub created : List Transaction → Transaction → List Char
    pub future_at : List Transaction → Future → List Char
    pub contract_at : String → List Char → Option (List Char)
    pub read_artifact : String → Artifact

  -- A script: of the transactions so far.
  abbrev pub Script : Type 0 → Type 0
  Script A = List Transaction → Result ScriptError (A × List Transaction)

infixl 5 ◌>>=◌ ◌>>◌
abbrev pub ◌>>=◌ : {Char A B : Type 0} → Script Char A → (A → Script Char B) → Script Char B
(first >>= next) sent = elim (first sent) [ ok (a, more) ↦ next a more | err e ↦ err e ]

abbrev pub ◌>>◌ : {Char A B : Type 0} → Script Char A → Script Char B → Script Char B
first >> next = first >>= λ _. next

abbrev pub finish : {Char A : Type 0} → A → Script Char A
finish a sent = ok (a, sent)

abbrev pub fail : {Char A : Type 0} → ScriptError → Script Char A
fail e sent = err e

-- What the scripts return.
pub record Upgradeable (Char : Type 0) : Type 0 where
  pub deployer : List Char
  pub zeto : List Char
  pub erc20 : Option (List Char)

pub record Cloneable (Char : Type 0) : Type 0 where
  pub deployer : List Char
  pub zeto_impl : List Char
  pub erc20 : Option (List Char)
  pub args : Dependencies (List Char)

-- `unsafeAllow`. Every script gives libraries.
abbrev pub unsafe_allow : List String
unsafe_allow = "delegatecall" ∷ "external-library-linking" ∷ []

module _ {Char : Type 0} (network : Network Char) where
  abbrev send : Transaction Char → Script Char (List Char)
  send t sent = ok (network.created sent t, sent ++ t ∷ [])

  -- `require('./tokens/…').deployDependencies()`
  unfoldable pub dependencies_of : String → Script Char (Dependencies (List Char))
  unfolding script_of deploy_dependencies deployed_by
  dependencies_of name sent = elim (script_of name) [
    | none ↦ err (script_not_found name)
    | some t ↦
        let d = deployed_by (network.future_at sent) network.undefined (module_of t).results in
        ok (
          deploy_dependencies network.zero_address network.signer d t,
          sent ++ deploy_module (module_of t) ∷ [],
        )
  ]

  -- `getLinkedContractFactory`
  unfoldable pub get_linked_contract_factory : String → List (String × List Char) → Factory Char
  unfolding link_bytecode
  get_linked_contract_factory name libraries =
      let artifact = network.read_artifact name in
      record {
        name = name;
        code = link_bytecode libraries artifact.bytecode artifact.link_references;
      }

  -- `ignition.deploy(erc20Module)`, or the contract at the address that is given.
  unfoldable pub erc20_of : Option (List Char) → Script Char (List Char)
  erc20_of none = send deploy_erc20
  erc20_of (some []) = send deploy_erc20
  erc20_of (some (c ∷ cs)) = elim (network.contract_at "SampleERC20" (c ∷ cs)) [
    | none ↦ fail erc20_not_found
    | some target ↦ finish target
  ]

  -- `zeto.connect(deployer).setERC20(erc20.target)`
  unfoldable pub connect_erc20 :
      String → List Char → List Char → List Char → Script Char (List Char)
  connect_erc20 name zeto deployer erc20 =
      if takes_erc20 name then send (set_erc20 zeto deployer erc20) else fail no_set_erc20

  -- `deployFungible` of deploy_upgradeable.ts.
  unfoldable pub deploy_fungible_upgradeable :
      String → Option (List Char) → Script Char (Upgradeable Char)
  unfolding dependencies_of get_linked_contract_factory erc20_of connect_erc20
  deploy_fungible_upgradeable name erc20_address = do
    erc20 ← erc20_of erc20_address
    d ← dependencies_of name
    let factory = get_linked_contract_factory name d.libraries
    zeto ← send (deploy_proxy factory d unsafe_allow)
    connect_erc20 name zeto d.deployer erc20
    finish (record { deployer = d.deployer; zeto = zeto; erc20 = some erc20 })

  -- `deployNonFungible` of deploy_upgradeable.ts.
  unfoldable pub deploy_non_fungible_upgradeable : String → Script Char (Upgradeable Char)
  unfolding dependencies_of get_linked_contract_factory
  deploy_non_fungible_upgradeable name = do
    d ← dependencies_of name
    let factory = get_linked_contract_factory name d.libraries
    zeto ← send (deploy_proxy factory d unsafe_allow)
    finish (record { deployer = d.deployer; zeto = zeto; erc20 = none })

  -- `deploy(deployFungible, deployNonFungible)` of deploy_upgradeable.ts, of TEST_DEPLOY_SCRIPTS,
  -- ZETO_NAME and tokens.json.
  unfoldable pub deploy_upgradeable :
      Option String
      → Option String
      → List (String × String)
      → Script Char (Option (Upgradeable Char))
  unfolding deploy deploy_fungible_upgradeable deploy_non_fungible_upgradeable
  deploy_upgradeable test_scripts none fungibilities =
      elim (deploy test_scripts none fungibilities) [
        | err e ↦ fail (not_deployed e)
        | ok _ ↦ finish none
      ]
  deploy_upgradeable test_scripts (some name) fungibilities =
      elim (deploy test_scripts (some name) fungibilities) [
        | err e ↦ fail (not_deployed e)
        | ok skipped ↦ finish none
        | ok deploy_fungible ↦ do
          deployed ← deploy_fungible_upgradeable name none
          finish (some deployed)
        | ok deploy_non_fungible ↦ do
          deployed ← deploy_non_fungible_upgradeable name
          finish (some deployed)
      ]

  -- `deployFungible` of deploy_cloneable.ts.
  unfoldable pub deploy_fungible_cloneable : String → Script Char (Cloneable Char)
  unfolding dependencies_of get_linked_contract_factory
  deploy_fungible_cloneable name = do
    erc20 ← send deploy_erc20
    d ← dependencies_of name
    impl ← send (deploy_contract (get_linked_contract_factory name d.libraries))
    finish (record { deployer = d.deployer; zeto_impl = impl; erc20 = some erc20; args = d })

  -- `deployNonFungible` of deploy_cloneable.ts.
  unfoldable pub deploy_non_fungible_cloneable : String → Script Char (Cloneable Char)
  unfolding dependencies_of get_linked_contract_factory
  deploy_non_fungible_cloneable name = do
    d ← dependencies_of name
    impl ← send (deploy_contract (get_linked_contract_factory name d.libraries))
    finish (record { deployer = network.signer; zeto_impl = impl; erc20 = none; args = d })
