-- ===== src/Deploy/Chain/Owner.antt =====
-- Who deploys a token and who owns it.
use zeto.Base.{◌≡◌, refl, ◌∙◌, true, none, some, List, [], ◌∷◌, ◌++◌, ok}
use zeto.Deploy.Scripts.{Deployed, Dependencies}
use zeto.Deploy.Given.{module_of, deployed_by}
use zeto.Deploy.Tokens.{
  TokenContract, zeto_anon, zeto_anon_burnable, zeto_anon_enc, zeto_anon_enc_nullifier,
  zeto_anon_enc_nullifier_kyc, zeto_anon_enc_nullifier_non_repudiation, zeto_anon_nullifier,
  zeto_anon_nullifier_burnable, zeto_anon_nullifier_kyc, zeto_anon_nullifier_qurrency, zeto_nf_anon,
  zeto_nf_anon_nullifier, contract_name, deploy_dependencies, has_set_erc20,
}
use zeto.Deploy.Chain.{
  Script, ◌>>=◌, script_of, named, Factory, Transaction, deploy_erc20, deploy_module, deploy_proxy,
  deploy_contract, set_erc20, Network, dependencies_of, get_linked_contract_factory, unsafe_allow,
  erc20_of, takes_erc20, connect_erc20, deploy_fungible_upgradeable, deploy_fungible_cloneable,
}

pub script_of-contract_name : (t : TokenContract) → script_of (contract_name t) ≡ some t
unfolding script_of contract_name named
script_of-contract_name zeto_anon = refl
script_of-contract_name zeto_anon_burnable = refl
script_of-contract_name zeto_anon_enc = refl
script_of-contract_name zeto_anon_enc_nullifier = refl
script_of-contract_name zeto_anon_enc_nullifier_kyc = refl
script_of-contract_name zeto_anon_enc_nullifier_non_repudiation = refl
script_of-contract_name zeto_anon_nullifier = refl
script_of-contract_name zeto_anon_nullifier_burnable = refl
script_of-contract_name zeto_anon_nullifier_kyc = refl
script_of-contract_name zeto_anon_nullifier_qurrency = refl
script_of-contract_name zeto_nf_anon = refl
script_of-contract_name zeto_nf_anon_nullifier = refl

pub takes_erc20-contract_name :
    (t : TokenContract) → takes_erc20 (contract_name t) ≡ has_set_erc20 t
unfolding takes_erc20
takes_erc20-contract_name t = rw (takes_erc20, script_of-contract_name t) refl

module _ {Address : Type 0} (zero_address deployer : Address) (d : Deployed Address) where
  -- The account that deploys is the owner.
  deploy_dependencies-deployer :
      (t : TokenContract)
      → (deploy_dependencies zero_address deployer d t).deployer
        ≡ (deploy_dependencies zero_address deployer d t).initial_owner
  unfolding deploy_dependencies
  deploy_dependencies-deployer zeto_anon = refl
  deploy_dependencies-deployer zeto_anon_burnable = refl
  deploy_dependencies-deployer zeto_anon_enc = refl
  deploy_dependencies-deployer zeto_anon_enc_nullifier = refl
  deploy_dependencies-deployer zeto_anon_enc_nullifier_kyc = refl
  deploy_dependencies-deployer zeto_anon_enc_nullifier_non_repudiation = refl
  deploy_dependencies-deployer zeto_anon_nullifier = refl
  deploy_dependencies-deployer zeto_anon_nullifier_burnable = refl
  deploy_dependencies-deployer zeto_anon_nullifier_kyc = refl
  deploy_dependencies-deployer zeto_anon_nullifier_qurrency = refl
  deploy_dependencies-deployer zeto_nf_anon = refl
  deploy_dependencies-deployer zeto_nf_anon_nullifier = refl

module _ {Char : Type 0} (network : Network Char) where
  dependencies_of-contract_name :
      (t : TokenContract) (sent : List (Transaction Char))
      → dependencies_of network (contract_name t) sent
        ≡ ok (
          deploy_dependencies network.zero_address network.signer
              (deployed_by (network.future_at sent) network.undefined (module_of t).results)
              t,
          sent ++ deploy_module (module_of t) ∷ [],
        )
  unfolding dependencies_of
  dependencies_of-contract_name t sent = rw (dependencies_of, script_of-contract_name t) refl

  pub after_dependencies :
      {A : Type 0} (next : Dependencies (List Char) → Script Char A) (t : TokenContract)
      (sent : List (Transaction Char))
      → (dependencies_of network (contract_name t) >>= next) sent
        ≡ next
            (deploy_dependencies network.zero_address network.signer
              (deployed_by (network.future_at sent) network.undefined (module_of t).results)
              t)
            (sent ++ deploy_module (module_of t) ∷ [])
  after_dependencies next t sent = rw (◌>>=◌, dependencies_of-contract_name t sent) refl

  -- Both scripts, with a new ERC20, go through: after the same transactions they deploy the same code,
  -- with or for the same arguments, and deploy_upgradeable's last transaction sets the ERC20 on the
  -- proxy, from the account that is its owner.
  abbrev pub IsDeployedAlike : TokenContract → List (Transaction Char) → Type 0
  IsDeployedAlike t sent =
      (erc20 : List Char) × (d : Dependencies (List Char)) × (before : List (Transaction Char))
      × (factory : Factory Char) × (let proxy = deploy_proxy factory d unsafe_allow in
          let zeto = network.created before proxy in
          deploy_fungible_upgradeable network (contract_name t) none sent
          ≡ ok (
            record { deployer = d.deployer; zeto = zeto; erc20 = some erc20 },
            (before ++ proxy ∷ []) ++ set_erc20 zeto d.initial_owner erc20 ∷ [],
          ))
      × (let impl = deploy_contract factory in
          deploy_fungible_cloneable network (contract_name t) sent
          ≡ ok (
            record {
              deployer = d.deployer;
              zeto_impl = network.created before impl;
              erc20 = some erc20;
              args = d;
            },
            before ++ impl ∷ [],
          ))

  -- For every token that has a script and whose contract has setERC20, the deployFungible of both
  -- scripts, with a new ERC20, goes through: they deploy the same code after the same transactions and
  -- with or for the same arguments, and the last transaction of deploy_upgradeable sets the ERC20 on the
  -- proxy, from the account that is its owner.
  pub scripts_agree :
      (t : TokenContract) (sent : List (Transaction Char))
      → has_set_erc20 t ≡ true
      → IsDeployedAlike t sent
  unfolding deploy_fungible_upgradeable deploy_fungible_cloneable erc20_of connect_erc20
  scripts_agree t sent fungible =
      let start = sent ++ deploy_erc20 ∷ [] in
      let deployed =
        deployed_by (network.future_at start) network.undefined (module_of t).results in
      let d = deploy_dependencies network.zero_address network.signer deployed t in
      (
        network.created sent deploy_erc20,
        d,
        start ++ deploy_module (module_of t) ∷ [],
        get_linked_contract_factory network (contract_name t) d.libraries,
        after_dependencies _ t start
            ∙ rw
                (
                  takes_erc20-contract_name t,
                  fungible,
                  deploy_dependencies-deployer network.zero_address network.signer deployed t,
                )
                refl,
        after_dependencies _ t start,
      )
