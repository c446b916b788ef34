-- ===== src/Deploy/Chain/Tests.antt =====
-- A small network.
use zeto.Base.{ℕ, ◌≡◌, ◌↔◌, refl, true, none, some, [], ◌∷◌, length, if◌then◌else◌, err, arith}
use zeto.Deploy.Tokens.{
  zeto_anon_burnable, zeto_nf_anon, contract_name, has_set_erc20, fungibility_of, tokens,
}
use zeto.Deploy.Chain.{
  Network, deploy_erc20, script_of, script_not_found, deploy_non_fungible_cloneable,
  erc20_not_found, deploy_fungible_upgradeable, dependencies_of, erc20_of, named,
  deploy_upgradeable,
}
use zeto.Deploy.Chain.Kinds.{GoesThrough, IsListed, deploy_upgradeable_iff}
use zeto.Deploy.Chain.Owner.{IsDeployedAlike, scripts_agree}

-- Addresses are numbers of two digits, by the order of the transactions.
abbrev network : Network ℕ
network = record {
  signer = 0 ∷ 1 ∷ [];
  zero_address = 0 ∷ 0 ∷ [];
  undefined = [];
  created = λ sent t. 1 ∷ length sent ∷ [];
  future_at = λ sent f. 2 ∷ (if f.is_library then 1 else 0) ∷ [];
  contract_at = λ name address. none;
  read_artifact = λ name. record {
    bytecode = 0 ∷ 0 ∷ 5 ∷ 6 ∷ 7 ∷ 8 ∷ [];
    link_references =
        ("lib.sol", ("ZetoLockableLib", record { start = 0; length = 1 } ∷ []) ∷ []) ∷ [];
  };
}

no_such_script :
    deploy_non_fungible_cloneable network "Zeto_None" [] ≡ err (script_not_found "Zeto_None")
unfolding deploy_non_fungible_cloneable dependencies_of script_of named
no_such_script = refl

no_such_erc20 :
    deploy_fungible_upgradeable network "Zeto_Anon" (some (9 ∷ [])) [] ≡ err erc20_not_found
unfolding deploy_fungible_upgradeable erc20_of
no_such_erc20 = refl

burnable_fungible : has_set_erc20 zeto_anon_burnable ≡ true
unfolding has_set_erc20
burnable_fungible = refl

scripts_agree_example : IsDeployedAlike network zeto_anon_burnable (deploy_erc20 ∷ [])
scripts_agree_example =
    scripts_agree network zeto_anon_burnable (deploy_erc20 ∷ []) burnable_fungible

deploy_upgradeable_iff_example :
    GoesThrough network zeto_nf_anon
      (deploy_upgradeable network none (some (contract_name zeto_nf_anon)) tokens)
      []
    ↔ IsListed network zeto_nf_anon tokens
deploy_upgradeable_iff_example = deploy_upgradeable_iff network zeto_nf_anon tokens []

-- The table of tokens.json has it, as no fungible token.
listed : IsListed network zeto_nf_anon tokens
unfolding contract_name fungibility_of
listed = ("non-fungible", refl, refl, λ e. absurd (ground arith))
