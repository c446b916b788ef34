-- ===== src/Deploy/Chain/Kinds.antt =====
-- For which tables of tokens the script deploy_upgradeable.ts goes through.
use zeto.Base.{
  ◌≡◌, ◌↔◌, ◌∙◌, refl, true, false, Bool-cases, Option-cases, inl, inr, none, some, Option, List,
  [], ◌∷◌, ◌++◌, String, str_eq, ok, err,
}
use zeto.Deploy.Tokens.{
  TokenContract, zeto_anon, zeto_anon_burnable, zeto_anon_enc, zeto_anon_enc_nullifier,
  zeto_anon_enc_nullifier_kyc, zeto_anon_enc_nullifier_non_repudiation, zeto_anon_nullifier,
  zeto_anon_nullifier_burnable, zeto_anon_nullifier_kyc, zeto_anon_nullifier_qurrency, zeto_nf_anon,
  zeto_nf_anon_nullifier, contract_name, has_set_erc20, fungibility_of, deploy,
  invalid_contract_name, deploy_fungible, deploy_non_fungible,
}
use zeto.Deploy.Chain.{
  Script, ScriptError, Transaction, deploy_erc20, Network, Upgradeable, ◌>>=◌, finish, erc20_of,
  connect_erc20, no_set_erc20, not_deployed, deploy_fungible_upgradeable,
  deploy_non_fungible_upgradeable, deploy_upgradeable,
}
use zeto.Deploy.Chain.Owner.{takes_erc20-contract_name, after_dependencies, scripts_agree}

not_empty : (t : TokenContract) → str_eq (contract_name t) "" ≡ false
unfolding contract_name
not_empty zeto_anon = refl
not_empty zeto_anon_burnable = refl
not_empty zeto_anon_enc = refl
not_empty zeto_anon_enc_nullifier = refl
not_empty zeto_anon_enc_nullifier_kyc = refl
not_empty zeto_anon_enc_nullifier_non_repudiation = refl
not_empty zeto_anon_nullifier = refl
not_empty zeto_anon_nullifier_burnable = refl
not_empty zeto_anon_nullifier_kyc = refl
not_empty zeto_anon_nullifier_qurrency = refl
not_empty zeto_nf_anon = refl
not_empty zeto_nf_anon_nullifier = refl

then_some :
    {Char A : Type 0} (script : Script Char A) (sent after : List (Transaction Char)) (a : A)
    → script sent ≡ ok (a, after)
    → (script >>= λ (d : A). finish (some d)) sent ≡ ok (some a, after)
then_some script sent after a h = rw (◌>>=◌, h) refl

module _ (t : TokenContract) (table : List (String × String)) where
  deploy-absent :
      fungibility_of (contract_name t) table ≡ none
      → deploy none (some (contract_name t)) table ≡ err invalid_contract_name
  unfolding deploy
  deploy-absent e = rw (deploy, not_empty t, e) refl

  module _ (kind : String) (e : fungibility_of (contract_name t) table ≡ some kind) where
    deploy-empty :
        str_eq kind "" ≡ true
        → deploy none (some (contract_name t)) table ≡ err invalid_contract_name
    unfolding deploy
    deploy-empty h = rw (deploy, not_empty t, e, h) refl

    deploy-fungible :
        str_eq kind "" ≡ false
        → str_eq kind "fungible" ≡ true
        → deploy none (some (contract_name t)) table ≡ ok deploy_fungible
    unfolding deploy
    deploy-fungible h k = rw (deploy, not_empty t, e, h, k) refl

    deploy-other :
        str_eq kind "" ≡ false
        → str_eq kind "fungible" ≡ false
        → deploy none (some (contract_name t)) table ≡ ok deploy_non_fungible
    unfolding deploy
    deploy-other h k = rw (deploy, not_empty t, e, h, k) refl

module _ {Char : Type 0} (network : Network Char) (t : TokenContract) where
  abbrev pub GoesThrough : {A : Type 0} → Script Char A → List (Transaction Char) → Type 0
  GoesThrough {A} script sent =
      (a : A) × (after : List (Transaction Char)) × (script sent ≡ ok (a, after))

  fungible_refused :
      (sent : List (Transaction Char))
      → has_set_erc20 t ≡ false
      → deploy_fungible_upgradeable network (contract_name t) none sent ≡ err no_set_erc20
  unfolding deploy_fungible_upgradeable erc20_of connect_erc20
  fungible_refused sent h =
      after_dependencies network _ t (sent ++ deploy_erc20 ∷ [])
      ∙ rw (takes_erc20-contract_name t, h) refl

  non_fungible-GoesThrough :
      (sent : List (Transaction Char))
      → GoesThrough (deploy_non_fungible_upgradeable network (contract_name t)) sent
  unfolding deploy_non_fungible_upgradeable
  non_fungible-GoesThrough sent = (_, _, after_dependencies network _ t sent)

  module _ (table : List (String × String)) where
    abbrev script : Script Char (Option (Upgradeable Char))
    script = deploy_upgradeable network none (some (contract_name t)) table

    -- `deploy` takes the token for one kind or the other, or refuses its name.
    without_kind :
        (sent : List (Transaction Char))
        → fungibility_of (contract_name t) table ≡ none
        → script sent ≡ err (not_deployed invalid_contract_name)
    unfolding deploy_upgradeable
    without_kind sent e = rw (deploy_upgradeable, deploy-absent t table e) refl

    module _ (kind : String) (e : fungibility_of (contract_name t) table ≡ some kind) where
      with_empty_kind :
          (sent : List (Transaction Char))
          → str_eq kind "" ≡ true
          → script sent ≡ err (not_deployed invalid_contract_name)
      unfolding deploy_upgradeable
      with_empty_kind sent h = rw (deploy_upgradeable, deploy-empty t table kind e h) refl

      with_fungible_kind :
          (sent : List (Transaction Char))
          → str_eq kind "" ≡ false
          → str_eq kind "fungible" ≡ true
          → script sent
            ≡ (deploy_fungible_upgradeable network (contract_name t) none >>= λ d. finish (some d))
                sent
      unfolding deploy_upgradeable
      with_fungible_kind sent h k = rw (deploy_upgradeable, deploy-fungible t table kind e h k) refl

      with_other_kind :
          (sent : List (Transaction Char))
          → str_eq kind "" ≡ false
          → str_eq kind "fungible" ≡ false
          → script sent
            ≡ (deploy_non_fungible_upgradeable network (contract_name t) >>= λ d. finish (some d))
                sent
      unfolding deploy_upgradeable
      with_other_kind sent h k = rw (deploy_upgradeable, deploy-other t table kind e h k) refl

    refused_script :
        (sent : List (Transaction Char)) (e : ScriptError)
        → script sent ≡ err e
        → GoesThrough script sent
        → ⊥
    refused_script sent e h (a, after, k) = cc

    -- The table has the token's name with a kind that is not empty, and with fungible only if the contract
    -- has setERC20.
    abbrev pub IsListed : Type 0
    IsListed =
        (kind : String) × (fungibility_of (contract_name t) table ≡ some kind)
        × (str_eq kind "" ≡ false)
        × (str_eq kind "fungible" ≡ true → has_set_erc20 t ≡ true)

    GoesThrough-IsListed : (sent : List (Transaction Char)) → GoesThrough script sent → IsListed
    GoesThrough-IsListed sent g = elim (Option-cases (fungibility_of (contract_name t) table)) [
      | inl e ↦ absurd (refused_script sent _ (without_kind sent e) g)
      | inr (kind, e) ↦ elim (Bool-cases (str_eq kind "")) [
        | inl h ↦ absurd (refused_script sent _ (with_empty_kind kind e sent h) g)
        | inr h ↦ elim (Bool-cases (has_set_erc20 t)) [
          | inl f ↦ (kind, e, h, λ k. f)
          | inr f ↦
              let refuses : (str_eq kind "fungible" ≡ true → ⊥) = λ k.
                refused_script sent no_set_erc20
                  (with_fungible_kind kind e sent h k ∙ rw (◌>>=◌, fungible_refused sent f) refl)
                  g in
              (kind, e, h, λ k. absurd (refuses k))
        ]
      ]
    ]

    IsListed-GoesThrough : (sent : List (Transaction Char)) → IsListed → GoesThrough script sent
    IsListed-GoesThrough sent (kind, e, h, f) = elim (Bool-cases (str_eq kind "fungible")) [
      | inl k ↦
          let (erc20, d, before, factory, up, clone) = scripts_agree network t sent (f k) in
          (
            _,
            _,
            with_fungible_kind kind e sent h k
                ∙ then_some (deploy_fungible_upgradeable network (contract_name t) none) sent _ _
                    up,
          )
      | inr k ↦
          let (d, after, done) = non_fungible-GoesThrough sent in
          (
            _,
            _,
            with_other_kind kind e sent h k
                ∙ then_some (deploy_non_fungible_upgradeable network (contract_name t)) sent _ _
                    done,
          )
    ]

    -- Run for a token that has a script, with any table of tokens, deploy_upgradeable.ts goes through
    -- exactly when the table has the token's name with a kind that is not empty, and with `fungible`
    -- only if the token's contract has setERC20.
    pub deploy_upgradeable_iff :
        (sent : List (Transaction Char))
        → GoesThrough (deploy_upgradeable network none (some (contract_name t)) table) sent
          ↔ IsListed
    deploy_upgradeable_iff sent = (GoesThrough-IsListed sent, IsListed-GoesThrough sent)
