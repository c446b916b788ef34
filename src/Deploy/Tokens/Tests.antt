-- ===== src/Deploy/Tokens/Tests.antt =====
-- What `deploy` does with some names.
use zeto.Base.{◌≡◌, refl, none, some, ok, err}
use zeto.Deploy.Tokens.{
  zeto_anon_nullifier_burnable, contract_name, deploy, tokens, skipped, invalid_contract_name,
  fungibility_of,
}

in_a_test : deploy (some "true") none tokens ≡ ok skipped
unfolding deploy
in_a_test = refl

-- The token has a script, but no entry in tokens.json.
not_in_the_table :
    deploy none (some (contract_name zeto_anon_nullifier_burnable)) tokens
    ≡ err invalid_contract_name
unfolding deploy contract_name fungibility_of
not_in_the_table = refl
