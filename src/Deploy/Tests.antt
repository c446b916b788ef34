-- ===== src/Deploy/Tests.antt =====
-- The scripts and modules of some tokens.
use zeto.Base.{ℕ, ◌≡◌, refl, if◌then◌else◌}
use zeto.Deploy.Tokens.{deploy_dependencies, zeto_anon_burnable, zeto_anon_nullifier_qurrency}
use zeto.Deploy.Modules.{Future}
use zeto.Deploy.Given.{module_of, deployed_by, nothing_undefined}
use zeto.Deploy.Given.Wired.{IsWired, deploy_dependencies-IsWired}

abbrev address : Future → ℕ
address f = if f.is_library then 1 else 2

nothing_undefined_example :
    deploy_dependencies 0 99
      (deployed_by address 5 (module_of zeto_anon_nullifier_qurrency).results)
      zeto_anon_nullifier_qurrency
    ≡ deploy_dependencies 0 99
        (deployed_by address 6 (module_of zeto_anon_nullifier_qurrency).results)
        zeto_anon_nullifier_qurrency
nothing_undefined_example = nothing_undefined 0 99 5 6 address zeto_anon_nullifier_qurrency

deploy_dependencies-IsWired_example :
    let d = deployed_by address 5 (module_of zeto_anon_burnable).results in
    let given = deploy_dependencies 0 99 d zeto_anon_burnable in
    IsWired address 0 zeto_anon_burnable given.verifiers × (given.initial_owner ≡ 99)
deploy_dependencies-IsWired_example = deploy_dependencies-IsWired 0 99 5 address zeto_anon_burnable

-- Proofs for locked inputs have no verifier.
burnable_lock :
    (deploy_dependencies 0 99
      (deployed_by address 5 (module_of zeto_anon_burnable).results)
      zeto_anon_burnable).verifiers.lock_verifier
    ≡ 0
unfolding deploy_dependencies deployed_by
burnable_lock = refl
