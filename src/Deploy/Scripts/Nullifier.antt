-- ===== src/Deploy/Scripts/Nullifier.antt =====
-- The scripts of solidity/scripts/tokens for the tokens with nullifiers.
use zeto.Base.{none, some}
use zeto.Deploy.Scripts.{Deployed, Dependencies, with_zeto_lockable_lib, smt_libraries}

-- The zero address, the account that deploys, and what the token's module has deployed.
module _ {Address : Type 0} (zero_address deployer : Address) (d : Deployed Address) where
  -- Zeto_AnonEncNullifier.ts
  unfoldable pub zeto_anon_enc_nullifier_dependencies : Dependencies Address
  zeto_anon_enc_nullifier_dependencies = record {
    deployer = deployer;
    token_name = "Zeto Anon Enc Nullifier";
    symbol = "ZAEN";
    initial_owner = deployer;
    verifiers = record {
      verifier = d.verifier;
      deposit_verifier = d.deposit_verifier;
      withdraw_verifier = d.withdraw_verifier;
      batch_verifier = d.batch_verifier;
      batch_withdraw_verifier = d.batch_withdraw_verifier;
      lock_verifier = d.lock_verifier;
      batch_lock_verifier = d.batch_lock_verifier;
      burn_verifier = zero_address;
      batch_burn_verifier = zero_address;
    };
    libraries =
        with_zeto_lockable_lib d.zeto_lockable_lib
          (smt_libraries d.smt_lib d.poseidon2 d.poseidon3 none none);
  }

  -- Zeto_AnonEncNullifierKyc.ts
  unfoldable pub zeto_anon_enc_nullifier_kyc_dependencies : Dependencies Address
  zeto_anon_enc_nullifier_kyc_dependencies = record {
    deployer = deployer;
    token_name = "Zeto Anon Enc Nullifier KYC";
    symbol = "ZAENKYC";
    initial_owner = deployer;
    verifiers = record {
      verifier = d.verifier;
      deposit_verifier = d.deposit_verifier;
      withdraw_verifier = d.withdraw_verifier;
      batch_verifier = d.batch_verifier;
      batch_withdraw_verifier = d.batch_withdraw_verifier;
      lock_verifier = zero_address;
      batch_lock_verifier = zero_address;
      burn_verifier = zero_address;
      batch_burn_verifier = zero_address;
    };
    libraries =
        with_zeto_lockable_lib d.zeto_lockable_lib
          (smt_libraries d.smt_lib d.poseidon2 d.poseidon3 none none);
  }

  -- Zeto_AnonEncNullifierNonRepudiation.ts
  unfoldable pub zeto_anon_enc_nullifier_non_repudiation_dependencies : Dependencies Address
  zeto_anon_enc_nullifier_non_repudiation_dependencies = record {
    deployer = deployer;
    token_name = "Zeto Anon Enc Nullifier Non Repudiation";
    symbol = "ZAENN";
    initial_owner = deployer;
    verifiers = record {
      verifier = d.verifier;
      deposit_verifier = d.deposit_verifier;
      withdraw_verifier = d.withdraw_verifier;
      batch_verifier = d.batch_verifier;
      batch_withdraw_verifier = d.batch_withdraw_verifier;
      lock_verifier = zero_address;
      batch_lock_verifier = zero_address;
      burn_verifier = zero_address;
      batch_burn_verifier = zero_address;
    };
    libraries =
        with_zeto_lockable_lib d.zeto_lockable_lib
          (smt_libraries d.smt_lib d.poseidon2 d.poseidon3 none none);
  }

  -- Zeto_AnonNullifier.ts
  unfoldable pub zeto_anon_nullifier_dependencies : Dependencies Address
  zeto_anon_nullifier_dependencies = record {
    deployer = deployer;
    token_name = "Zeto Anon Nullifier";
    symbol = "ZAN";
    initial_owner = deployer;
    verifiers = record {
      verifier = d.verifier;
      deposit_verifier = d.deposit_verifier;
      withdraw_verifier = d.withdraw_verifier;
      batch_verifier = d.batch_verifier;
      batch_withdraw_verifier = d.batch_withdraw_verifier;
      lock_verifier = d.lock_verifier;
      batch_lock_verifier = d.batch_lock_verifier;
      burn_verifier = zero_address;
      batch_burn_verifier = zero_address;
    };
    libraries =
        with_zeto_lockable_lib d.zeto_lockable_lib
          (smt_libraries d.smt_lib d.poseidon2 d.poseidon3 none none);
  }

  -- Zeto_AnonNullifierBurnable.ts
  unfoldable pub zeto_anon_nullifier_burnable_dependencies : Dependencies Address
  zeto_anon_nullifier_burnable_dependencies = record {
    deployer = deployer;
    token_name = "Zeto Anon Nullifier Burnable";
    symbol = "ZANB";
    initial_owner = deployer;
    verifiers = record {
      verifier = d.verifier;
      deposit_verifier = d.deposit_verifier;
      withdraw_verifier = d.withdraw_verifier;
      batch_verifier = d.batch_verifier;
      batch_withdraw_verifier = d.batch_withdraw_verifier;
      lock_verifier = d.lock_verifier;
      batch_lock_verifier = d.batch_lock_verifier;
      burn_verifier = d.burn_verifier;
      batch_burn_verifier = d.batch_burn_verifier;
    };
    libraries =
        with_zeto_lockable_lib d.zeto_lockable_lib
          (smt_libraries d.smt_lib d.poseidon2 d.poseidon3 none none);
  }

  -- Zeto_AnonNullifierKyc.ts
  unfoldable pub zeto_anon_nullifier_kyc_dependencies : Dependencies Address
  zeto_anon_nullifier_kyc_dependencies = record {
    deployer = deployer;
    token_name = "Zeto Anon Nullifier KYC";
    symbol = "ZAENKYC";
    initial_owner = deployer;
    verifiers = record {
      verifier = d.verifier;
      deposit_verifier = d.deposit_verifier;
      withdraw_verifier = d.withdraw_verifier;
      batch_verifier = d.batch_verifier;
      batch_withdraw_verifier = d.batch_withdraw_verifier;
      lock_verifier = d.lock_verifier;
      batch_lock_verifier = d.batch_lock_verifier;
      burn_verifier = zero_address;
      batch_burn_verifier = zero_address;
    };
    libraries =
        with_zeto_lockable_lib d.zeto_lockable_lib
          (smt_libraries d.smt_lib d.poseidon2 d.poseidon3 none none);
  }

  -- Zeto_AnonNullifierQurrency.ts
  unfoldable pub zeto_anon_nullifier_qurrency_dependencies : Dependencies Address
  zeto_anon_nullifier_qurrency_dependencies = record {
    deployer = deployer;
    token_name = "Zeto Anon Nullifier Qurrency";
    symbol = "ZANQ";
    initial_owner = deployer;
    verifiers = record {
      verifier = d.verifier;
      deposit_verifier = d.deposit_verifier;
      withdraw_verifier = d.withdraw_verifier;
      batch_verifier = d.batch_verifier;
      batch_withdraw_verifier = d.batch_withdraw_verifier;
      lock_verifier = zero_address;
      batch_lock_verifier = zero_address;
      burn_verifier = zero_address;
      batch_burn_verifier = zero_address;
    };
    libraries =
        with_zeto_lockable_lib d.zeto_lockable_lib
          (smt_libraries d.smt_lib d.poseidon2 d.poseidon3 (some d.poseidon5) (some d.poseidon6));
  }

  -- Zeto_NfAnonNullifier.ts
  unfoldable pub zeto_nf_anon_nullifier_dependencies : Dependencies Address
  zeto_nf_anon_nullifier_dependencies = record {
    deployer = deployer;
    token_name = "Zeto NF Anon Nullifier";
    symbol = "ZNFAN";
    initial_owner = deployer;
    verifiers = record {
      verifier = d.verifier;
      deposit_verifier = zero_address;
      withdraw_verifier = zero_address;
      batch_verifier = zero_address;
      batch_withdraw_verifier = zero_address;
      lock_verifier = d.lock_verifier;
      batch_lock_verifier = zero_address;
      burn_verifier = zero_address;
      batch_burn_verifier = zero_address;
    };
    libraries =
        with_zeto_lockable_lib d.zeto_lockable_lib
          (smt_libraries d.smt_lib d.poseidon2 d.poseidon3 none none);
  }
