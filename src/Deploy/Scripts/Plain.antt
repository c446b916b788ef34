-- ===== src/Deploy/Scripts/Plain.antt =====
-- The scripts of solidity/scripts/tokens for the tokens without nullifiers.
use zeto.Base.{[]}
use zeto.Deploy.Scripts.{Deployed, Dependencies, with_zeto_lockable_lib}

-- The zero address, the account that deploys, and what the token's module has deployed.
module _ {Address : Type 0} (zero_address deployer : Address) (d : Deployed Address) where
  -- Zeto_Anon.ts
  unfoldable pub zeto_anon_dependencies : Dependencies Address
  zeto_anon_dependencies = record {
    deployer = deployer;
    token_name = "Zeto Anon";
    symbol = "ZA";
    initial_owner = deployer;
    verifiers = record {
      verifier = d.verifier;
      deposit_verifier = d.deposit_verifier;
      withdraw_verifier = d.withdraw_verifier;
      batch_verifier = d.batch_verifier;
      batch_withdraw_verifier = d.batch_withdraw_verifier;
      lock_verifier = d.verifier;
      batch_lock_verifier = d.batch_verifier;
      burn_verifier = zero_address;
      batch_burn_verifier = zero_address;
    };
    libraries = with_zeto_lockable_lib d.zeto_lockable_lib [];
  }

  -- Zeto_AnonBurnable.ts
  unfoldable pub zeto_anon_burnable_dependencies : Dependencies Address
  zeto_anon_burnable_dependencies = record {
    deployer = deployer;
    token_name = "Zeto Anon Burnable";
    symbol = "ZAB";
    initial_owner = deployer;
    verifiers = record {
      verifier = d.verifier;
      deposit_verifier = d.deposit_verifier;
      withdraw_verifier = d.withdraw_verifier;
      batch_verifier = d.batch_verifier;
      batch_withdraw_verifier = d.batch_withdraw_verifier;
      lock_verifier = zero_address;
      batch_lock_verifier = zero_address;
      burn_verifier = d.burn_verifier;
      batch_burn_verifier = d.batch_burn_verifier;
    };
    libraries = with_zeto_lockable_lib d.zeto_lockable_lib [];
  }

  -- Zeto_AnonEnc.ts
  unfoldable pub zeto_anon_enc_dependencies : Dependencies Address
  zeto_anon_enc_dependencies = record {
    deployer = deployer;
    token_name = "Zeto Anon Enc";
    symbol = "ZAE";
    initial_owner = deployer;
    verifiers = record {
      verifier = d.verifier;
      deposit_verifier = d.deposit_verifier;
      withdraw_verifier = d.withdraw_verifier;
      batch_verifier = d.batch_verifier;
      batch_withdraw_verifier = d.batch_withdraw_verifier;
      lock_verifier = d.verifier;
      batch_lock_verifier = d.batch_verifier;
      burn_verifier = zero_address;
      batch_burn_verifier = zero_address;
    };
    libraries = with_zeto_lockable_lib d.zeto_lockable_lib [];
  }

  -- Zeto_NfAnon.ts
  unfoldable pub zeto_nf_anon_dependencies : Dependencies Address
  zeto_nf_anon_dependencies = record {
    deployer = deployer;
    token_name = "Zeto NF Anon";
    symbol = "ZNFA";
    initial_owner = deployer;
    verifiers = record {
      verifier = d.verifier;
      deposit_verifier = zero_address;
      withdraw_verifier = zero_address;
      batch_verifier = zero_address;
      batch_withdraw_verifier = zero_address;
      lock_verifier = d.verifier;
      batch_lock_verifier = zero_address;
      burn_verifier = zero_address;
      batch_burn_verifier = zero_address;
    };
    libraries = with_zeto_lockable_lib d.zeto_lockable_lib [];
  }
