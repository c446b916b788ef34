-- ===== src/Deploy/Scripts.antt =====
-- What the scripts of solidity/scripts/tokens hand to a token's initializer and to the linker, and the
-- library maps of solidity/scripts/lib/zeto_libraries.ts.
pub mod Plain
pub mod Nullifier
use zeto.Base.{Option, none, some, List, [], ◌∷◌, ◌++◌, String}

-- The addresses of what a token's module has deployed; a script reads those that its module has.
pub record Deployed (Address : Type 0) : Type 0 where
  pub verifier : Address
  pub deposit_verifier : Address
  pub withdraw_verifier : Address
  pub batch_verifier : Address
  pub batch_withdraw_verifier : Address
  pub lock_verifier : Address
  pub batch_lock_verifier : Address
  pub burn_verifier : Address
  pub batch_burn_verifier : Address
  pub zeto_lockable_lib : Address
  pub smt_lib : Address
  pub poseidon2 : Address
  pub poseidon3 : Address
  pub poseidon5 : Address
  pub poseidon6 : Address

-- `VerifiersInfo` of the token's initializer.
pub record VerifiersInfo (Address : Type 0) : Type 0 where
  pub verifier : Address
  pub deposit_verifier : Address
  pub withdraw_verifier : Address
  pub batch_verifier : Address
  pub batch_withdraw_verifier : Address
  pub lock_verifier : Address
  pub batch_lock_verifier : Address
  pub burn_verifier : Address
  pub batch_burn_verifier : Address

-- What `deployDependencies` returns.
pub record Dependencies (Address : Type 0) : Type 0 where
  pub deployer : Address
  pub token_name : String
  pub symbol : String
  pub initial_owner : Address
  pub verifiers : VerifiersInfo Address
  pub libraries : List (String × Address)

-- `withZetoLockableLib`
unfoldable pub with_zeto_lockable_lib :
    {Address : Type 0} → Address → List (String × Address) → List (String × Address)
with_zeto_lockable_lib zeto_lockable_lib extra = ("ZetoLockableLib", zeto_lockable_lib) ∷ extra

unfoldable pub add_library :
    {Address : Type 0} → String → Option Address → List (String × Address) → List (String × Address)
add_library name none libs = libs
add_library name (some target) libs = libs ++ (name, target) ∷ []

-- `smtLibraries`
unfoldable pub smt_libraries :
    {Address : Type 0}
    → Address
    → Address
    → Address
    → Option Address
    → Option Address
    → List (String × Address)
unfolding add_library
smt_libraries smt_lib poseidon2 poseidon3 poseidon5 poseidon6 =
    add_library "PoseidonUnit6L" poseidon6 (
      add_library "PoseidonUnit5L" poseidon5
        (("SmtLib", smt_lib) ∷ ("PoseidonUnit2L", poseidon2) ∷ ("PoseidonUnit3L", poseidon3) ∷ []))
