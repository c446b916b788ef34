-- ===== src/Deploy/Tokens/Libraries.antt =====
-- The libraries that the tokens' scripts give.
use zeto.Base.{◌≡◌, refl, some, List}
use zeto.Deploy.Linking.{address_of}
use zeto.Deploy.Scripts.{with_zeto_lockable_lib, smt_libraries, Deployed}
use zeto.Deploy.Tokens.{
  TokenContract, zeto_anon, zeto_anon_burnable, zeto_anon_enc, zeto_anon_enc_nullifier,
  zeto_anon_enc_nullifier_kyc, zeto_anon_enc_nullifier_non_repudiation, zeto_anon_nullifier,
  zeto_anon_nullifier_burnable, zeto_anon_nullifier_kyc, zeto_anon_nullifier_qurrency, zeto_nf_anon,
  zeto_nf_anon_nullifier, deploy_dependencies,
}

-- The contracts that keep nullifiers, in a sparse Merkle tree.
abbrev pub HasNullifiers : TokenContract → Type 0
HasNullifiers zeto_anon = ⊥
HasNullifiers zeto_anon_burnable = ⊥
HasNullifiers zeto_anon_enc = ⊥
HasNullifiers zeto_anon_enc_nullifier = Unit
HasNullifiers zeto_anon_enc_nullifier_kyc = Unit
HasNullifiers zeto_anon_enc_nullifier_non_repudiation = Unit
HasNullifiers zeto_anon_nullifier = Unit
HasNullifiers zeto_anon_nullifier_burnable = Unit
HasNullifiers zeto_anon_nullifier_kyc = Unit
HasNullifiers zeto_anon_nullifier_qurrency = Unit
HasNullifiers zeto_nf_anon = ⊥
HasNullifiers zeto_nf_anon_nullifier = Unit

-- Every token is linked to the library for locks, and one with nullifiers to those of the tree.
pub libraries_given :
    {Char : Type 0} (zero_address deployer : List Char) (d : Deployed (List Char))
    (t : TokenContract)
    → (address_of "ZetoLockableLib" (deploy_dependencies zero_address deployer d t).libraries
        ≡ some d.zeto_lockable_lib)
      × (HasNullifiers t
          → (address_of "SmtLib" (deploy_dependencies zero_address deployer d t).libraries
              ≡ some d.smt_lib)
            × (address_of "PoseidonUnit2L" (deploy_dependencies zero_address deployer d t).libraries
                ≡ some d.poseidon2)
            × (address_of "PoseidonUnit3L" (deploy_dependencies zero_address deployer d t).libraries
                ≡ some d.poseidon3))
unfolding deploy_dependencies with_zeto_lockable_lib smt_libraries address_of
libraries_given z a d zeto_anon = (refl, λ n. absurd n)
libraries_given z a d zeto_anon_burnable = (refl, λ n. absurd n)
libraries_given z a d zeto_anon_enc = (refl, λ n. absurd n)
libraries_given z a d zeto_anon_enc_nullifier = (refl, λ n. (refl, refl, refl))
libraries_given z a d zeto_anon_enc_nullifier_kyc = (refl, λ n. (refl, refl, refl))
libraries_given z a d zeto_anon_enc_nullifier_non_repudiation = (refl, λ n. (refl, refl, refl))
libraries_given z a d zeto_anon_nullifier = (refl, λ n. (refl, refl, refl))
libraries_given z a d zeto_anon_nullifier_burnable = (refl, λ n. (refl, refl, refl))
libraries_given z a d zeto_anon_nullifier_kyc = (refl, λ n. (refl, refl, refl))
libraries_given z a d zeto_anon_nullifier_qurrency = (refl, λ n. (refl, refl, refl))
libraries_given z a d zeto_nf_anon = (refl, λ n. absurd n)
libraries_given z a d zeto_nf_anon_nullifier = (refl, λ n. (refl, refl, refl))
