-- ===== src/Scenarios/NullifiersPassing.antt =====
-- The tests with nullifiers, where the packages do what they are used for.
use zeto.Base.{ℕ, ◌<◌, ◌≡◌, ◌↔◌, refl, Bool, true, false, inr, some, List, [], ◌∷◌, ok, arith}
use zeto.Field.{F}
use zeto.Circuits.{Circomlib, commitment_inputs, nullifier_of, check_nullifiers, check_smt_proof}
use zeto.Circuits.Tokens.{zeto_anon_template, zeto_anon_nullifier_template}
use zeto.Circuits.Sums.{CircomlibLaws}
use zeto.Circuits.Exact.{Opened, IsField, zeto_anon_template_iff, check_nullifiers_iff}
use zeto.Scenarios.{Keypair, tamper, poseidon4}
use zeto.Scenarios.Passing.{check_proof_iff, poseidon4-lt, poseidon4_lem}
use zeto.Scenarios.Nullifiers.{
  Merkletree, add_leaf, poseidon3, anon_nullifier_transfer_main, anon_nullifier_inputs,
  anon_nullifier_test,
}

-- A leaf that is added stays in the tree, and the circuit's verifier accepts the siblings of a leaf that
-- is in the tree.
pub record MerkletreeLaws (lib : Circomlib) (merkle : Merkletree) : Type 1 where
  pub IsLeaf : merkle.Tree → ℕ → Type 0
  pub added : (k : ℕ) (t u : merkle.Tree) → merkle.add k k t ≡ some u → IsLeaf u k
  pub kept : (k j : ℕ) (t u : merkle.Tree) → merkle.add k k t ≡ some u → IsLeaf t j → IsLeaf u j
  pub verified :
      (k : ℕ) (t : merkle.Tree)
      → IsLeaf t k
      → lib.smt_verifier 1 (merkle.root t) (merkle.siblings k t) k k ≡ true

pub add_leaf_lem :
    (merkle : Merkletree) (x : ℕ) (t u : merkle.Tree)
    → merkle.add x x t ≡ some u
    → add_leaf merkle x t ≡ ok u
unfolding add_leaf
add_leaf_lem merkle x t u h = ground (arith, h)

module _ (lib : Circomlib) (laws : CircomlibLaws lib) (poseidon : List ℕ → ℕ)
    (agrees : (xs : List ℕ) → poseidon xs ≡ lib.poseidon xs) where
  poseidon3-lt : (v s k : ℕ) → poseidon3 poseidon v s k < F
  unfolding poseidon3
  poseidon3-lt v s k = rw (agrees (v ∷ s ∷ k ∷ [])) (laws.poseidon_lt (v ∷ s ∷ k ∷ []))

  poseidon3_lem : (v s k : ℕ) → poseidon3 poseidon v s k ≡ nullifier_of lib v s k
  unfolding poseidon3 nullifier_of
  poseidon3_lem v s k = agrees (v ∷ s ∷ k ∷ [])

  -- The two nullifiers that all these tests make.
  pub two_nullifiers :
      (salt1 salt2 k : ℕ)
      → check_nullifiers lib
          (poseidon3 poseidon 15 salt1 k ∷ poseidon3 poseidon 100 salt2 k ∷ [])
          (15 ∷ 100 ∷ [])
          (salt1 ∷ salt2 ∷ [])
          k
        ≡ true
  two_nullifiers salt1 salt2 k =
      (check_nullifiers_iff lib laws
          (poseidon3 poseidon 15 salt1 k ∷ poseidon3 poseidon 100 salt2 k ∷ []) (15 ∷ 100 ∷ [])
          (salt1 ∷ salt2 ∷ []) k (poseidon3-lt 15 salt1 k, (poseidon3-lt 100 salt2 k, tt))).1
        (inr (poseidon3_lem 15 salt1 k), (inr (poseidon3_lem 100 salt2 k), tt))

  pub two_proofs :
      (merkle : Merkletree) (merkle_laws : MerkletreeLaws lib merkle) (x y : ℕ) (t u : merkle.Tree)
      → merkle.add x x merkle.empty ≡ some t
      → merkle.add y y t ≡ some u
      → check_smt_proof lib
          (x ∷ y ∷ [])
          (x ∷ y ∷ [])
          (merkle.root u)
          (merkle.siblings x u ∷ merkle.siblings y u ∷ [])
          (1 ∷ 1 ∷ [])
        ≡ true
  unfolding check_smt_proof
  two_proofs merkle m x y t u first second =
      rw
        (
          m.verified x u (m.kept y x t u second (m.added x merkle.empty t first)),
          m.verified y u (m.added y t u second),
        )
        refl

  module _ (merkle : Merkletree) (merkle_laws : MerkletreeLaws lib merkle) (format_priv_key : ℕ → ℕ)
      {Proof : Type 0} (prove : List ℕ → Proof) (verify : List ℕ → Proof → Bool) where
    anon_nullifier_inputs_satisfy :
        (alice bob : Keypair) (salt1 salt2 salt3 : ℕ) (t u : merkle.Tree)
        → lib.baby_pbk (format_priv_key alice.priv_key) ≡ some alice.pub_key
        → merkle.add
            (poseidon4 poseidon 15 salt1 alice.pub_key)
            (poseidon4 poseidon 15 salt1 alice.pub_key)
            merkle.empty
          ≡ some t
        → merkle.add
            (poseidon4 poseidon 100 salt2 alice.pub_key)
            (poseidon4 poseidon 100 salt2 alice.pub_key)
            t
          ≡ some u
        → zeto_anon_nullifier_template lib 2 2
            (anon_nullifier_inputs merkle poseidon format_priv_key alice bob salt1 salt2 salt3 u)
          ≡ true
    unfolding anon_nullifier_inputs zeto_anon_nullifier_template commitment_inputs
    anon_nullifier_inputs_satisfy alice bob salt1 salt2 salt3 t u owned first second =
        let g =
          anon_nullifier_inputs merkle poseidon format_priv_key alice bob salt1 salt2 salt3 u in
        let s = g.transfer in
        let field : IsField lib s = record {
          inputs = (
            poseidon4-lt lib laws poseidon agrees 15 salt1 alice.pub_key,
            (poseidon4-lt lib laws poseidon agrees 100 salt2 alice.pub_key, tt),
          );
          outputs = (
            poseidon4-lt lib laws poseidon agrees 80 salt3 bob.pub_key,
            (poseidon4-lt lib laws poseidon agrees 35 salt3 alice.pub_key, tt),
          );
          values = (omega arith, (omega arith, tt));
        } in
        let opened : Opened lib 2 2 s = record {
          inputs_sized = (refl, refl, refl);
          outputs_sized = (refl, refl, refl, refl);
          key = alice.pub_key;
          owned = owned;
          ranged = (omega arith, (omega arith, tt));
          inputs_opened = (
            inr (poseidon4_lem lib laws poseidon agrees 15 salt1 alice.pub_key),
            (inr (poseidon4_lem lib laws poseidon agrees 100 salt2 alice.pub_key), tt),
          );
          outputs_opened = (
            inr (poseidon4_lem lib laws poseidon agrees 80 salt3 bob.pub_key),
            (inr (poseidon4_lem lib laws poseidon agrees 35 salt3 alice.pub_key), tt),
          );
        } in
        let satisfied : zeto_anon_template lib 2 2 s ≡ true =
          (zeto_anon_template_iff lib laws 2 2 s field).1 (opened, refl) in
        rw
          (
            satisfied,
            two_nullifiers salt1 salt2 (format_priv_key alice.priv_key),
            two_proofs merkle merkle_laws (poseidon4 poseidon 15 salt1 alice.pub_key)
                (poseidon4 poseidon 100 salt2 alice.pub_key) t u first second,
          )
          refl

    -- Suppose that both Poseidon packages compute the same hash and that the tree's proofs satisfy the
    -- circuit's verifier. Then for all keys and salts such that Alice's public key is that of her private
    -- key and the tree takes the two inputs, the signals of the test of anon_nullifier.js satisfy the
    -- circuit, with the two nullifiers, the tree's root, two flags and the two outputs for its public
    -- signals; and the test passes exactly when the verifier accepts the proof made for these and
    -- refuses it for the same with the first output tampered with.
    pub anon_nullifier_test_iff :
        (alice bob : Keypair) (salt1 salt2 salt3 : ℕ) (t u : merkle.Tree)
        → lib.baby_pbk (format_priv_key alice.priv_key) ≡ some alice.pub_key
        → merkle.add
            (poseidon4 poseidon 15 salt1 alice.pub_key)
            (poseidon4 poseidon 15 salt1 alice.pub_key)
            merkle.empty
          ≡ some t
        → merkle.add
            (poseidon4 poseidon 100 salt2 alice.pub_key)
            (poseidon4 poseidon 100 salt2 alice.pub_key)
            t
          ≡ some u
        → let g =
            anon_nullifier_inputs merkle poseidon format_priv_key alice bob salt1 salt2 salt3 u in
          let output = poseidon4 poseidon 80 salt3 bob.pub_key in
          let signals =
            poseidon3 poseidon 15 salt1 (format_priv_key alice.priv_key)
            ∷ poseidon3 poseidon 100 salt2 (format_priv_key alice.priv_key)
            ∷ merkle.root u
            ∷ 1
            ∷ 1
            ∷ output
            ∷ poseidon4 poseidon 35 salt3 alice.pub_key
            ∷ [] in
          (anon_nullifier_transfer_main lib g ≡ some signals)
          × ((anon_nullifier_test merkle poseidon format_priv_key lib prove verify alice bob salt1
                  salt2 salt3
                ≡ ok tt)
              ↔ ((verify signals (prove signals) ≡ true)
                  × (verify
                        (tamper output (poseidon4 poseidon 100 salt3 bob.pub_key) signals)
                        (prove signals)
                      ≡ false)))
    unfolding anon_nullifier_test anon_nullifier_transfer_main anon_nullifier_inputs
    anon_nullifier_test_iff alice bob salt1 salt2 salt3 t u owned first second = (
      rw (anon_nullifier_inputs_satisfy alice bob salt1 salt2 salt3 t u owned first second) refl,
      rw
          (
            add_leaf_lem merkle (poseidon4 poseidon 15 salt1 alice.pub_key) merkle.empty t first,
            add_leaf_lem merkle (poseidon4 poseidon 100 salt2 alice.pub_key) t u second,
            anon_nullifier_inputs_satisfy alice bob salt1 salt2 salt3 t u owned first second,
          )
          (check_proof_iff prove verify (poseidon4 poseidon 80 salt3 bob.pub_key)
            (poseidon4 poseidon 100 salt3 bob.pub_key) _),
    )
