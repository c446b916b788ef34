-- ===== src/Scenarios/Tests.antt =====
-- Tests of transfers with packages that stand in for the real ones.
use zeto.Base.{
  ℕ, ◌≡◌, ◌↔◌, refl, Bool, true, false, ◌&&◌, none, some, List, [], ◌∷◌, ◌==◌, if◌then◌else◌, ok,
  err, arith,
}
use zeto.Storage.Checked.{mem}
use zeto.Circuits.Tests.{small_hash, toy_lib, toy_laws}
use zeto.Scenarios.{Keypair, tamper, constraints_violated, tampered_accepted, poseidon4, anon_test}
use zeto.Scenarios.Nullifiers.{
  Merkletree, poseidon3, anon_nullifier_transfer_main, anon_nullifier_inputs, anon_nullifier_test,
}
use zeto.Scenarios.NullifiersPassing.{MerkletreeLaws, anon_nullifier_test_iff}

abbrev list_eq : List ℕ → List ℕ → Bool
list_eq [] [] = true
list_eq (x ∷ xs) (y ∷ ys) = (x == y) && list_eq xs ys
list_eq _ _ = false

-- The signals are their own proof.
abbrev prove : List ℕ → List ℕ
prove signals = signals

-- A tree shows all its leaves.
abbrev leaves : Merkletree
leaves = record {
  Tree = List ℕ;
  empty = [];
  add = λ k v t. if mem k t then none else some (v ∷ t);
  root = λ t. small_hash t;
  siblings = λ k t. t;
}

leaves-MerkletreeLaws : MerkletreeLaws toy_lib leaves
leaves-MerkletreeLaws = record {
  IsLeaf = λ t k. mem k t ≡ true;
  added = λ k t u h. ground (arith, h);
  kept = λ k j t u h there. ground (arith, h, there);
  verified = λ k t there. ground (arith, there);
}

abbrev alice : Keypair
alice = record { priv_key = 42; pub_key = (42, 1) }

abbrev bob : Keypair
bob = record { priv_key = 43; pub_key = (43, 1) }

first_added :
    leaves.add
      (poseidon4 small_hash 15 5 alice.pub_key)
      (poseidon4 small_hash 15 5 alice.pub_key)
      leaves.empty
    ≡ some (small_hash (15 ∷ 5 ∷ 42 ∷ 1 ∷ []) ∷ [])
unfolding poseidon4
first_added = refl

second_added :
    leaves.add
      (poseidon4 small_hash 100 6 alice.pub_key)
      (poseidon4 small_hash 100 6 alice.pub_key)
      (small_hash (15 ∷ 5 ∷ 42 ∷ 1 ∷ []) ∷ [])
    ≡ some (small_hash (100 ∷ 6 ∷ 42 ∷ 1 ∷ []) ∷ small_hash (15 ∷ 5 ∷ 42 ∷ 1 ∷ []) ∷ [])
unfolding poseidon4
second_added = refl

abbrev signals : List ℕ
signals =
    poseidon3 small_hash 15 5 42
    ∷ poseidon3 small_hash 100 6 42
    ∷ small_hash (small_hash (100 ∷ 6 ∷ 42 ∷ 1 ∷ []) ∷ small_hash (15 ∷ 5 ∷ 42 ∷ 1 ∷ []) ∷ [])
    ∷ 1
    ∷ 1
    ∷ poseidon4 small_hash 80 7 bob.pub_key
    ∷ poseidon4 small_hash 35 7 alice.pub_key
    ∷ []

anon_nullifier_test_iff_example :
    (anon_nullifier_transfer_main toy_lib (
        anon_nullifier_inputs leaves small_hash
          (λ k. k)
          alice
          bob
          5
          6
          7
          (small_hash (100 ∷ 6 ∷ 42 ∷ 1 ∷ []) ∷ small_hash (15 ∷ 5 ∷ 42 ∷ 1 ∷ []) ∷ []))
      ≡ some signals)
    × ((anon_nullifier_test leaves small_hash (λ k. k) toy_lib prove list_eq alice bob 5 6 7
          ≡ ok tt)
        ↔ ((list_eq signals (prove signals) ≡ true)
            × (list_eq
                  (tamper
                    (poseidon4 small_hash 80 7 bob.pub_key)
                    (poseidon4 small_hash 100 7 bob.pub_key)
                    signals)
                  (prove signals)
                ≡ false)))
anon_nullifier_test_iff_example =
    anon_nullifier_test_iff toy_lib toy_laws small_hash (λ xs. refl) leaves leaves-MerkletreeLaws
      (λ k. k) prove list_eq alice bob 5 6 7 (small_hash (15 ∷ 5 ∷ 42 ∷ 1 ∷ []) ∷ [])
      (small_hash (100 ∷ 6 ∷ 42 ∷ 1 ∷ []) ∷ small_hash (15 ∷ 5 ∷ 42 ∷ 1 ∷ []) ∷ []) refl first_added
      second_added

-- A sender who does not own the inputs.
not_owned :
    anon_test small_hash (λ k. k) toy_lib prove list_eq (record alice { priv_key = 41 }) bob 5 6 7
    ≡ err constraints_violated
unfolding anon_test
not_owned = refl

-- A verifier that accepts everything.
too_lenient :
    anon_test small_hash (λ k. k) toy_lib prove (λ signals proof. true) alice bob 5 6 7
    ≡ err tampered_accepted
unfolding anon_test
too_lenient = refl
