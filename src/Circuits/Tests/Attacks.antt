-- ===== src/Circuits/Tests/Attacks.antt =====
-- Transfers that the circuits let through and should not.
use zeto.Base.{
  ℕ, ◌+◌, ◌≡◌, ◌≢◌, ◌≤◌, refl, sym, Bool, true, false, ◌&&◌, Option, some, List, [], ◌∷◌, length,
  ◌==◌, ok, err, arith,
}
use zeto.Storage.{BaseStorage, unknown, unspent, spent, locked, utxo_already_spent}
use zeto.Storage.Tests.{insert, insertion_sort}
use zeto.Storage.Nullifier.{SmtLib, NullifierStorage, in_base, exists, exists_as_locked}
use zeto.Storage.Nullifier.Tests.{list_tree}
use zeto.Token.Fungible.{
  Circuit, transfer_circuit, transfer, base_storage, nullifier_storage, from_storage,
  fill_enabled_flags,
}
use zeto.Circuits.{CommitmentInputs, commitment_of, nullifier_of}
use zeto.Circuits.Tokens.{
  TransferSignals, NullifierSignals, zeto_anon_template, zeto_anon_nullifier_template,
}
use zeto.Circuits.Signals.{IsWitness, IsNullifierWitness}
use zeto.Circuits.Minting.{free_mint}
use zeto.Circuits.Reused.{double_spend}
use zeto.Circuits.Tests.{small_hash, small_order, toy_lib, toy_laws, commitment}

abbrev list_eq : List ℕ → List ℕ → Bool
list_eq [] [] = true
list_eq (x ∷ xs) (y ∷ ys) = (x == y) && list_eq xs ys
list_eq _ _ = false

list_eq_refl : (xs : List ℕ) → list_eq xs xs ≡ true
list_eq_refl [] = refl
list_eq_refl (x ∷ xs) = ground (arith, list_eq_refl xs)

insertion_sort_short : (xs : List ℕ) → length xs ≤ 1 → insertion_sort xs ≡ xs
unfolding insertion_sort insert
insertion_sort_short [] h = refl
insertion_sort_short (x ∷ []) h = refl
insertion_sort_short (x ∷ y ∷ ys) h = absurd (omega arith)

-- The signals are their own proof.
abbrev verify : BaseStorage → Circuit → ℕ → List ℕ → List ℕ → TransferSignals → Bool
verify s circuit amount inputs outputs g =
    list_eq g.input_commitments inputs
    && list_eq g.output_commitments outputs
    && zeto_anon_template toy_lib 2 2 g

verify_complete :
    (s : BaseStorage) (g : TransferSignals)
    → IsWitness g
    → zeto_anon_template toy_lib 2 2 g ≡ true
    → (proof : TransferSignals) × (verify s
          (transfer_circuit false false)
          0
          g.input_commitments
          g.output_commitments
          proof
        ≡ true)
verify_complete s g field h =
    (g, rw (list_eq_refl g.input_commitments, list_eq_refl g.output_commitments, h) refl)

-- The ERC20 is left alone.
abbrev no_erc20 : ℕ → ℕ → ℕ → Option ℕ
no_erc20 sender amount balance = some balance

abbrev nothing_yet : BaseStorage
nothing_yet = record { zeto = 7; utxos = λ x. unknown; locked_utxos = λ x. unknown }

abbrev thousand : CommitmentInputs
thousand = record { value = 1000; salt = 5; owner_public_key = (42, 1) }

thousand_new : spent nothing_yet (commitment_of toy_lib thousand) ≡ unknown
unfolding spent
thousand_new = refl

thousand_not_zero : commitment_of toy_lib thousand ≢ 0
unfolding commitment_of
thousand_not_zero = λ e. absurd (omega (arith, e))

free_mint_example :
    (proof : TransferSignals) × (t : BaseStorage) × (transfer
        (base_storage insertion_sort 7)
        verify
        no_erc20
        no_erc20
        []
        (commitment_of toy_lib thousand ∷ [])
        proof
        nothing_yet
      ≡ ok t)
    × (t.utxos (commitment_of toy_lib thousand) ≡ unspent)
free_mint_example =
    free_mint insertion_sort insertion_sort_short 7 verify no_erc20 no_erc20 toy_lib toy_laws
      verify_complete 42 (42, 1) thousand nothing_yet refl refl (omega arith) (omega arith)
      (omega arith) (omega arith, omega arith) thousand_not_zero thousand_new

abbrev nullifier : ℕ
nullifier = small_hash (1000 ∷ 5 ∷ 42 ∷ [])

-- The UTXO of the thousand pays another one.
abbrev payment : NullifierSignals
payment = record {
  transfer = record {
    input_commitments = commitment 1000 5 42 ∷ 0 ∷ [];
    input_values = 1000 ∷ 0 ∷ [];
    input_salts = 5 ∷ 0 ∷ [];
    input_owner_private_key = 42;
    output_commitments = commitment 1000 6 43 ∷ 0 ∷ [];
    output_values = 1000 ∷ 0 ∷ [];
    output_salts = 6 ∷ 0 ∷ [];
    output_owner_public_keys = (43, 1) ∷ (0, 0) ∷ [];
  };
  nullifiers = nullifier ∷ 0 ∷ [];
  smt_node_values = commitment 1000 5 42 ∷ 0 ∷ [];
  root = small_hash (commitment 1000 5 42 ∷ []);
  merkle_proof = (commitment 1000 5 42 ∷ []) ∷ [] ∷ [];
  enabled = 1 ∷ 0 ∷ [];
}

payment_satisfies : zeto_anon_nullifier_template toy_lib 2 2 payment ≡ true
unfolding zeto_anon_nullifier_template
payment_satisfies = refl

payment-IsNullifierWitness : IsNullifierWitness payment
payment-IsNullifierWitness = record {
  transfer = record {
    input_commitments = (omega arith, (omega arith, tt));
    input_values = (omega arith, (omega arith, tt));
    input_salts = (omega arith, (omega arith, tt));
    input_owner_private_key = omega arith;
    output_commitments = (omega arith, (omega arith, tt));
    output_values = (omega arith, (omega arith, tt));
    output_salts = (omega arith, (omega arith, tt));
    output_owner_public_keys = ((omega arith, omega arith), ((omega arith, omega arith), tt));
  };
  nullifiers = (omega arith, (omega arith, tt));
  smt_node_values = (omega arith, (omega arith, tt));
  root = omega arith;
  merkle_proof = ((omega arith, tt), (tt, tt));
  enabled = (omega arith, (omega arith, tt));
}

payment_flags : payment.enabled ≡ fill_enabled_flags payment.nullifiers
unfolding fill_enabled_flags
payment_flags = refl

-- A tree that is the list of its leaves, with the root that the proof of one leaf knows.
abbrev hashed_tree : SmtLib
hashed_tree = record list_tree { root_exists = λ t r. r == small_hash t }

abbrev paid_once : NullifierStorage hashed_tree
paid_once = record {
  base = nothing_yet;
  commitments_tree = commitment 1000 5 42 ∷ [];
  nullifiers = λ k. k == nullifier;
}

-- The signals are their own proof.
abbrev verify_nullifiers :
    NullifierStorage hashed_tree → Circuit → ℕ → List ℕ → List ℕ → NullifierSignals → Bool
verify_nullifiers s circuit amount inputs outputs g =
    (g.root == small_hash s.commitments_tree)
    && list_eq g.enabled (fill_enabled_flags inputs)
    && list_eq g.nullifiers inputs
    && list_eq g.transfer.output_commitments outputs
    && zeto_anon_nullifier_template toy_lib 2 2 g

verify_nullifiers_complete :
    (s : NullifierStorage hashed_tree) (g : NullifierSignals)
    → IsNullifierWitness g
    → g.enabled ≡ fill_enabled_flags g.nullifiers
    → hashed_tree.root_exists s.commitments_tree g.root ≡ true
    → zeto_anon_nullifier_template toy_lib 2 2 g ≡ true
    → (proof : NullifierSignals) × (verify_nullifiers s
          (transfer_circuit false false)
          0
          g.nullifiers
          g.transfer.output_commitments
          proof
        ≡ true)
verify_nullifiers_complete s g field flags known h = (
  g,
  rw
      (
        known,
        sym flags,
        list_eq_refl g.enabled,
        list_eq_refl g.nullifiers,
        list_eq_refl g.transfer.output_commitments,
        h,
      )
      refl,
)

payment_new : exists hashed_tree (commitment 1000 6 43) paid_once ≡ false
unfolding exists exists_as_locked locked spent
payment_new = refl

again_not_zero : nullifier_of toy_lib 1000 5 (42 + small_order) ≢ 0
unfolding nullifier_of
again_not_zero = λ e. absurd (omega (arith, e))

again_fresh : paid_once.nullifiers (nullifier_of toy_lib 1000 5 (42 + small_order)) ≡ false
unfolding nullifier_of
again_fresh = refl

double_spend_example :
    (transfer
        (nullifier_storage insertion_sort 7 hashed_tree)
        verify_nullifiers
        no_erc20
        no_erc20
        (nullifier ∷ [])
        (commitment 1000 6 43 ∷ [])
        payment
        paid_once
      ≡ err (from_storage (in_base (utxo_already_spent nullifier))))
    × (proof : NullifierSignals) × (t : NullifierStorage hashed_tree) × (transfer
          (nullifier_storage insertion_sort 7 hashed_tree)
          verify_nullifiers
          no_erc20
          no_erc20
          (nullifier_of toy_lib 1000 5 (42 + small_order) ∷ [])
          (commitment 1000 6 43 ∷ [])
          proof
          paid_once
        ≡ ok t)
    × (t.commitments_tree ≡ commitment 1000 6 43 ∷ commitment 1000 5 42 ∷ [])
double_spend_example =
    double_spend hashed_tree insertion_sort insertion_sort_short 7 verify_nullifiers no_erc20
      no_erc20 toy_lib toy_laws verify_nullifiers_complete (42 + small_order) nullifier
      (commitment 1000 6 43) 1000 0 5 0 payment paid_once
      (commitment 1000 6 43 ∷ commitment 1000 5 42 ∷ []) payment refl (omega arith)
      payment-IsNullifierWitness payment_flags refl refl payment_satisfies refl
      (λ e. absurd (omega (arith, e))) refl refl refl again_not_zero again_fresh refl
      (λ e. absurd (omega (arith, e))) payment_new refl
