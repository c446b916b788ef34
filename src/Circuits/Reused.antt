-- ===== src/Circuits/Reused.antt =====
-- A fungible token with nullifiers behind the circuit of transfers: `transfer` of ZetoFungible of
-- solidity/contracts/lib/zeto_fungible.sol, called again for an input that is spent.
use zeto.Base.{
  ℕ, ◌≤◌, ◌≡◌, ◌≢◌, refl, ◌∙◌, ◌<◌, Bool, true, false, Option, some, List, [], ◌∷◌, length, ◌==◌,
  if◌then◌else◌, ok, err, arith,
}
use zeto.Storage.{check_sorted, repeats, only_zeto, utxo_already_spent}
use zeto.Storage.Nullifier.{
  SmtLib, NullifierStorage, in_base, lift_base, exists, nullifier_error, new_output_error,
  add_leaves, set_nullifiers, validate_inputs, validate_outputs, process_inputs, process_outputs,
}
use zeto.Token.Fungible.{
  Circuit, transfer_circuit, transfer, nullifier_storage, from_storage, with_storage, require_proof,
  check_and_pad_commitments, pad_uint_array, validate_transaction_proposal,
  process_inputs_and_outputs, fill_enabled_flags,
}
use zeto.Circuits.{Circomlib, nullifier_of}
use zeto.Circuits.Tokens.{NullifierSignals, zeto_anon_nullifier_template}
use zeto.Field.{F}
use zeto.Circuits.Signals.{IsNullifierWitness}
use zeto.Circuits.Sums.{CircomlibLaws}
use zeto.Circuits.Respending.{nullifier_of-lt, with_key, respend}

-- The flags tell only which nullifiers are zero.
same_flags :
    (g : NullifierSignals) (nullifiers : List ℕ) (n n' : ℕ)
    → g.enabled ≡ fill_enabled_flags g.nullifiers
    → g.nullifiers ≡ n ∷ 0 ∷ []
    → nullifiers ≡ n' ∷ 0 ∷ []
    → n ≢ 0
    → n' ≢ 0
    → g.enabled ≡ fill_enabled_flags nullifiers
unfolding fill_enabled_flags
same_flags g nullifiers n n' flags old new nz nz' =
    let a : (n == 0) ≡ false = ground (arith, nz) in
    let b : (n' == 0) ≡ false = ground (arith, nz') in
    let e : fill_enabled_flags g.nullifiers ≡ 1 ∷ 0 ∷ [] = rw (old, fill_enabled_flags, a) refl in
    rw (new, fill_enabled_flags, b) (flags ∙ e)

module _ (smt : SmtLib) (sort : List ℕ → List ℕ)
    (sort_short : (xs : List ℕ) → length xs ≤ 1 → sort xs ≡ xs) where
  fresh_nullifier :
      (s : NullifierStorage smt) (n : ℕ)
      → s.nullifiers n ≡ false
      → validate_inputs smt sort (n ∷ []) false s ≡ ok tt
  unfolding validate_inputs check_sorted nullifier_error repeats
  fresh_nullifier s n new = rw (sort_short (n ∷ []) (omega arith)) (ground (arith, new))

  used_nullifier :
      (s : NullifierStorage smt) (n : ℕ)
      → n ≢ 0
      → s.nullifiers n ≡ true
      → validate_inputs smt sort (n ∷ []) false s ≡ err (utxo_already_spent n)
  unfolding validate_inputs check_sorted nullifier_error repeats
  used_nullifier s n nz used = rw (sort_short (n ∷ []) (omega arith)) (ground (arith, used, nz))

  fresh_output :
      (s : NullifierStorage smt) (x : ℕ)
      → exists smt x s ≡ false
      → validate_outputs smt sort (x ∷ []) s ≡ ok tt
  unfolding validate_outputs check_sorted new_output_error repeats
  fresh_output s x new = rw (sort_short (x ∷ []) (omega arith)) (ground (arith, new))

  module _ {Proof Erc20 : Type 0} (token : ℕ)
      (verify : NullifierStorage smt → Circuit → ℕ → List ℕ → List ℕ → Proof → Bool)
      (safe_transfer_from safe_transfer : ℕ → ℕ → Erc20 → Option Erc20) where
    transfer_used :
        (s : NullifierStorage smt) (n x : ℕ) (proof : Proof)
        → n ≢ 0
        → s.nullifiers n ≡ true
        → transfer
            (nullifier_storage sort token smt)
            verify
            safe_transfer_from
            safe_transfer
            (n ∷ [])
            (x ∷ [])
            proof
            s
          ≡ err (from_storage (in_base (utxo_already_spent n)))
    unfolding transfer with_storage validate_transaction_proposal lift_base
    transfer_used s n x proof nz used = rw (used_nullifier s n nz used) refl

    transfer_fresh :
        (s : NullifierStorage smt) (n x : ℕ) (nullifiers outputs : List ℕ) (tree : smt.Tree)
        (proof : Proof)
        → nullifiers ≡ n ∷ 0 ∷ []
        → outputs ≡ x ∷ 0 ∷ []
        → token ≡ s.base.zeto
        → n ≢ 0
        → s.nullifiers n ≡ false
        → x ≢ 0
        → exists smt x s ≡ false
        → smt.add_leaf x x s.commitments_tree ≡ some tree
        → verify s (transfer_circuit false false) 0 nullifiers outputs proof ≡ true
        → (t : NullifierStorage smt) × (transfer
              (nullifier_storage sort token smt)
              verify
              safe_transfer_from
              safe_transfer
              (n ∷ [])
              (x ∷ [])
              proof
              s
            ≡ ok t)
          × (t.nullifiers n ≡ true)
          × (t.commitments_tree ≡ tree)
    unfolding transfer with_storage require_proof check_and_pad_commitments pad_uint_array
        validate_transaction_proposal process_inputs_and_outputs process_inputs process_outputs
        set_nullifiers add_leaves only_zeto lift_base
    transfer_fresh s n x nullifiers outputs tree proof ns xs mine nz fresh xz new added verified =
        let accepted = rw (ns, xs) at verified in
        let other : (n == 0) ≡ false = ground (arith, nz) in
        let other' : (x == 0) ≡ false = ground (arith, xz) in
        let mine' : (token == s.base.zeto) ≡ true = ground (arith, mine) in
        (
          record s {
            nullifiers = λ k. if k == n then true else s.nullifiers k;
            commitments_tree = tree;
          },
          rw (fresh_nullifier s n fresh, fresh_output s x new, accepted, mine')
              (rw (mine', other, other', added) refl),
          ground arith,
          refl,
        )

    -- Suppose that the verifier accepts a proof of whatever field elements satisfy the circuit of transfers
    -- of two inputs and two outputs under a root that the token knows, with the flags that the contract
    -- makes of the nullifiers; and that another private key, a field element, has the public key of the
    -- signals' owner. Let such signals spend one input, whose nullifier is spent already, for one output
    -- that the token does not know. The token refuses the nullifier, whatever the proof. But with the
    -- nullifier of the same input under the other key, if it is neither zero nor spent, there is a proof
    -- with which the token makes the output, and the input pays twice. The sort leaves lists of one
    -- element and fewer as they are, and the tree has room.
    pub double_spend :
        (lib : Circomlib) (laws : CircomlibLaws lib)
        (complete : (s : NullifierStorage smt) (g : NullifierSignals)
          → IsNullifierWitness g
          → g.enabled ≡ fill_enabled_flags g.nullifiers
          → smt.root_exists s.commitments_tree g.root ≡ true
          → zeto_anon_nullifier_template lib 2 2 g ≡ true
          → (proof : Proof) × (verify s
                (transfer_circuit false false)
                0
                g.nullifiers
                g.transfer.output_commitments
                proof
              ≡ true))
        (private_key n x v w salt salt' : ℕ) (g : NullifierSignals) (s : NullifierStorage smt)
        (tree : smt.Tree) (refused : Proof)
        → lib.baby_pbk private_key ≡ lib.baby_pbk g.transfer.input_owner_private_key
        → private_key < F
        → IsNullifierWitness g
        → g.enabled ≡ fill_enabled_flags g.nullifiers
        → token ≡ s.base.zeto
        → smt.root_exists s.commitments_tree g.root ≡ true
        → zeto_anon_nullifier_template lib 2 2 g ≡ true
        → g.nullifiers ≡ n ∷ 0 ∷ []
        → n ≢ 0
        → s.nullifiers n ≡ true
        → g.transfer.input_values ≡ v ∷ w ∷ []
        → g.transfer.input_salts ≡ salt ∷ salt' ∷ []
        → nullifier_of lib v salt private_key ≢ 0
        → s.nullifiers (nullifier_of lib v salt private_key) ≡ false
        → g.transfer.output_commitments ≡ x ∷ 0 ∷ []
        → x ≢ 0
        → exists smt x s ≡ false
        → smt.add_leaf x x s.commitments_tree ≡ some tree
        → (transfer
              (nullifier_storage sort token smt)
              verify
              safe_transfer_from
              safe_transfer
              (n ∷ [])
              (x ∷ [])
              refused
              s
            ≡ err (from_storage (in_base (utxo_already_spent n))))
          × (proof : Proof) × (t : NullifierStorage smt) × (transfer
                (nullifier_storage sort token smt)
                verify
                safe_transfer_from
                safe_transfer
                (nullifier_of lib v salt private_key ∷ [])
                (x ∷ [])
                proof
                s
              ≡ ok t)
          × (t.commitments_tree ≡ tree)
    double_spend lib laws complete k n x v w salt salt' g s tree refused same kf field flags mine
          known h ns nz used vs ss kz fresh xs xz new added =
        let again = respend lib laws 2 2 k g same h in
        let n' = nullifier_of lib v salt k in
        let renewed : (with_key lib k g).nullifiers ≡ n' ∷ 0 ∷ [] =
          rw (ns, vs, ss) (ground (arith, nz)) in
        let field' : IsNullifierWitness (with_key lib k g) = record {
          transfer = record {
            input_commitments = field.transfer.input_commitments;
            input_values = field.transfer.input_values;
            input_salts = field.transfer.input_salts;
            input_owner_private_key = kf;
            output_commitments = field.transfer.output_commitments;
            output_values = field.transfer.output_values;
            output_salts = field.transfer.output_salts;
            output_owner_public_keys = field.transfer.output_owner_public_keys;
          };
          nullifiers = rw renewed (nullifier_of-lt lib laws v salt k, (omega arith, tt));
          smt_node_values = field.smt_node_values;
          root = field.root;
          merkle_proof = field.merkle_proof;
          enabled = field.enabled;
        } in
        let (proof, accepted) =
          complete s (with_key lib k g) field' (same_flags g _ n n' flags ns renewed nz kz) known
            again in
        let (t, done, _, leaf) =
          transfer_fresh s n' x (with_key lib k g).nullifiers g.transfer.output_commitments tree
            proof renewed xs mine kz fresh xz new added accepted in
        (transfer_used s n x refused nz used, proof, t, done, leaf)
