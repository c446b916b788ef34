-- ===== src/Storage/Nullifier/Kept.antt =====
-- What the storage with nullifiers never forgets.
use zeto.Base.{
  ℕ, ◌≡◌, ◌≢◌, refl, sym, Bool, true, false, ◌||◌, ◌&&◌, not, Bool-cases, Option, none, some,
  Option-cases, List, [], ◌∷◌, ◌==◌, if◌then◌else◌, Result, Result-cases, inl, inr, ok, err,
  >>=-eq-ok, ok-injective, arith,
}
use zeto.Storage.{
  BaseStorage, StorageError, unspent, spent_utxo, is_unknown, only_zeto, locked, spent,
  process_inputs as base_process_inputs, process_locked_outputs as base_process_locked_outputs,
}
use zeto.Storage.Checked.{mem, accepted}
use zeto.Storage.Forward.{set_all_lem}
use zeto.Storage.Nullifier.{
  SmtLib, NullifierStorage, lift_base, set_nullifiers, Write, write_inputs, write_outputs,
  write_locked_outputs, exists_as_locked, exists, nullifier_error, new_output_error, validate_root,
  add_leaves, process_inputs, process_outputs, process_locked_outputs, write, writes,
  validate_inputs, validate_outputs,
}

-- What the storage relies on: the tree only grows, and it keeps its roots.
pub record SmtLibLaws (smt : SmtLib) : Type 0 where
  pub leaf_added :
      (x : ℕ) (t u : smt.Tree) → smt.add_leaf x x t ≡ some u → smt.leaf_exists u x ≡ true
  pub leaf_kept :
      (i v x : ℕ) (t u : smt.Tree)
      → smt.add_leaf i v t ≡ some u
      → smt.leaf_exists t x ≡ true
      → smt.leaf_exists u x ≡ true
  pub root_kept :
      (i v r : ℕ) (t u : smt.Tree)
      → smt.add_leaf i v t ≡ some u
      → smt.root_exists t r ≡ true
      → smt.root_exists u r ≡ true

abbrev pub written : Write → List ℕ
written (write_inputs inputs inputs_locked) = inputs
written (write_outputs outputs) = outputs
written (write_locked_outputs outputs) = outputs

set_nullifiers_lem :
    (xs : List ℕ) (m : ℕ → Bool) (x : ℕ)
    → set_nullifiers xs m x ≡ ((mem x xs && not (x == 0)) || m x)
unfolding set_nullifiers
set_nullifiers_lem [] m x = refl
set_nullifiers_lem (y ∷ ys) m x =
    ground
      (arith, set_nullifiers_lem ys (if y == 0 then m else λ k. if k == y then true else m k) x)

pub lift_base-eq-ok :
    {A : Type 0} (r : Result StorageError A) {a : A} → lift_base r ≡ ok a → r ≡ ok a
unfolding lift_base
lift_base-eq-ok (ok b) h = cc
lift_base-eq-ok (err e) h = cc

or_map :
    (a b c d : Bool)
    → (a ≡ true → c ≡ true)
    → (b ≡ true → d ≡ true)
    → (a || b) ≡ true
    → (c || d) ≡ true
or_map a b c d f g e = ground (arith, f, g, e)

module _ (smt : SmtLib) (laws : SmtLibLaws smt) where
  -- What the loop of processOutputs does to the tree.
  pub add_leaves_lem :
      (xs : List ℕ) (t u : smt.Tree)
      → add_leaves smt xs t ≡ ok u
      → ((r : ℕ) → smt.root_exists t r ≡ true → smt.root_exists u r ≡ true)
        × ((x : ℕ) → smt.leaf_exists t x ≡ true → smt.leaf_exists u x ≡ true)
        × ((x : ℕ) → x ≢ 0 → mem x xs ≡ true → smt.leaf_exists u x ≡ true)
  unfolding add_leaves
  add_leaves_lem [] t u h =
      let same = ok-injective h in
      (λ r e. rw (← same) e, λ x e. rw (← same) e, λ x nz m. absurd (ground arith))
  add_leaves_lem (y ∷ ys) t u h = elim (Bool-cases (y == 0)) [
    | inl z ↦
        let (roots, leaves, new) = add_leaves_lem ys t u (ground arith) in
        (roots, leaves, λ x nz m. new x nz (ground arith))
    | inr n ↦ elim (Option-cases (smt.add_leaf y y t)) [
      | inl none_left ↦ absurd (ground arith)
      | inr (next, added) ↦
          let (roots, leaves, new) = add_leaves_lem ys next u (ground arith) in
          (
            λ r e. roots r (laws.root_kept y y r t next added e),
            λ x e. leaves x (laws.leaf_kept y y x t next added e),
            λ x nz m. elim (Bool-cases (x == y)) [
              | inl e ↦
                  let same : x ≡ y = ground arith in
                  rw same (leaves y (laws.leaf_added y t next added))
              | inr e ↦ new x nz (ground arith)
            ],
          )
    ]
  ]

  -- What a write leaves as it is: taken nullifiers, UTXOs that exist, and roots.
  pub record Kept (s t : NullifierStorage smt) : Type 0 where
    pub nullifiers_kept : (x : ℕ) → s.nullifiers x ≡ true → t.nullifiers x ≡ true
    pub exists_kept : (x : ℕ) → exists smt x s ≡ true → exists smt x t ≡ true
    pub roots_kept :
        (r : ℕ)
        → smt.root_exists s.commitments_tree r ≡ true
        → smt.root_exists t.commitments_tree r ≡ true

  Kept-refl : (s : NullifierStorage smt) → Kept s s
  Kept-refl s = record { nullifiers_kept = λ x e. e; exists_kept = λ x e. e; roots_kept = λ r e. e }

  Kept-trans : {s t u : NullifierStorage smt} → Kept s t → Kept t u → Kept s u
  Kept-trans a b = record {
    nullifiers_kept = λ x e. b.nullifiers_kept x (a.nullifiers_kept x e);
    exists_kept = λ x e. b.exists_kept x (a.exists_kept x e);
    roots_kept = λ r e. b.roots_kept r (a.roots_kept r e);
  }

  -- Writing the base storage changes no status back to unknown.
  base_inputs_kept :
      (sender : ℕ) (inputs : List ℕ) (b c : BaseStorage) (x : ℕ)
      → base_process_inputs sender inputs true b ≡ ok c
      → (locked b x || not (is_unknown (spent b x))) ≡ true
      → (locked c x || not (is_unknown (spent c x))) ≡ true
  unfolding base_process_inputs only_zeto locked spent
  base_inputs_kept sender inputs b c x h e =
      ground (arith, set_all_lem inputs spent_utxo b.locked_utxos x)

  base_inputs_known :
      (sender : ℕ) (inputs : List ℕ) (b c : BaseStorage) (x : ℕ)
      → base_process_inputs sender inputs true b ≡ ok c
      → x ≢ 0
      → mem x inputs ≡ true
      → (locked c x || not (is_unknown (spent c x))) ≡ true
  unfolding base_process_inputs only_zeto locked spent
  base_inputs_known sender inputs b c x h nz m =
      ground (arith, set_all_lem inputs spent_utxo b.locked_utxos x)

  pub base_locked_outputs_kept :
      (sender : ℕ) (outputs : List ℕ) (b c : BaseStorage) (x : ℕ)
      → base_process_locked_outputs sender outputs b ≡ ok c
      → (((locked b x || not (is_unknown (spent b x))) ≡ true
            → (locked c x || not (is_unknown (spent c x))) ≡ true)
          × (x ≢ 0 → mem x outputs ≡ true → locked c x ≡ true))
  unfolding base_process_locked_outputs only_zeto locked spent
  base_locked_outputs_kept sender outputs b c x h = (
    λ e. ground (arith, set_all_lem outputs unspent b.locked_utxos x),
    λ nz m. ground (arith, set_all_lem outputs unspent b.locked_utxos x),
  )

  -- A nullifier that is taken; a UTXO that exists.
  abbrev IsTaken : Write → ℕ → NullifierStorage smt → Type 0
  IsTaken (write_inputs inputs false) x s = s.nullifiers x ≡ true
  IsTaken (write_inputs inputs true) x s = exists smt x s ≡ true
  IsTaken (write_outputs outputs) x s = exists smt x s ≡ true
  IsTaken (write_locked_outputs outputs) x s = exists smt x s ≡ true

  write-Kept :
      (sender : ℕ) (w : Write) (s t : NullifierStorage smt)
      → write smt sender w s ≡ ok t
      → Kept s t × ((x : ℕ) → x ≢ 0 → mem x (written w) ≡ true → IsTaken w x t)
  unfolding write process_inputs process_outputs process_locked_outputs exists exists_as_locked
  write-Kept sender (write_inputs inputs true) s t h =
      let (_, mine, h₁) = >>=-eq-ok (lift_base (only_zeto sender s.base tt)) _ h in
      let (b, moved, h₂) =
        >>=-eq-ok (lift_base (base_process_inputs sender inputs true s.base)) _ h₁ in
      let done = lift_base-eq-ok (base_process_inputs sender inputs true s.base) moved in
      rw (sym (ok-injective h₂)) (
        record {
          nullifiers_kept = λ x e. e;
          exists_kept =
              λ x. or_map _ _ _ _ (λ e. e) (base_inputs_kept sender inputs s.base b x done);
          roots_kept = λ r e. e;
        },
        λ x nz m. ground (arith, base_inputs_known sender inputs s.base b x done nz m),
      )
  write-Kept sender (write_inputs inputs false) s t h =
      let (_, mine, h₁) = >>=-eq-ok (lift_base (only_zeto sender s.base tt)) _ h in
      rw (sym (ok-injective h₁)) (
        record {
          nullifiers_kept =
              λ x e. rw (set_nullifiers_lem inputs s.nullifiers x) (ground (arith, e));
          exists_kept = λ x e. e;
          roots_kept = λ r e. e;
        },
        λ x nz m. rw (set_nullifiers_lem inputs s.nullifiers x) (ground arith),
      )
  write-Kept sender (write_outputs outputs) s t h =
      let (_, mine, h₁) = >>=-eq-ok (lift_base (only_zeto sender s.base tt)) _ h in
      let (tree, added, h₂) = >>=-eq-ok (add_leaves smt outputs s.commitments_tree) _ h₁ in
      let (roots, leaves, new) = add_leaves_lem outputs s.commitments_tree tree added in
      rw (sym (ok-injective h₂)) (
        record {
          nullifiers_kept = λ x e. e;
          exists_kept = λ x. or_map _ _ _ _ (leaves x) (λ e. e);
          roots_kept = roots;
        },
        λ x nz m. rw (new x nz m) refl,
      )
  write-Kept sender (write_locked_outputs outputs) s t h =
      let (b, moved, h₂) =
        >>=-eq-ok (lift_base (base_process_locked_outputs sender outputs s.base)) _ h in
      let done = lift_base-eq-ok (base_process_locked_outputs sender outputs s.base) moved in
      rw (sym (ok-injective h₂)) (
        record {
          nullifiers_kept = λ x e. e;
          exists_kept = λ x.
              or_map _ _ _ _ (λ e. e) (base_locked_outputs_kept sender outputs s.base b x done).0;
          roots_kept = λ r e. e;
        },
        λ x nz m. ground (arith, (base_locked_outputs_kept sender outputs s.base b x done).1 nz m),
      )

  writes-Kept : (ws : List (ℕ × Write)) (s : NullifierStorage smt) → Kept s (writes smt ws s)
  unfolding writes
  writes-Kept [] s = Kept-refl s
  writes-Kept ((sender, w) ∷ ws) s = elim (Result-cases (write smt sender w s)) [
    | inl (t, h) ↦ rw h (Kept-trans (write-Kept sender w s t h).0 (writes-Kept ws t))
    | inr (e, h) ↦ rw h (writes-Kept ws s)
  ]

  IsTaken-Kept :
      (w : Write) (x : ℕ) (s t : NullifierStorage smt) → Kept s t → IsTaken w x s → IsTaken w x t
  IsTaken-Kept (write_inputs inputs false) x s t k e = k.nullifiers_kept x e
  IsTaken-Kept (write_inputs inputs true) x s t k e = k.exists_kept x e
  IsTaken-Kept (write_outputs outputs) x s t k e = k.exists_kept x e
  IsTaken-Kept (write_locked_outputs outputs) x s t k e = k.exists_kept x e

  nullifier_refused :
      (s : NullifierStorage smt) (p : Option ℕ) (x : ℕ)
      → s.nullifiers x ≡ true
      → nullifier_error smt s p x ≢ none
  unfolding nullifier_error
  nullifier_refused s p x e h = ground (arith, e, h)

  output_refused :
      (s : NullifierStorage smt) (p : Option ℕ) (x : ℕ)
      → exists smt x s ≡ true
      → new_output_error smt s p x ≢ none
  unfolding new_output_error
  output_refused s p x e h = ground (arith, e, h)

  -- `Arrays.sort` keeps the elements.
  module _ (sort : List ℕ → List ℕ)
      (sort_keeps : (xs : List ℕ) (x : ℕ) → mem x (sort xs) ≡ mem x xs) where
    -- The check that stands between a list and the storage after a write: that of inputs after
    -- nullifiers, and that of outputs after any other.
    abbrev pub check_after : Write → List ℕ → NullifierStorage smt → Result StorageError (Unit {0})
    check_after (write_inputs inputs false) ys s = validate_inputs smt sort ys false s
    check_after (write_inputs inputs true) ys s = validate_outputs smt sort ys s
    check_after (write_outputs outputs) ys s = validate_outputs smt sort ys s
    check_after (write_locked_outputs outputs) ys s = validate_outputs smt sort ys s

    outputs_refused :
        (ys : List ℕ) (s : NullifierStorage smt) (x : ℕ)
        → exists smt x s ≡ true
        → mem x ys ≡ true
        → x ≢ 0
        → validate_outputs smt sort ys s ≢ ok tt
    unfolding validate_outputs
    outputs_refused ys s x e m nz h =
        let (p, free) =
          accepted (new_output_error smt s) none (sort ys) x h (rw (sort_keeps ys x) m) nz in
        output_refused s p x e free

    check_refuses :
        (w : Write) (ys : List ℕ) (s : NullifierStorage smt) (x : ℕ)
        → IsTaken w x s
        → mem x ys ≡ true
        → x ≢ 0
        → check_after w ys s ≢ ok tt
    unfolding validate_inputs
    check_refuses (write_inputs inputs false) ys s x e m nz h =
        let (p, free) =
          accepted (nullifier_error smt s) none (sort ys) x h (rw (sort_keeps ys x) m) nz in
        nullifier_refused s p x e free
    check_refuses (write_inputs inputs true) ys s x e m nz h = outputs_refused ys s x e m nz h
    check_refuses (write_outputs outputs) ys s x e m nz h = outputs_refused ys s x e m nz h
    check_refuses (write_locked_outputs outputs) ys s x e m nz h = outputs_refused ys s x e m nz h

    -- What a write that goes through has put into the storage stays, whatever is written after it: a
    -- nullifier other than zero is refused as an input for good, and a UTXO other than zero, be it an
    -- output, a locked output or a locked input, is refused as an output; and each root that the tree
    -- has had stays valid. The tree is assumed to grow only and to keep its roots, and the sort to keep
    -- the elements.
    pub written_for_good :
        (sender : ℕ) (w : Write) (s t : NullifierStorage smt) (ws : List (ℕ × Write))
        → write smt sender w s ≡ ok t
        → ((x : ℕ) (ys : List ℕ)
            → x ≢ 0
            → mem x (written w) ≡ true
            → mem x ys ≡ true
            → check_after w ys (writes smt ws t) ≢ ok tt)
          × ((r : ℕ)
              → validate_root smt r s ≡ ok tt
              → validate_root smt r (writes smt ws t) ≡ ok tt)
    unfolding validate_root
    written_for_good sender w s t ws h =
        let (first, taken) = write-Kept sender w s t h in
        let later = writes-Kept ws t in
        (
          λ x ys nz m n.
              check_refuses w ys (writes smt ws t) x
                (IsTaken-Kept w x t (writes smt ws t) later (taken x nz m)) n nz,
          λ r e.
              let now = later.roots_kept r (first.roots_kept r (ground (arith, e))) in rw now refl,
        )
