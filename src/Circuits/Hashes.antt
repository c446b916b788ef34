-- ===== src/Circuits/Hashes.antt =====
-- What the constraints on commitments and nullifiers come to.
use zeto.Base.{
  ℕ, ◌<◌, ◌≡◌, ◌⊎◌, ◌↔◌, refl, true, Bool-cases, inl, inr, some, Option-cases, List, [], ◌∷◌,
  length, replicate, ◌==◌, All, arith,
}
use zeto.Field.{F}
use zeto.Circuits.{
  Circomlib, CommitmentInputs, commitment_inputs, minus, times, commitment_of, check_hash,
  check_hashes, check_positive,
}
use zeto.Circuits.Tokens.{TransferSignals, has_size, check_commitments}
use zeto.Circuits.Sums.{CircomlibLaws}

pub sized : {A : Type 0} (n : ℕ) (xs : List A) → (has_size n xs ≡ true) ↔ (length xs ≡ n)
unfolding has_size
sized n xs = (λ h. ground arith, λ h. ground arith)

module _ (lib : Circomlib) where
  -- Each commitment is zero or the hash that belongs to it.
  abbrev pub AreOpened : List ℕ → List CommitmentInputs → Type 0
  AreOpened [] [] = Unit
  AreOpened (h ∷ hs) (c ∷ cs) = ((h ≡ 0) ⊎ (h ≡ commitment_of lib c)) × AreOpened hs cs
  AreOpened _ _ = ⊥

  -- What the constraints that all transfers share have made sure of.
  pub record Checked (n_inputs n_outputs : ℕ) (s : TransferSignals) : Type 0 where
    pub inputs_sized :
        (length s.input_commitments ≡ n_inputs)
        × (length s.input_values ≡ n_inputs)
        × (length s.input_salts ≡ n_inputs)
    pub outputs_sized :
        (length s.output_commitments ≡ n_outputs)
        × (length s.output_values ≡ n_outputs)
        × (length s.output_salts ≡ n_outputs)
        × (length s.output_owner_public_keys ≡ n_outputs)
    pub key : ℕ × ℕ
    pub owned : lib.baby_pbk s.input_owner_private_key ≡ some key
    pub positive : check_positive lib s.output_values ≡ true
    pub inputs_hashed :
        check_hashes lib s.input_commitments
          (commitment_inputs s.input_values s.input_salts (replicate n_inputs key))
        ≡ true
    pub outputs_hashed :
        check_hashes lib s.output_commitments
          (commitment_inputs s.output_values s.output_salts s.output_owner_public_keys)
        ≡ true

  pub check_commitments-Checked :
      (n_inputs n_outputs : ℕ) (s : TransferSignals)
      → check_commitments lib n_inputs n_outputs s ≡ true
      → Checked n_inputs n_outputs s
  unfolding check_commitments has_size
  check_commitments-Checked n m s h = elim (Option-cases (lib.baby_pbk s.input_owner_private_key)) [
    | inl e ↦ absurd (ground arith)
    | inr (key, e) ↦ record {
      inputs_sized = (ground arith, ground arith, ground arith);
      outputs_sized = (ground arith, ground arith, ground arith, ground arith);
      key = key;
      owned = e;
      positive = ground arith;
      inputs_hashed = ground arith;
      outputs_hashed = ground arith;
    }
  ]

  pub Checked-check_commitments :
      (n_inputs n_outputs : ℕ) (s : TransferSignals)
      → Checked n_inputs n_outputs s
      → check_commitments lib n_inputs n_outputs s ≡ true
  unfolding check_commitments
  Checked-check_commitments n m s c =
      let (i₁, i₂, i₃) = c.inputs_sized in
      let (o₁, o₂, o₃, o₄) = c.outputs_sized in
      rw
        (
          (sized n s.input_commitments).1 i₁,
          (sized n s.input_values).1 i₂,
          (sized n s.input_salts).1 i₃,
          (sized m s.output_commitments).1 o₁,
          (sized m s.output_values).1 o₂,
          (sized m s.output_salts).1 o₃,
          (sized m s.output_owner_public_keys).1 o₄,
          c.owned,
          c.positive,
          c.inputs_hashed,
          c.outputs_hashed,
        )
        refl

  module _ (laws : CircomlibLaws lib) where
    -- A signal passes for a hash if it is zero or the hash.
    pub check_hash_iff :
        (signal hash : ℕ)
        → signal < F
        → hash < F
        → (check_hash lib signal hash ≡ true) ↔ ((signal ≡ 0) ⊎ (signal ≡ hash))
    unfolding check_hash
    check_hash_iff signal hash hs hh =
        let e = laws.is_equal_lem signal (times (minus 1 (lib.is_zero signal)) hash) in
        let z = laws.is_zero_lem signal in
        elim (Bool-cases (signal == 0)) [
          | inl zero_signal ↦
              let nought : signal ≡ 0 = ground arith in
              let one : lib.is_zero signal ≡ 1 = ground (arith, z) in
              let none_left : times (minus 1 (lib.is_zero signal)) hash ≡ 0 =
                rw one (omega arith) in
              (λ h. inl nought, λ h. ground (arith, e, none_left))
          | inr other ↦
              let nought : lib.is_zero signal ≡ 0 = ground (arith, z) in
              let whole : times (minus 1 (lib.is_zero signal)) hash ≡ hash =
                rw nought (omega arith) in
              (
                λ h. inr (ground (arith, e, whole)),
                λ h. elim h [
                  | inl y ↦ absurd (ground (arith, y))
                  | inr y ↦ ground (arith, e, whole, y)
                ],
              )
        ]

    pub commitment_of-lt : (c : CommitmentInputs) → commitment_of lib c < F
    unfolding commitment_of
    commitment_of-lt c =
        laws.poseidon_lt (c.value ∷ c.salt ∷ c.owner_public_key.0 ∷ c.owner_public_key.1 ∷ [])

    -- CheckHashes lets through arrays of commitments, each of which is zero or the hash of the value, the
    -- salt and the key at its place, and no others.
    pub check_hashes_iff :
        (hashes : List ℕ) (cs : List CommitmentInputs)
        → All (λ h. h < F) hashes
        → (check_hashes lib hashes cs ≡ true) ↔ AreOpened hashes cs
    unfolding check_hashes
    check_hashes_iff [] [] b = (λ h. tt, λ h. refl)
    check_hashes_iff [] (c ∷ cs) b = (λ h. ground arith, λ h. absurd h)
    check_hashes_iff (h ∷ hs) [] b = (λ e. ground arith, λ e. absurd e)
    check_hashes_iff (h ∷ hs) (c ∷ cs) (b, bs) =
        let (f, g) = check_hash_iff h (commitment_of lib c) b (commitment_of-lt c) in
        let (fs, gs) = check_hashes_iff hs cs bs in
        (λ e. (f (ground arith), fs (ground arith)), λ (e, es). rw (g e) (gs es))
