-- ===== src/Circuits/Respending.antt =====
-- Transfers with nullifiers under different private keys of the same public key:
-- zkp/circuits/lib/check-nullifiers.circom asks in a comment that the key is trimmed.
use zeto.Base.{
  ℕ, ◌<◌, ◌≡◌, ◌⊎◌, refl, true, Bool-cases, inl, inr, List, [], ◌∷◌, ◌==◌, if◌then◌else◌, arith,
}
use zeto.Field.{F}
use zeto.Circuits.{Circomlib, nullifier_of, check_nullifiers}
use zeto.Circuits.Tokens.{
  NullifierSignals, zeto_anon_template, zeto_anon_nullifier_template, check_commitments,
}
use zeto.Circuits.Sums.{CircomlibLaws}
use zeto.Circuits.Hashes.{check_hash_iff}

module _ (lib : Circomlib) where
  -- The nullifiers calculated again, those of zero excepted.
  abbrev pub renullified : ℕ → List ℕ → List ℕ → List ℕ → List ℕ
  renullified k [] values salts = []
  renullified k (n ∷ nullifiers) [] salts = []
  renullified k (n ∷ nullifiers) (v ∷ values) [] = []
  renullified k (n ∷ nullifiers) (v ∷ values) (s ∷ salts) =
      (if n == 0 then 0 else nullifier_of lib v s k) ∷ renullified k nullifiers values salts

  abbrev pub with_key : ℕ → NullifierSignals → NullifierSignals
  with_key k s = record s {
    transfer = record s.transfer { input_owner_private_key = k };
    nullifiers = renullified k s.nullifiers s.transfer.input_values s.transfer.input_salts;
  }

  module _ (laws : CircomlibLaws lib) where
    pub nullifier_of-lt : (v s k : ℕ) → nullifier_of lib v s k < F
    unfolding nullifier_of
    nullifier_of-lt v s k = laws.poseidon_lt (v ∷ s ∷ k ∷ [])

    nullified :
        (nullifiers values salts : List ℕ) (k l : ℕ)
        → check_nullifiers lib nullifiers values salts l ≡ true
        → check_nullifiers lib (renullified k nullifiers values salts) values salts k ≡ true
    unfolding check_nullifiers
    nullified [] [] [] k l h = refl
    nullified [] [] (s ∷ salts) k l h = absurd (ground arith)
    nullified [] (v ∷ values) salts k l h = absurd (ground arith)
    nullified (n ∷ ns) [] salts k l h = absurd (ground arith)
    nullified (n ∷ ns) (v ∷ values) [] k l h = absurd (ground arith)
    nullified (n ∷ ns) (v ∷ values) (s ∷ salts) k l h =
        let rest = nullified ns values salts k l (ground arith) in
        let new = if n == 0 then 0 else nullifier_of lib v s k in
        let new_lt : new < F = ground (arith, nullifier_of-lt v s k) in
        let opened : (new ≡ 0) ⊎ (new ≡ nullifier_of lib v s k) = elim (Bool-cases (n == 0)) [
          | inl e ↦ rw e (inl refl)
          | inr e ↦ rw e (inr refl)
        ] in
        let passes =
          (check_hash_iff lib laws new (nullifier_of lib v s k) new_lt (nullifier_of-lt v s k)).1
            opened in
        rw passes rest

    -- Take signals that satisfy the circuit of transfers with nullifiers, and another private key of the
    -- same public key. The same signals with the other key, and with the nullifiers calculated from it,
    -- satisfy the circuit too.
    pub respend :
        (n_inputs n_outputs private_key : ℕ) (s : NullifierSignals)
        → lib.baby_pbk private_key ≡ lib.baby_pbk s.transfer.input_owner_private_key
        → zeto_anon_nullifier_template lib n_inputs n_outputs s ≡ true
        → zeto_anon_nullifier_template lib n_inputs n_outputs (with_key private_key s) ≡ true
    unfolding zeto_anon_nullifier_template zeto_anon_template check_commitments
    respend n m k s same h =
        let passes =
          nullified s.nullifiers s.transfer.input_values s.transfer.input_salts k
            s.transfer.input_owner_private_key (ground arith) in
        ground (arith, passes, same)
