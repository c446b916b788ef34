-- ===== src/Circuits/Tests.antt =====
-- Runs of the circuits with templates that stand in for circomlib's.
mod Attacks
use zeto.Base.{
  ℕ, ◌+◌, ◌*◌, ◌%◌, ◌^◌, ◌<◌, ◌≤◌, ◌≡◌, ◌≢◌, ◌↔◌, refl, Bool, true, false, ◌||◌, ◌&&◌, Bool-cases,
  inl, inr, Option, none, some, List, [], ◌∷◌, replicate, ltb, ◌==◌, if◌then◌else◌, All, arith,
}
use zeto.Field.{F}
use zeto.Storage.Checked.{mem}
use zeto.Circuits.{Circomlib, CommitmentInputs, minus, commitment_of, nullifier_of}
use zeto.Circuits.Tokens.{
  TransferSignals, NullifierSignals, DepositSignals, zeto_anon_template,
  zeto_anon_nullifier_template, withdraw_template, deposit_template, burn_template,
}
use zeto.Circuits.Sums.{CircomlibLaws, sum, max_value}
use zeto.Circuits.Exact.{Opened, zeto_anon_template_iff}
use zeto.Circuits.Conservation.{transfer_conserves, withdraw_pays, worth}
use zeto.Circuits.Inflation.{free_transfer, conjured}

abbrev pub small_hash : List ℕ → ℕ
small_hash [] = 1
small_hash (x ∷ xs) = (x + 1000003 * small_hash xs) % F

abbrev pub small_order : ℕ
small_order = 1009

abbrev pub toy_lib : Circomlib
toy_lib = record {
  poseidon = small_hash;
  is_zero = λ a. if (a % F) == 0 then 1 else 0;
  is_equal = λ a b. if (a % F) == (b % F) then 1 else 0;
  greater_eq_than = λ n a b. if ltb (minus a b) (2 ^ n) then some 1 else some 0;
  baby_pbk = λ k. if ltb k (2 ^ 253) then some (k % small_order, 1) else none;
  smt_verifier = λ enabled root siblings key value.
      (enabled == 0) || ((key == value) && mem key siblings && (root == small_hash siblings));
}

small_hash-lt : (xs : List ℕ) → small_hash xs < F
small_hash-lt [] = omega arith
small_hash-lt (x ∷ xs) = omega arith

pub toy_laws : CircomlibLaws toy_lib
toy_laws = record {
  poseidon_lt = small_hash-lt;
  is_zero_lem = λ a. refl;
  is_equal_lem = λ a b. refl;
  greater_eq_than_lem = λ n a b h. elim (Bool-cases (ltb (minus a b) (2 ^ n))) [
    | inl e ↦ rw e (λ _. ground arith, λ _. refl)
    | inr e ↦ rw e (λ o. ground arith, λ l. absurd (ground arith))
  ];
}

abbrev pub commitment : ℕ → ℕ → ℕ → ℕ
commitment v s k = small_hash (v ∷ s ∷ k ∷ 1 ∷ [])

-- Of five and seven make nine and three.
abbrev payment : TransferSignals
payment = record {
  input_commitments = commitment 5 11 42 ∷ commitment 7 12 42 ∷ [];
  input_values = 5 ∷ 7 ∷ [];
  input_salts = 11 ∷ 12 ∷ [];
  input_owner_private_key = 42;
  output_commitments = commitment 9 13 43 ∷ commitment 3 14 42 ∷ [];
  output_values = 9 ∷ 3 ∷ [];
  output_salts = 13 ∷ 14 ∷ [];
  output_owner_public_keys = (43, 1) ∷ (42, 1) ∷ [];
}

zeto_anon_template_iff_example : (zeto_anon_template toy_lib 2 2 payment ≡ true) ↔ (
    Opened toy_lib 2 2 payment × ((sum payment.input_values % F) ≡ (sum payment.output_values % F)))
zeto_anon_template_iff_example = zeto_anon_template_iff toy_lib toy_laws 2 2 payment (record {
  inputs = (small_hash-lt (5 ∷ 11 ∷ 42 ∷ 1 ∷ []), (small_hash-lt (7 ∷ 12 ∷ 42 ∷ 1 ∷ []), tt));
  outputs = (small_hash-lt (9 ∷ 13 ∷ 43 ∷ 1 ∷ []), (small_hash-lt (3 ∷ 14 ∷ 42 ∷ 1 ∷ []), tt));
  values = (omega arith, (omega arith, tt));
})

payment_satisfies : zeto_anon_template toy_lib 2 2 payment ≡ true
unfolding zeto_anon_template
payment_satisfies = refl

transfer_conserves_example :
    ((sum payment.input_values) ≡ (sum payment.output_values))
    × (worth payment.output_commitments payment.output_values
        ≤ worth payment.input_commitments payment.input_values)
    × All (λ x. x < max_value) payment.output_values
transfer_conserves_example =
    transfer_conserves toy_lib toy_laws 2 2 payment (omega arith) (omega arith) payment_satisfies
      (omega arith, (omega arith, tt)) (omega arith, (omega arith, tt))
      ((λ e. absurd (omega (arith, e))), ((λ e. absurd (omega (arith, e))), tt))

-- Four of twelve are paid out.
abbrev withdrawal : TransferSignals
withdrawal = record payment {
  output_commitments = commitment 8 13 42 ∷ [];
  output_values = 8 ∷ [];
  output_salts = 13 ∷ [];
  output_owner_public_keys = (42, 1) ∷ [];
}

withdrawal_satisfies : withdraw_template toy_lib 2 1 withdrawal ≡ some 4
unfolding withdraw_template
withdrawal_satisfies = refl

withdraw_pays_example :
    (4 + sum withdrawal.output_values ≡ sum withdrawal.input_values)
    × (4 + worth withdrawal.output_commitments withdrawal.output_values
        ≤ worth withdrawal.input_commitments withdrawal.input_values)
    × (4 < max_value)
withdraw_pays_example =
    withdraw_pays toy_lib toy_laws 2 1 withdrawal 4 (omega arith) (omega arith) withdrawal_satisfies
      (omega arith, (omega arith, tt)) (omega arith, tt)
      ((λ e. absurd (omega (arith, e))), ((λ e. absurd (omega (arith, e))), tt))

burnt : burn_template toy_lib 2 withdrawal ≡ true
unfolding burn_template
burnt = refl

abbrev two_outputs : DepositSignals
two_outputs = record {
  output_commitments = commitment 900 13 43 ∷ commitment 100 14 42 ∷ [];
  output_values = 900 ∷ 100 ∷ [];
  output_salts = 13 ∷ 14 ∷ [];
  output_owner_public_keys = (43, 1) ∷ (42, 1) ∷ [];
}

deposit_satisfies : deposit_template toy_lib 2 two_outputs ≡ some 1000
unfolding deposit_template
deposit_satisfies = refl
