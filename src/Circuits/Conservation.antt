-- ===== src/Circuits/Conservation.antt =====
-- The sums of the values of transfers and withdrawals.
use zeto.Base.{
  ℕ, ◌+◌, ◌%◌, ◌<◌, ◌≤◌, ◌≡◌, refl, sym, true, ◌&&◌, Bool-cases, inl, inr, some, List, [], ◌∷◌,
  length, ◌==◌, if◌then◌else◌, All, arith,
}
use zeto.Field.{F}
use zeto.Circuits.{Circomlib, minus, is_one, sum_from}
use zeto.Circuits.Tokens.{
  TransferSignals, zeto_anon_template, withdraw_template, check_commitments, check_enough,
}
use zeto.Circuits.Sums.{
  CircomlibLaws, sum, max_value, sum_from-mod, sum-le, check_positive_iff, check_sum_iff,
  is_one-some,
}
use zeto.Circuits.Hashes.{check_commitments-Checked}

-- The values of the commitments that are not zero: a contract passes over those that are.
abbrev pub worth : List ℕ → List ℕ → ℕ
worth [] values = 0
worth (c ∷ cs) [] = 0
worth (c ∷ cs) (v ∷ values) = (if c == 0 then 0 else v) + worth cs values

-- No value stands at a commitment of zero.
abbrev pub HasNoStray : List ℕ → List ℕ → Type 0
HasNoStray [] values = Unit
HasNoStray (c ∷ cs) [] = Unit
HasNoStray (c ∷ cs) (v ∷ values) = (c ≡ 0 → v ≡ 0) × HasNoStray cs values

worth-le-sum : (cs values : List ℕ) → worth cs values ≤ sum values
worth-le-sum [] values = omega arith
worth-le-sum (c ∷ cs) [] = omega arith
worth-le-sum (c ∷ cs) (v ∷ values) = ground (arith, worth-le-sum cs values)

worth-eq-sum :
    (cs values : List ℕ)
    → length cs ≡ length values
    → HasNoStray cs values
    → worth cs values ≡ sum values
worth-eq-sum [] [] e h = refl
worth-eq-sum [] (v ∷ values) e h = absurd (omega arith)
worth-eq-sum (c ∷ cs) [] e h = absurd (omega arith)
worth-eq-sum (c ∷ cs) (v ∷ values) e (h, hs) =
    let rest = worth-eq-sum cs values (omega arith) hs in
    elim (Bool-cases (c == 0)) [
      | inl z ↦ let nought : v ≡ 0 = h (ground arith) in ground (arith, rest, nought)
      | inr n ↦ ground (arith, rest)
    ]

-- Few enough values of the range do not reach the modulus.
same_sum :
    (xs ys : List ℕ)
    → length xs ≤ 10
    → length ys ≤ 10
    → All (λ x. x < max_value) xs
    → All (λ y. y < max_value) ys
    → (sum xs % F) ≡ (sum ys % F)
    → sum xs ≡ sum ys
same_sum xs ys lx ly hx hy e = omega (arith, sum-le xs hx, sum-le ys hy)

difference :
    (xs ys : List ℕ)
    → length xs ≤ 10
    → length ys ≤ 10
    → All (λ x. x < max_value) xs
    → All (λ y. y < max_value) ys
    → minus (sum_from 0 xs) (sum_from 0 ys) < max_value
    → minus (sum_from 0 xs) (sum_from 0 ys) + sum ys ≡ sum xs
difference xs ys lx ly hx hy e =
    omega (arith, sum-le xs hx, sum-le ys hy, sum_from-mod 0 xs, sum_from-mod 0 ys)

module _ (lib : Circomlib) (laws : CircomlibLaws lib) where
  -- If the signals of a transfer satisfy the constraints, the inputs' values lie in the range, and no
  -- input's value stands at a commitment of zero, then the values have the same sum, as numbers, and the
  -- outputs' commitments are worth no more than the inputs'. The outputs' values lie in the range too.
  pub transfer_conserves :
      (n_inputs n_outputs : ℕ) (s : TransferSignals)
      → n_inputs ≤ 10
      → n_outputs ≤ 10
      → zeto_anon_template lib n_inputs n_outputs s ≡ true
      → All (λ x. x < max_value) s.input_values
      → All (λ x. x < F) s.output_values
      → HasNoStray s.input_commitments s.input_values
      → (sum s.input_values ≡ sum s.output_values)
        × (worth s.output_commitments s.output_values ≤ worth s.input_commitments s.input_values)
        × All (λ x. x < max_value) s.output_values
  unfolding zeto_anon_template
  transfer_conserves n m s hn hm h small field clean =
      let c = check_commitments-Checked lib n m s (ground arith) in
      let (i₁, i₂, _) = c.inputs_sized in
      let (o₁, o₂, _, _) = c.outputs_sized in
      let range = (check_positive_iff lib laws s.output_values field).0 c.positive in
      let sums = (check_sum_iff lib laws s.input_values s.output_values).0 (ground arith) in
      let same =
        same_sum s.input_values s.output_values (omega (arith, i₂)) (omega (arith, o₂)) small range
          sums in
      (
        same,
        omega (
          arith,
          same,
          worth-le-sum s.output_commitments s.output_values,
          worth-eq-sum s.input_commitments s.input_values (omega (arith, i₁, i₂)) clean,
        ),
        range,
      )

  -- If the signals of a withdrawal satisfy the constraints, under the same conditions, the amount that
  -- the circuit puts out and the outputs' values add up to the inputs' values, as numbers.
  pub withdraw_pays :
      (n_inputs n_outputs : ℕ) (s : TransferSignals) (amount : ℕ)
      → n_inputs ≤ 10
      → n_outputs ≤ 10
      → withdraw_template lib n_inputs n_outputs s ≡ some amount
      → All (λ x. x < max_value) s.input_values
      → All (λ x. x < F) s.output_values
      → HasNoStray s.input_commitments s.input_values
      → (amount + sum s.output_values ≡ sum s.input_values)
        × (amount + worth s.output_commitments s.output_values
            ≤ worth s.input_commitments s.input_values)
        × (amount < max_value)
  unfolding withdraw_template check_enough
  withdraw_pays n m s amount hn hm h small field clean =
      elim (Bool-cases
        (check_commitments lib n m s && check_enough lib s.input_values s.output_values)) [
          | inl e ↦
              let c = check_commitments-Checked lib n m s (ground arith) in
              let (i₁, i₂, _) = c.inputs_sized in
              let (o₁, o₂, _, _) = c.outputs_sized in
              let range = (check_positive_iff lib laws s.output_values field).0 c.positive in
              let enough : is_one (
                    lib.greater_eq_than 100 (sum_from 0 s.input_values)
                      (sum_from 0 s.output_values))
                  ≡ true =
                ground arith in
              let below =
                (laws.greater_eq_than_lem 100 (sum_from 0 s.input_values)
                    (sum_from 0 s.output_values) (omega arith)).0
                  ((is_one-some _).0 enough) in
              let paid : minus (sum_from 0 s.input_values) (sum_from 0 s.output_values) ≡ amount =
                ground arith in
              let rest =
                difference s.input_values s.output_values (omega (arith, i₂)) (omega (arith, o₂))
                  small range below in
              let all : amount + sum s.output_values ≡ sum s.input_values = rw (sym paid) rest in
              (
                all,
                omega (
                  arith,
                  all,
                  worth-le-sum s.output_commitments s.output_values,
                  worth-eq-sum s.input_commitments s.input_values (omega (arith, i₁, i₂)) clean,
                ),
                rw (sym paid) below,
              )
          | inr e ↦ absurd (ground arith)
        ]
