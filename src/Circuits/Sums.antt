-- ===== src/Circuits/Sums.antt =====
-- What the constraints on values come to, where the templates of circomlib do what they are meant to.
use zeto.Base.{
  ℕ, ◌+◌, ◌*◌, ◌%◌, ◌^◌, ◌<◌, ◌≤◌, ◌≡◌, ◌↔◌, refl, true, Option, none, some, List, [], ◌∷◌, length,
  ◌==◌, if◌then◌else◌, All, arith,
}
use zeto.Field.{F}
use zeto.Circuits.{Circomlib, plus, minus, is_one, sum_from, check_positive, check_sum}

-- The comparators, on representatives of the field's elements: GreaterEqThan(n) gives one exactly when
-- the difference lies below 2^n.
pub record CircomlibLaws (lib : Circomlib) : Type 0 where
  pub poseidon_lt : (xs : List ℕ) → lib.poseidon xs < F
  pub is_zero_lem : (a : ℕ) → lib.is_zero a ≡ (if (a % F) == 0 then 1 else 0)
  pub is_equal_lem : (a b : ℕ) → lib.is_equal a b ≡ (if (a % F) == (b % F) then 1 else 0)
  pub greater_eq_than_lem :
      (n a b : ℕ) → n ≤ 252 → (lib.greater_eq_than n a b ≡ some 1) ↔ (minus a b < 2 ^ n)

abbrev pub sum : List ℕ → ℕ
sum [] = 0
sum (x ∷ xs) = x + sum xs

-- The range that the circuits allow a value.
abbrev pub max_value : ℕ
max_value = 2 ^ 100

pub sum_from-mod : (acc : ℕ) (xs : List ℕ) → sum_from acc xs % F ≡ (acc + sum xs) % F
unfolding sum_from
sum_from-mod acc [] = omega arith
sum_from-mod acc (x ∷ xs) = omega (arith, sum_from-mod (plus acc x) xs)

pub sum-le : (xs : List ℕ) → All (λ x. x < max_value) xs → sum xs ≤ length xs * max_value
sum-le [] h = omega arith
sum-le (x ∷ xs) (hx, h) = omega (arith, sum-le xs h)

pub is_one-some : (o : Option ℕ) → (is_one o ≡ true) ↔ (o ≡ some 1)
is_one-some none = (λ h. ground arith, λ h. ground arith)
is_one-some (some out) = (λ h. ground arith, λ h. ground arith)

module _ (lib : Circomlib) (laws : CircomlibLaws lib) where
  -- CheckPositive lets through values of the range, and no others.
  pub check_positive_iff :
      (values : List ℕ)
      → All (λ x. x < F) values
      → (check_positive lib values ≡ true) ↔ All (λ x. x < max_value) values
  unfolding check_positive
  check_positive_iff [] h = (λ e. tt, λ e. refl)
  check_positive_iff (x ∷ xs) (hx, h) =
      let (f, g) = check_positive_iff xs h in
      let (f₁, g₁) = is_one-some (lib.greater_eq_than 100 x 0) in
      let (f₂, g₂) = laws.greater_eq_than_lem 100 x 0 (omega arith) in
      (
        λ e.
            let one : is_one (lib.greater_eq_than 100 x 0) ≡ true = ground arith in
            (omega (arith, f₂ (f₁ one)), f (ground arith)),
        λ (e, es). rw (g₁ (g₂ (omega (arith, e)))) (g es),
      )

  -- CheckSum compares the sums as field elements.
  pub check_sum_iff :
      (input_values output_values : List ℕ)
      → (check_sum lib input_values output_values ≡ true)
        ↔ ((sum input_values % F) ≡ (sum output_values % F))
  unfolding check_sum
  check_sum_iff xs ys =
      let e = laws.is_equal_lem (sum_from 0 xs) (sum_from 0 ys) in
      (
        λ h. ground (arith, e, sum_from-mod 0 xs, sum_from-mod 0 ys),
        λ h. ground (arith, e, sum_from-mod 0 xs, sum_from-mod 0 ys),
      )
