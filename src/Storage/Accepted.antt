-- ===== src/Storage/Accepted.antt =====
-- Exactly which inputs `validateInputs` of solidity/contracts/lib/storage/base.sol lets through.
use zeto.Base.{
  ℕ, ◌+◌, ◌≤◌, ◌<◌, ◌≡◌, ◌≢◌, ◌↔◌, refl, ◌∙◌, Bool, true, false, ◌||◌, not, Bool-cases, inl, inr,
  Option, none, some, List, [], ◌∷◌, ◌==◌, if◌then◌else◌, All, ok, arith,
}
use zeto.Storage.{
  BaseStorage, StorageError, unspent, repeats, input_error, check_sorted, spent, locked,
  validate_inputs,
}

abbrev pub occurrences : ℕ → List ℕ → ℕ
occurrences x [] = 0
occurrences x (y ∷ ys) = (if x == y then 1 else 0) + occurrences x ys

abbrev pub IsSorted : List ℕ → Type 0
IsSorted [] = Unit
IsSorted (x ∷ xs) = All (λ y. x ≤ y) xs × IsSorted xs

-- It can be spent, by a call that names it as locked if it is.
abbrev pub IsSpendable : BaseStorage → Bool → ℕ → Type 0
IsSpendable s inputs_locked x = (spent s x ≡ unspent) × ((inputs_locked || not (locked s x)) ≡ true)

below : (x : ℕ) (ys : List ℕ) → All (λ y. x < y) ys → occurrences x ys ≡ 0
below x [] h = refl
below x (y ∷ ys) (hy, h) = ground (arith, below x ys h)

below_head : (x y : ℕ) (ys : List ℕ) → x < y → All (λ z. y ≤ z) ys → All (λ z. x < z) ys
below_head x y [] lt h = tt
below_head x y (z ∷ zs) lt (hz, h) = (omega arith, below_head x y zs lt h)

abbrev AtMost : Option ℕ → List ℕ → Type 0
AtMost none xs = Unit
AtMost (some p) xs = All (λ y. p ≤ y) xs

error_none :
    (s : BaseStorage) (l : Bool) (previous : Option ℕ) (x : ℕ)
    → (input_error s l previous x ≡ none) ↔ ((repeats previous x ≡ false) × IsSpendable s l x)
unfolding input_error spent locked
error_none s l previous x = (λ h. ground arith, λ h. ground arith)

passed :
    (previous : Option ℕ) (x y : ℕ) (ys : List ℕ)
    → AtMost previous (y ∷ ys)
    → repeats previous x ≡ true
    → x ≤ y
unfolding repeats
passed none x y ys most r = absurd (ground arith)
passed (some p) x y ys (le, most) r = ground arith

passed_on :
    (test : Option ℕ → ℕ → Option StorageError) (previous : Option ℕ) (y : ℕ) (ys : List ℕ)
    → check_sorted test previous (y ∷ ys) ≡ ok tt
    → (check_sorted test (some y) ys ≡ ok tt) × (y ≢ 0 → test previous y ≡ none)
unfolding check_sorted
passed_on test previous y ys h = (ground arith, λ nz. ground arith)

repeats-some : (y x : ℕ) → (x == y) ≡ true → repeats (some y) x ≡ true
unfolding repeats
repeats-some y x h = h

repeats-other : (y x : ℕ) → (x == y) ≡ false → repeats (some y) x ≡ false
unfolding repeats
repeats-other y x h = h

module _ (s : BaseStorage) (l : Bool) where
  distinct :
      (previous : Option ℕ) (xs : List ℕ) (x : ℕ)
      → IsSorted xs
      → AtMost previous xs
      → x ≢ 0
      → check_sorted (input_error s l) previous xs ≡ ok tt
      → (occurrences x xs ≤ 1) × (repeats previous x ≡ true → occurrences x xs ≡ 0)
  unfolding check_sorted
  distinct previous [] x sorted most nz h = (omega arith, λ r. refl)
  distinct previous (y ∷ ys) x (least, sorted) most nz h =
      let (h', e) = passed_on (input_error s l) previous y ys h in
      let (once, none_left) = distinct (some y) ys x sorted least nz h' in
      elim (Bool-cases (x == y)) [
        | inl eq ↦
            let same : x ≡ y = ground arith in
            let left : occurrences x ys ≡ 0 = none_left (repeats-some y x eq) in
            let (fresh, _) = (error_none s l previous y).0 (e (λ z. nz (same ∙ z))) in
            (ground (arith, left), λ r. absurd (ground (arith, rw same at r, fresh)))
        | inr ne ↦ (
          ground (arith, once),
          λ r.
              let le = passed previous x y ys most r in
              ground (arith, below x ys (below_head x y ys (ground (arith, le)) least)),
        )
      ]

  spendable :
      (previous : Option ℕ) (xs : List ℕ) (x : ℕ)
      → check_sorted (input_error s l) previous xs ≡ ok tt
      → x ≢ 0
      → 1 ≤ occurrences x xs
      → IsSpendable s l x
  unfolding check_sorted
  spendable previous [] x h nz m = absurd (omega arith)
  spendable previous (y ∷ ys) x h nz m =
      let (h', e) = passed_on (input_error s l) previous y ys h in
      elim (Bool-cases (x == y)) [
        | inl eq ↦
            let same : x ≡ y = ground arith in
            rw same ((error_none s l previous y).0 (e (λ z. nz (same ∙ z)))).1
        | inr ne ↦ spendable (some y) ys x h' nz (ground arith)
      ]

  accepts :
      (previous : Option ℕ) (xs : List ℕ)
      → ((x : ℕ)
          → x ≢ 0
          → 1 ≤ occurrences x xs
          → (occurrences x xs ≡ 1) × (repeats previous x ≡ false) × IsSpendable s l x)
      → check_sorted (input_error s l) previous xs ≡ ok tt
  unfolding check_sorted
  accepts previous [] h = refl
  accepts previous (y ∷ ys) h =
      let rest : check_sorted (input_error s l) (some y) ys ≡ ok tt = accepts (some y) ys (λ x nz m.
        let (once, fresh, free) = h x nz (ground arith) in
        elim (Bool-cases (x == y)) [
          | inl eq ↦ absurd (ground (arith, once))
          | inr ne ↦ (ground (arith, once), repeats-other y x ne, free)
        ]) in
      elim (Bool-cases (y == 0)) [
        | inl z ↦ ground (arith, rest)
        | inr nz ↦
            let not_zero : y ≢ 0 = λ e. ground arith in
            let (once, fresh, free) = h y not_zero (ground arith) in
            ground (arith, rest, (error_none s l previous y).1 (fresh, free))
      ]

-- `Arrays.sort` sorts.
module _ (sort : List ℕ → List ℕ)
    (sort_keeps : (xs : List ℕ) (x : ℕ) → occurrences x (sort xs) ≡ occurrences x xs)
    (sort_sorts : (xs : List ℕ) → IsSorted (sort xs)) where
  -- If the sort keeps the elements and sorts, inputs are let through exactly when each that is not
  -- zero stands there once, is unspent and, if it is locked, the call is for locked inputs.
  pub validate_inputs_accepts :
      (inputs : List ℕ) (inputs_locked : Bool) (s : BaseStorage)
      → (validate_inputs sort inputs inputs_locked s ≡ ok tt) ↔ (
          (x : ℕ)
          → x ≢ 0
          → 1 ≤ occurrences x inputs
          → (occurrences x inputs ≡ 1) × IsSpendable s inputs_locked x)
  unfolding validate_inputs repeats
  validate_inputs_accepts inputs inputs_locked s = (
    λ h x nz m.
        let (once, _) = distinct s inputs_locked none (sort inputs) x (sort_sorts inputs) tt nz h in
        (
          omega (arith, sort_keeps inputs x, once),
          spendable s inputs_locked none (sort inputs) x h nz (omega (arith, sort_keeps inputs x)),
        ),
    λ h. accepts s inputs_locked none (sort inputs) (λ x nz m.
        let (once, free) = h x nz (omega (arith, sort_keeps inputs x)) in
        (omega (arith, sort_keeps inputs x), refl, free)),
  )
