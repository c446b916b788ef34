-- ===== src/Storage/Checked.antt =====
-- What the checks of the storage have made sure of.
use zeto.Base.{
  ℕ, ◌≡◌, ◌≢◌, refl, Bool, true, false, ◌||◌, Option, none, some, List, [], ◌∷◌, ◌++◌, ◌==◌, ok,
  arith, Bool-cases, inl, inr,
}
use zeto.Storage.{
  BaseStorage, StorageError, unknown, unspent, input_error, output_error, check_sorted, spent,
  locked, validate_inputs, validate_outputs,
}

abbrev pub mem : ℕ → List ℕ → Bool
mem x [] = false
mem x (y ∷ ys) = (x == y) || mem x ys

pub mem-append : (x : ℕ) (ys zs : List ℕ) → mem x (ys ++ zs) ≡ (mem x ys || mem x zs)
mem-append x [] zs = refl
mem-append x (y ∷ ys) zs = ground (arith, mem-append x ys zs)

-- A list that is accepted has, for each element that is not zero, a predecessor with which the test
-- finds nothing.
pub accepted :
    (test : Option ℕ → ℕ → Option StorageError) (previous : Option ℕ) (xs : List ℕ) (x : ℕ)
    → check_sorted test previous xs ≡ ok tt
    → mem x xs ≡ true
    → x ≢ 0
    → (p : Option ℕ) × (test p x ≡ none)
unfolding check_sorted
accepted test previous [] x h m nz = absurd (ground arith)
accepted test previous (y ∷ ys) x h m nz = elim (Bool-cases (x == y)) [
  | inl e ↦ (previous, ground arith)
  | inr e ↦ accepted test (some y) ys x (ground arith) (ground arith) nz
]

input_known :
    (s : BaseStorage) (inputs_locked : Bool) (p : Option ℕ) (x : ℕ)
    → input_error s inputs_locked p x ≡ none
    → spent s x ≡ unspent
unfolding input_error spent
input_known s inputs_locked p x h = ground arith

input_unlocked :
    (s : BaseStorage) (p : Option ℕ) (x : ℕ) → input_error s false p x ≡ none → locked s x ≡ false
unfolding input_error locked
input_unlocked s p x h = ground arith

output_new :
    (s : BaseStorage) (p : Option ℕ) (x : ℕ) → output_error s p x ≡ none → spent s x ≡ unknown
unfolding output_error spent
output_new s p x h = ground arith

-- `Arrays.sort` keeps the elements.
module _ (sort : List ℕ → List ℕ)
    (sort_keeps : (xs : List ℕ) (x : ℕ) → mem x (sort xs) ≡ mem x xs) where
  pub validated_input :
      (inputs : List ℕ) (inputs_locked : Bool) (s : BaseStorage) (x : ℕ)
      → validate_inputs sort inputs inputs_locked s ≡ ok tt
      → mem x inputs ≡ true
      → x ≢ 0
      → spent s x ≡ unspent
  unfolding validate_inputs
  validated_input inputs inputs_locked s x h m nz =
      let (p, e) =
        accepted (input_error s inputs_locked) none (sort inputs) x h (rw (sort_keeps inputs x) m)
          nz in
      input_known s inputs_locked p x e

  pub validated_unlocked :
      (inputs : List ℕ) (s : BaseStorage) (x : ℕ)
      → validate_inputs sort inputs false s ≡ ok tt
      → mem x inputs ≡ true
      → x ≢ 0
      → locked s x ≡ false
  unfolding validate_inputs
  validated_unlocked inputs s x h m nz =
      let (p, e) =
        accepted (input_error s false) none (sort inputs) x h (rw (sort_keeps inputs x) m) nz in
      input_unlocked s p x e

  pub validated_output :
      (outputs : List ℕ) (s : BaseStorage) (x : ℕ)
      → validate_outputs sort outputs s ≡ ok tt
      → mem x outputs ≡ true
      → x ≢ 0
      → spent s x ≡ unknown
  unfolding validate_outputs
  validated_output outputs s x h m nz =
      let (p, e) =
        accepted (output_error s) none (sort outputs) x h (rw (sort_keeps outputs x) m) nz in
      output_new s p x e
