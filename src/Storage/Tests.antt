-- ===== src/Storage/Tests.antt =====
-- The checks of the storage at a small state, with insertion sort for the library's.
use zeto.Base.{
  ℕ, ◌+◌, ◌≤◌, ◌≡◌, ◌≢◌, ◌↔◌, refl, true, ◌||◌, List, [], ◌∷◌, leb, ◌==◌, if◌then◌else◌, All, ok,
  arith, err, Bool-cases, inl, inr,
}
use zeto.Storage.{
  BaseStorage, unknown, unspent, validate_inputs, check_sorted, input_error, repeats,
  utxo_duplicate,
}
use zeto.Storage.Checked.{mem}
use zeto.Storage.Accepted.{occurrences, IsSorted, IsSpendable, validate_inputs_accepts}

unfoldable pub insert : ℕ → List ℕ → List ℕ
insert x [] = x ∷ []
insert x (y ∷ ys) = let rest = insert x ys in if leb x y then x ∷ y ∷ ys else y ∷ rest

unfoldable pub insertion_sort : List ℕ → List ℕ
insertion_sort [] = []
insertion_sort (x ∷ xs) = insert x (insertion_sort xs)

mem-insert : (z x : ℕ) (xs : List ℕ) → mem z (insert x xs) ≡ ((z == x) || mem z xs)
unfolding insert
mem-insert z x [] = refl
mem-insert z x (y ∷ ys) = ground (arith, mem-insert z x ys)

pub mem-insertion_sort : (xs : List ℕ) (z : ℕ) → mem z (insertion_sort xs) ≡ mem z xs
unfolding insertion_sort
mem-insertion_sort [] z = refl
mem-insertion_sort (x ∷ xs) z =
    ground (arith, mem-insert z x (insertion_sort xs), mem-insertion_sort xs z)

occurrences-insert :
    (z x : ℕ) (xs : List ℕ)
    → occurrences z (insert x xs) ≡ (if z == x then 1 else 0) + occurrences z xs
unfolding insert
occurrences-insert z x [] = refl
occurrences-insert z x (y ∷ ys) = ground (arith, occurrences-insert z x ys)

occurrences-insertion_sort :
    (xs : List ℕ) (z : ℕ) → occurrences z (insertion_sort xs) ≡ occurrences z xs
unfolding insertion_sort
occurrences-insertion_sort [] z = refl
occurrences-insertion_sort (x ∷ xs) z =
    ground (arith, occurrences-insert z x (insertion_sort xs), occurrences-insertion_sort xs z)

least_insert :
    (z x : ℕ) (xs : List ℕ) → z ≤ x → All (λ y. z ≤ y) xs → All (λ y. z ≤ y) (insert x xs)
unfolding insert
least_insert z x [] le h = (le, tt)
least_insert z x (y ∷ ys) le (hy, h) = elim (Bool-cases (leb x y)) [
  | inl e ↦ rw e (le, (hy, h))
  | inr e ↦ rw e (hy, least_insert z x ys le h)
]

least_trans : (x y : ℕ) (ys : List ℕ) → x ≤ y → All (λ z. y ≤ z) ys → All (λ z. x ≤ z) ys
least_trans x y [] le h = tt
least_trans x y (z ∷ zs) le (hz, h) = (omega arith, least_trans x y zs le h)

insert-IsSorted : (x : ℕ) (xs : List ℕ) → IsSorted xs → IsSorted (insert x xs)
unfolding insert
insert-IsSorted x [] h = (tt, tt)
insert-IsSorted x (y ∷ ys) (least, h) = elim (Bool-cases (leb x y)) [
  | inl e ↦ rw e ((ground arith, least_trans x y ys (ground arith) least), (least, h))
  | inr e ↦ rw e (least_insert y x ys (ground arith) least, insert-IsSorted x ys h)
]

insertion_sort-IsSorted : (xs : List ℕ) → IsSorted (insertion_sort xs)
unfolding insertion_sort
insertion_sort-IsSorted [] = tt
insertion_sort-IsSorted (x ∷ xs) =
    insert-IsSorted x (insertion_sort xs) (insertion_sort-IsSorted xs)

-- The UTXOs 5 and 6 are there, 6 as a locked one.
abbrev two_utxos : BaseStorage
two_utxos = record {
  zeto = 7;
  utxos = λ x. if x == 5 then unspent else unknown;
  locked_utxos = λ x. if x == 6 then unspent else unknown;
}

twice_five : validate_inputs insertion_sort (5 ∷ 0 ∷ 5 ∷ []) true two_utxos ≡ err (utxo_duplicate 5)
unfolding validate_inputs insertion_sort insert check_sorted input_error repeats
twice_five = refl

validate_inputs_accepts_example :
    (validate_inputs insertion_sort (6 ∷ 0 ∷ 5 ∷ []) true two_utxos ≡ ok tt) ↔ (
      (x : ℕ)
      → x ≢ 0
      → 1 ≤ occurrences x (6 ∷ 0 ∷ 5 ∷ [])
      → (occurrences x (6 ∷ 0 ∷ 5 ∷ []) ≡ 1) × IsSpendable two_utxos true x)
validate_inputs_accepts_example =
    validate_inputs_accepts insertion_sort occurrences-insertion_sort insertion_sort-IsSorted
      (6 ∷ 0 ∷ 5 ∷ []) true two_utxos
