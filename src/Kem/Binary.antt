-- ===== src/Kem/Binary.antt =====
-- The binary digits of a number, and the bytes that they are packed into.
use Prim.Native.Nat.pow
use mathlib.Core.List.{reverse-append, reverse-cons, reverse-reverse, append_assoc, append-nil}
use zeto.Base.{
  Bool-cases, inl, inr, ℕ, zero, suc, ◌+◌, ◌-◌, ◌/◌, ◌%◌, ◌^◌, ◌≤◌, ◌<◌, ◌≡◌, refl, ap, ap₂,
  length-reverse, sym, ◌∙◌, List, [], ◌∷◌, ◌++◌, reverse, length, length-append, length-replicate,
  replicate, All, All-append, arith, ◌==◌, if◌then◌else◌,
}
use zeto.Bytes.{bits_to_bytes}
use zeto.Bytes.Value.{
  value, IsBit, IsByte, value-bits_to_bytes, length-bits_to_bytes, bits_to_bytes-IsByte,
  value-append,
}
use zeto.Kem.{digits, to_string_2, pad_start, element_bytes}

-- The digits, the least significant first.
low_digits : ℕ → ℕ → List ℕ
low_digits zero n = []
low_digits (suc fuel) n = let rest = low_digits fuel (n / 2) in if n == 0 then [] else n % 2 ∷ rest

digits-reverse :
    (fuel n : ℕ) (acc : List ℕ) → digits fuel n acc ≡ reverse (low_digits fuel n) ++ acc
unfolding digits low_digits
digits-reverse zero n acc = refl
digits-reverse (suc fuel) n acc = elim (Bool-cases (n == 0)) [
  | inl done ↦ rw done refl
  | inr more ↦ rw more (
      digits-reverse fuel (n / 2) (n % 2 ∷ acc)
      ∙ sym (
          ap (λ (l : List ℕ). l ++ acc) (reverse-cons (n % 2) (low_digits fuel (n / 2)))
          ∙ append_assoc (reverse (low_digits fuel (n / 2))) (n % 2 ∷ []) acc))
]

value-low_digits : (fuel n : ℕ) → n ≤ fuel → value 2 (low_digits fuel n) ≡ n
unfolding low_digits
value-low_digits zero n h = omega arith
value-low_digits (suc fuel) n h = ground (arith, value-low_digits fuel (n / 2))

low_digits-IsBit : (fuel n : ℕ) → All IsBit (low_digits fuel n)
unfolding low_digits
low_digits-IsBit zero n = tt
low_digits-IsBit (suc fuel) n = ground (arith, low_digits-IsBit fuel (n / 2))

length-low_digits : (k fuel n : ℕ) → n < 2 ^ k → length (low_digits fuel n) ≤ k
unfolding low_digits
length-low_digits k zero n h = omega arith
length-low_digits zero (suc fuel) n h = ground arith
length-low_digits (suc k) (suc fuel) n h =
    ground (arith, length-low_digits k fuel (n / 2), pow.suc 2 k)

abbrev zeros : ℕ → List ℕ
zeros k = replicate k 0

zeros_snoc : (k : ℕ) → zeros k ++ 0 ∷ [] ≡ zeros (suc k)
zeros_snoc zero = refl
zeros_snoc (suc k) = ap (λ (l : List ℕ). 0 ∷ l) (zeros_snoc k)

reverse-zeros : (k : ℕ) → reverse (zeros k) ≡ zeros k
reverse-zeros zero = refl
reverse-zeros (suc k) =
    reverse-cons 0 (zeros k) ∙ ap (λ (l : List ℕ). l ++ 0 ∷ []) (reverse-zeros k) ∙ zeros_snoc k

reverse-pad_start :
    (width : ℕ) (l : List ℕ) → reverse (pad_start width (reverse l)) ≡ l ++ zeros (width - length l)
unfolding pad_start
reverse-pad_start width l = rw (length-reverse l) (
    reverse-append (zeros (width - length l)) (reverse l)
    ∙ ap₂ (λ (x y : List ℕ). x ++ y) (reverse-reverse l) (reverse-zeros (width - length l)))

value-replicate : (k : ℕ) → value 2 (replicate k 0) ≡ 0
value-replicate zero = refl
value-replicate (suc k) = omega (arith, value-replicate k)

replicate-IsBit : (k : ℕ) → All IsBit (replicate k 0)
replicate-IsBit zero = tt
replicate-IsBit (suc k) = (omega arith, replicate-IsBit k)

-- The digits of `toString(2)`, the least significant first: 0 has one digit.
lowest_first : ℕ → List ℕ
lowest_first n = if n == 0 then 0 ∷ [] else low_digits n n

to_string_2-reverse : (n : ℕ) → to_string_2 n ≡ reverse (lowest_first n)
unfolding to_string_2 lowest_first
to_string_2-reverse n = elim (Bool-cases (n == 0)) [
  | inl done ↦ rw done
  | inr more ↦ rw more (digits-reverse n n [] ∙ append-nil (reverse (low_digits n n)))
]

value-lowest_first : (n : ℕ) → value 2 (lowest_first n) ≡ n
unfolding lowest_first
value-lowest_first n = ground (arith, value-low_digits n n)

lowest_first-IsBit : (n : ℕ) → All IsBit (lowest_first n)
unfolding lowest_first
lowest_first-IsBit n = ground (arith, low_digits-IsBit n n)

length-lowest_first : (k n : ℕ) → n < 2 ^ suc k → length (lowest_first n) ≤ suc k
unfolding lowest_first
length-lowest_first k n h = ground (arith, length-low_digits (suc k) n n)

-- The bits of one element, from the least significant to the width.
bits : ℕ → ℕ → List ℕ
bits width n = lowest_first n ++ replicate (width - length (lowest_first n)) 0

element_bytes_lem : (width n : ℕ) → element_bytes width n ≡ bits_to_bytes (bits width n)
unfolding element_bytes bits
element_bytes_lem width n = ap bits_to_bytes (
    ap (λ (l : List ℕ). reverse (pad_start width l)) (to_string_2-reverse n)
    ∙ reverse-pad_start width (lowest_first n))

-- What one element gives: its little-endian bytes, an eighth of the width in number.
module _ (w n : ℕ) (fits : n < 2 ^ suc w) where
  pub value-element_bytes : value 256 (element_bytes (suc w) n) ≡ n
  unfolding bits
  value-element_bytes =
      rw (element_bytes_lem, value-bits_to_bytes, value-append, value-replicate)
        (omega (arith, value-lowest_first n))

  pub length-element_bytes : length (element_bytes (suc w) n) ≡ (suc w + 7) / 8
  unfolding bits
  length-element_bytes =
      rw (element_bytes_lem, length-bits_to_bytes)
        (omega (
          arith,
          length-append (lowest_first n) (zeros (suc w - length (lowest_first n))),
          length-replicate {A = ℕ} (suc w - length (lowest_first n)) 0,
          length-lowest_first w n fits,
        ))

  pub element_bytes-IsByte : All IsByte (element_bytes (suc w) n)
  unfolding bits
  element_bytes-IsByte = rw element_bytes_lem (
      bits_to_bytes-IsByte (bits (suc w) n)
        (All-append IsBit (lowest_first n) _ (lowest_first-IsBit n) (replicate-IsBit _)))
