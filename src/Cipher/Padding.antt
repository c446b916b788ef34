-- ===== src/Cipher/Padding.antt =====
-- How `poseidonEncrypt` fills a message up with zeros, and how `poseidonDecrypt` tests that.
use mathlib.Core.List.{map-append}
use zeto.Base.{
  ℕ, ◌+◌, ◌-◌, ◌%◌, ◌≡◌, refl, ap, ◌∙◌, some, List, [], ◌∷◌, ◌++◌, map, ok, length, get_last?, take,
  replicate, length-append, length-replicate, length-map, take-append_self, get_last?-append, arith,
}
use zeto.Base.Int.{ℤ, pos}
use zeto.Field.Laws.{residue}
use zeto.Cipher.{pad, check_padding, second_to_last?}

-- What decryption gives back for an integer.
abbrev pub canonical : ℤ → ℤ
canonical a = pos (residue a)

abbrev pub missing : ℕ → ℕ
missing l = (3 - l % 3) % 3

pub pad-append : (m : List ℤ) → pad m ≡ m ++ replicate (missing (length m)) (pos 0)
unfolding pad
pad-append [] = refl
pad-append (a ∷ []) = refl
pad-append (a ∷ b ∷ []) = refl
pad-append (a ∷ b ∷ c ∷ m) =
    ap (λ (l : List ℤ). a ∷ b ∷ c ∷ l) (pad-append m)
    ∙ ap (λ (n : ℕ). a ∷ b ∷ c ∷ (m ++ replicate n (pos 0))) (omega arith)

pub length-pad : (m : List ℤ) → length (pad m) ≡ length m + missing (length m)
length-pad m = rw pad-append (
    omega (
      arith,
      length-append m (replicate (missing (length m)) (pos 0)),
      length-replicate (missing (length m)) (pos 0),
    ))

pub second_to_last?-append : (xs : List ℤ) (a b : ℤ) → second_to_last? (xs ++ a ∷ b ∷ []) ≡ some a
unfolding second_to_last?
second_to_last?-append [] a b = refl
second_to_last?-append (x ∷ []) a b = refl
second_to_last?-append (x ∷ y ∷ []) a b = refl
second_to_last?-append (x ∷ y ∷ z ∷ xs) a b = second_to_last?-append (y ∷ z ∷ xs) a b

module _ (m : List ℤ) where
  canonical-pad :
      (n : ℕ)
      → missing (length m) ≡ n
      → map canonical (pad m) ≡ map canonical m ++ map canonical (replicate n (pos 0))
  canonical-pad n e = rw (pad-append, e) (map-append canonical m (replicate n (pos 0)))

  last_of_two : length m % 3 ≡ 2 → get_last? (map canonical (pad m)) ≡ some (pos 0)
  last_of_two e = rw (canonical-pad 1 (omega arith)) (get_last?-append (map canonical m) (pos 0) [])

  last_of_one : length m % 3 ≡ 1 → get_last? (map canonical (pad m)) ≡ some (pos 0)
  last_of_one e =
      rw (canonical-pad 2 (omega arith)) (get_last?-append (map canonical m) (pos 0) (pos 0 ∷ []))

  second_to_last_of_one : length m % 3 ≡ 1 → second_to_last? (map canonical (pad m)) ≡ some (pos 0)
  second_to_last_of_one e =
      rw (canonical-pad 2 (omega arith)) (second_to_last?-append (map canonical m) (pos 0) (pos 0))

  -- The message that encryption has padded passes the test of decryption.
  pub check_padding-pad : check_padding (length m) (map canonical (pad m)) ≡ ok tt
  unfolding check_padding
  check_padding-pad = ground (arith, last_of_two, last_of_one, second_to_last_of_one)

  pub take-pad : take (length m) (map canonical (pad m)) ≡ map canonical m
  take-pad = rw (canonical-pad _ refl) (
      rw (length-map canonical m) at (
        take-append_self (map canonical m)
          (map canonical (replicate (missing (length m)) (pos 0)))))
