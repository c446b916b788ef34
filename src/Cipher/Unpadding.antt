-- ===== src/Cipher/Unpadding.antt =====
-- A message that passes the test for padding is a shorter message that has been padded.
use zeto.Base.{
  ◌⊎◌, inl, inr, ℕ, ◌+◌, ◌≤◌, ◌≡◌, refl, ◌∙◌, some, none, List, [], ◌∷◌, ◌++◌, ok, Option, length,
  get_last?, get_last?-append, take, drop, take-append-drop, length-take, length-drop, replicate,
  arith,
}
use zeto.Base.Int.{ℤ, pos, eq_of_int_eq}
use zeto.Cipher.{pad, check_padding, check_equal, second_to_last?}
use zeto.Cipher.Values.{Error, last_not_zero, second_to_last_not_zero}
use zeto.Cipher.Padding.{missing, pad-append, second_to_last?-append}

pub check_equal_sound : (o : Option ℤ) (b : ℤ) (e : Error) → check_equal o b e ≡ ok tt → o ≡ some b
unfolding check_equal
check_equal_sound none b e h = cc
check_equal_sound (some a) b e h = ground (arith, eq_of_int_eq a b)

-- A message of three or more elements whose missing ones are zeros.
tail_of_one :
    (xs ys : List ℤ) → length ys ≡ 1 → get_last? (xs ++ ys) ≡ some (pos 0) → ys ≡ pos 0 ∷ []
tail_of_one xs [] n e = absurd (omega arith)
tail_of_one xs (y ∷ []) n e = ground (arith, get_last?-append xs y [])
tail_of_one xs (y ∷ z ∷ ys) n e = absurd (omega arith)

tail_of_two :
    (xs ys : List ℤ)
    → length ys ≡ 2
    → get_last? (xs ++ ys) ≡ some (pos 0)
    → second_to_last? (xs ++ ys) ≡ some (pos 0)
    → ys ≡ pos 0 ∷ pos 0 ∷ []
tail_of_two xs [] n e f = absurd (omega arith)
tail_of_two xs (y ∷ []) n e f = absurd (omega arith)
tail_of_two xs (y ∷ z ∷ []) n e f =
    ground (arith, get_last?-append xs y (z ∷ []), second_to_last?-append xs y z)
tail_of_two xs (y ∷ z ∷ w ∷ ys) n e f = absurd (omega arith)

tail_of_none : (ys : List ℤ) → length ys ≡ 0 → ys ≡ []
tail_of_none [] n = refl
tail_of_none (y ∷ ys) n = absurd (omega arith)

missing_cases : (l : ℕ) → (missing l ≡ 0) ⊎ (missing l ≡ 1) ⊎ (missing l ≡ 2)
missing_cases l = grind arith

module _ (l : ℕ) (ms : List ℤ) (full : length ms ≡ l + missing l) (long : 3 ≤ l)
    (passed : check_padding l ms ≡ ok tt) where
  last_of_padding : 1 ≤ missing l → get_last? ms ≡ some (pos 0)
  unfolding check_padding
  last_of_padding h = ground (
    arith,
    check_equal_sound (get_last? ms) (pos 0) last_not_zero,
    check_equal_sound (second_to_last? ms) (pos 0) second_to_last_not_zero,
  )

  second_of_padding : 2 ≤ missing l → second_to_last? ms ≡ some (pos 0)
  unfolding check_padding
  second_of_padding h = ground (
    arith,
    check_equal_sound (get_last? ms) (pos 0) last_not_zero,
    check_equal_sound (second_to_last? ms) (pos 0) second_to_last_not_zero,
  )

  missing_here : length (drop l ms) ≡ missing l
  missing_here = omega (arith, length-drop l ms)

  parts : take l ms ++ drop l ms ≡ ms
  parts = take-append-drop l ms

  zeros : drop l ms ≡ replicate (missing l) (pos 0)
  zeros = elim (missing_cases l) [
    | inl e ↦ rw e (tail_of_none (drop l ms) (missing_here ∙ e))
    | inr (inl e) ↦ rw e (
        tail_of_one (take l ms) (drop l ms) (missing_here ∙ e)
          (rw parts (last_of_padding (omega arith))))
    | inr (inr e) ↦ rw e (
        tail_of_two (take l ms) (drop l ms) (missing_here ∙ e)
          (rw parts (last_of_padding (omega arith))) (rw parts (second_of_padding (omega arith))))
  ]

  pub length-take_message : length (take l ms) ≡ l
  length-take_message = omega (arith, length-take l ms)

  pub pad-take : pad (take l ms) ≡ ms
  pad-take = pad-append (take l ms) ∙ (rw (length-take_message, ← zeros) parts)
