-- ===== src/Cipher/Tests.antt =====
-- The cipher run with a permutation that stirs and adds, and its theorems at that permutation.
use zeto.Base.{
  ℕ, ◌≡◌, ◌↔◌, refl, List, [], ◌∷◌, map, ok, err, some, ◌>>=◌, arith, length, All, ◌++◌, ◌+◌, ◌*◌,
  ◌/◌,
}
use zeto.Base.Int.{ℤ, pos, negsuc, ◌+ℤ◌, neg}
use zeto.Field.{add_mod}
use zeto.Field.Laws.{IsElement, add_mod-IsElement}
use zeto.Cipher.Padding.{canonical}
use zeto.Cipher.RoundTrip.{poseidon_decrypt-poseidon_encrypt}
use zeto.Cipher.Unique.{forged_tag_refused}
use zeto.Cipher.Start.{initial-injective}
use zeto.Cipher.Bounds.{poseidon_encrypt_bounds}
use zeto.Cipher.Inverse.{poseidon_encrypt-poseidon_decrypt}
use zeto.Cipher.Checks.{AreInputs, validate_inputs_iff}
use zeto.Cipher.{
  State, initial, encrypt_rounds, decrypt_rounds, encrypt_inputs, decrypt_inputs, poseidon_encrypt,
  poseidon_decrypt, validate_inputs, check_padding, pad,
}
use zeto.Cipher.Values.{Value, bigint, array, tag_mismatch, last_not_zero, length_below_one}

abbrev stir : State → State
stir s = record {
  s0 = add_mod s.s3 (pos 1);
  s1 = add_mod s.s0 (pos 7);
  s2 = add_mod s.s1 s.s3;
  s3 = add_mod s.s2 (pos 3);
}

abbrev key : List Value
key = bigint (pos 11) ∷ bigint (pos 12) ∷ []

abbrev sample : List ℤ
sample = pos 100 ∷ negsuc 0 ∷ pos 300 ∷ pos 400 ∷ []

abbrev body : List ℤ
body =
    pos 107
    ∷ pos 1361129467683753853853498429727072845839
    ∷ pos 315
    ∷ pos 1361129467683753853853498429727072846237
    ∷ pos 422
    ∷ pos 1361129467683753853853498429727072845842
    ∷ []

encrypted :
    poseidon_encrypt stir (array (map bigint sample)) key (bigint (pos 5))
    ≡ ok (body ++ pos 323 ∷ [])
unfolding poseidon_encrypt encrypt_inputs encrypt_rounds pad initial validate_inputs add_mod ◌+ℤ◌
encrypted = refl

decrypted :
    poseidon_decrypt stir (array (map bigint (body ++ pos 323 ∷ []))) key (bigint (pos 5)) (pos 4)
    ≡ ok (map canonical sample)
unfolding poseidon_decrypt decrypt_inputs decrypt_rounds initial validate_inputs add_mod
    check_padding ◌+ℤ◌ neg
decrypted = refl

-- A message may also have no element, and a length of 0 is accepted.
decrypted_empty :
    poseidon_decrypt stir (array (bigint (pos 7) ∷ [])) key (bigint (pos 5)) (pos 0) ≡ ok []
unfolding poseidon_decrypt decrypt_inputs decrypt_rounds initial validate_inputs add_mod
    check_padding ◌+ℤ◌
decrypted_empty = refl

refused_length :
    poseidon_decrypt stir (array []) key (bigint (pos 5)) (negsuc 0) ≡ err length_below_one
unfolding poseidon_decrypt validate_inputs
refused_length = refl

-- A message of five elements is read from six, and the sixth has to be zero.
refused_padding :
    poseidon_decrypt stir
      (array (map bigint (pos 107 ∷ pos 0 ∷ pos 0 ∷ pos 0 ∷ pos 0 ∷ pos 0 ∷ pos 0 ∷ [])))
      key
      (bigint (pos 5))
      (pos 5)
    ≡ err last_not_zero
unfolding poseidon_decrypt decrypt_inputs decrypt_rounds initial validate_inputs add_mod
    check_padding ◌+ℤ◌ neg
refused_padding = refl

poseidon_decrypt-poseidon_encrypt_example :
    (poseidon_encrypt stir (array (map bigint sample)) key (bigint (pos 5)) >>= λ c.
    poseidon_decrypt stir (array (map bigint c)) key (bigint (pos 5)) (pos 4))
    ≡ ok (map canonical sample)
poseidon_decrypt-poseidon_encrypt_example =
    poseidon_decrypt-poseidon_encrypt stir sample (pos 11) (pos 12) (pos 5)

forged_tag_refused_example :
    poseidon_decrypt stir (array (map bigint (body ++ pos 324 ∷ []))) key (bigint (pos 5)) (pos 4)
    ≡ err tag_mismatch
forged_tag_refused_example =
    forged_tag_refused stir body (pos 11) (pos 12) (pos 5) 4 (pos 323) (pos 324) (omega arith)
      decrypted (λ e. ground arith)

poseidon_encrypt-poseidon_decrypt_example :
    (length (map canonical sample) ≡ 4)
    × (poseidon_encrypt stir (array (map bigint (map canonical sample))) key (bigint (pos 5))
        ≡ ok (body ++ pos 323 ∷ []))
poseidon_encrypt-poseidon_decrypt_example =
    poseidon_encrypt-poseidon_decrypt stir body (pos 323) (pos 11) (pos 12) (pos 5) 4 (omega arith)
      (omega arith) (omega arith) decrypted

stir-IsElement : (s : State) → IsElement (stir s).s1
stir-IsElement s = add_mod-IsElement s.s0 (pos 7)

poseidon_encrypt_bounds_example :
    (c : List ℤ) × (poseidon_encrypt stir (array (map bigint sample)) key (bigint (pos 5)) ≡ ok c)
    × (length c ≡ 3 * ((length sample + 2) / 3) + 1)
    × All IsElement c
poseidon_encrypt_bounds_example =
    poseidon_encrypt_bounds stir stir-IsElement sample (pos 11) (pos 12) (pos 5)

validate_inputs_iff_example :
    (validate_inputs (array (map bigint sample)) key (bigint (pos 5)) (some (pos 0))
      ≡ ok (record { message = sample; key = (pos 11, pos 12); nonce = pos 5 }))
    ↔ AreInputs
        (array (map bigint sample))
        key
        (bigint (pos 5))
        (some (pos 0))
        (record { message = sample; key = (pos 11, pos 12); nonce = pos 5 })
validate_inputs_iff_example =
    validate_inputs_iff (array (map bigint sample)) key (bigint (pos 5)) (some (pos 0))
      (record { message = sample; key = (pos 11, pos 12); nonce = pos 5 })

initial-injective_example :
    (◌≡◌ {A = ℤ × ℤ} (pos 1, pos 2) (pos 1, pos 2)) × (◌≡◌ {A = ℕ} 7 7) × (◌≡◌ {A = ℕ} 4 4)
initial-injective_example =
    initial-injective (pos 1, pos 2) (pos 1, pos 2) 7 7 4 4 (omega arith) (omega arith) refl
