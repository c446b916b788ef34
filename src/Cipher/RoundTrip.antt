-- ===== src/Cipher/RoundTrip.antt =====
-- Decryption undoes encryption, whatever the permutation.
use zeto.Base.{◌≡◌, refl, List, [], ◌∷◌, ◌++◌, map, ok, length, get_last?-append, ◌>>=◌}
use zeto.Base.Int.{ℤ, pos, int_eq_refl}
use zeto.Field.Laws.{add_mod-add_mod-neg}
use zeto.Cipher.{
  State, pad, absorb, initial, encrypt_rounds, decrypt_rounds, encrypt_inputs, decrypt_inputs,
  poseidon_encrypt, poseidon_decrypt, check_equal,
}
use zeto.Cipher.Values.{bigint, array, Inputs}
use zeto.Cipher.Checks.{poseidon_encrypt_of_bigints, poseidon_decrypt_of_bigints}
use zeto.Cipher.Padding.{canonical, check_padding-pad, take-pad}

module _ (poseidon : State → State) where
  -- The rounds of decryption, with the tag behind the ciphertext of the rounds of encryption.
  decrypt_rounds-encrypt_rounds :
      (m : List ℤ) (s : State) (tag : ℤ)
      → let (cs, t) = encrypt_rounds poseidon (pad m) s in
        decrypt_rounds poseidon (cs ++ tag ∷ []) s ≡ (map canonical (pad m), t)
  unfolding pad encrypt_rounds decrypt_rounds
  decrypt_rounds-encrypt_rounds [] s tag = refl
  decrypt_rounds-encrypt_rounds (a ∷ []) s tag = simp add_mod-add_mod-neg
  decrypt_rounds-encrypt_rounds (a ∷ b ∷ []) s tag = simp add_mod-add_mod-neg
  decrypt_rounds-encrypt_rounds (a ∷ b ∷ c ∷ m) s tag = simp (
    add_mod-add_mod-neg,
    decrypt_rounds-encrypt_rounds m (absorb poseidon a b c (poseidon s)) tag,
  )

  decrypt_inputs-encrypt_inputs :
      (i : Inputs)
      → decrypt_inputs poseidon
          (record i { message = encrypt_inputs poseidon i })
          (length i.message)
        ≡ ok (map canonical i.message)
  unfolding decrypt_inputs encrypt_inputs check_equal
  decrypt_inputs-encrypt_inputs i =
      let s = initial i.key i.nonce (length i.message) in
      let t = (encrypt_rounds poseidon (pad i.message) s).1 in
      rw (
        decrypt_rounds-encrypt_rounds i.message s (poseidon t).s1,
        check_padding-pad i.message,
        get_last?-append (encrypt_rounds poseidon (pad i.message) s).0 (poseidon t).s1 [],
        int_eq_refl (poseidon t).s1,
        take-pad i.message,
      )

  -- A message of any integers, encrypted and decrypted with one key and one nonce, comes back as
  -- its representatives in the field: itself, if its elements are field elements.
  pub poseidon_decrypt-poseidon_encrypt :
      (m : List ℤ) (k0 k1 nonce : ℤ)
      → let key = bigint k0 ∷ bigint k1 ∷ [] in
        (poseidon_encrypt poseidon (array (map bigint m)) key (bigint nonce) >>= λ c.
        poseidon_decrypt poseidon (array (map bigint c)) key (bigint nonce) (pos (length m)))
        ≡ ok (map canonical m)
  poseidon_decrypt-poseidon_encrypt m k0 k1 nonce =
      let i : Inputs = record { message = m; key = (k0, k1); nonce = nonce } in
      rw
        (
          poseidon_encrypt_of_bigints poseidon m k0 k1 nonce,
          poseidon_decrypt_of_bigints poseidon (encrypt_inputs poseidon i) k0 k1 nonce (length m),
        )
        (decrypt_inputs-encrypt_inputs i)
