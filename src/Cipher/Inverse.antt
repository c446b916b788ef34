-- ===== src/Cipher/Inverse.antt =====
-- Encryption undoes decryption: an accepted ciphertext is the only one for its message.
use zeto.Base.{
  ℕ, ◌+◌, ◌%◌, ◌≤◌, ◌≡◌, refl, sym, ap, ◌∙◌, List, [], ◌∷◌, ◌++◌, map, ok, length, All, arith,
}
use zeto.Base.Int.{ℤ, pos, negsuc, neg}
use zeto.Field.{add_mod}
use zeto.Field.Laws.{IsElement, add_mod-neg-add_mod}
use zeto.Cipher.{
  State, pad, initial, encrypt_rounds, decrypt_rounds, encrypt_inputs, poseidon_encrypt,
  poseidon_decrypt,
}
use zeto.Cipher.Checks.{poseidon_encrypt_of_bigints, poseidon_decrypt_of_bigints}
use zeto.Cipher.Values.{bigint, array}
use zeto.Cipher.Padding.{canonical, missing}
use zeto.Cipher.Unpadding.{pad-take, length-take_message}
use zeto.Cipher.Unique.{decrypt_inputs_sound}

canonical-IsElement : (a : ℤ) → IsElement a → canonical a ≡ a
canonical-IsElement (pos n) h = ap pos (omega arith)
canonical-IsElement (negsuc n) h = absurd h

-- Adding back what decryption has subtracted.
restore : (c s : ℤ) → IsElement c → add_mod (add_mod c (neg s)) s ≡ c
restore c s h = add_mod-neg-add_mod c s ∙ canonical-IsElement c h

module _ (poseidon : State → State) where
  length-decrypt_rounds :
      (cs : List ℤ) (s : State)
      → length cs % 3 ≡ 0
      → length (decrypt_rounds poseidon cs s).0 ≡ length cs
  unfolding decrypt_rounds
  length-decrypt_rounds [] s h = refl
  length-decrypt_rounds (a ∷ []) s h = absurd (omega arith)
  length-decrypt_rounds (a ∷ b ∷ []) s h = absurd (omega arith)
  length-decrypt_rounds (a ∷ b ∷ c ∷ cs) s h = omega (
    arith,
    length-decrypt_rounds cs (record (poseidon s) { s1 = a; s2 = b; s3 = c }) (omega arith),
  )

  encrypt_rounds-decrypt_rounds :
      (cs : List ℤ) (s : State)
      → length cs % 3 ≡ 0
      → All IsElement cs
      → let (ms, t) = decrypt_rounds poseidon cs s in encrypt_rounds poseidon ms s ≡ (cs, t)
  unfolding decrypt_rounds encrypt_rounds
  encrypt_rounds-decrypt_rounds [] s h e = refl
  encrypt_rounds-decrypt_rounds (a ∷ []) s h e = absurd (omega arith)
  encrypt_rounds-decrypt_rounds (a ∷ b ∷ []) s h e = absurd (omega arith)
  encrypt_rounds-decrypt_rounds (a ∷ b ∷ c ∷ cs) s h (ea, (eb, (ec, e))) =
      let t = poseidon s in
      rw (
        restore a t.s1 ea,
        restore b t.s2 eb,
        restore c t.s3 ec,
        encrypt_rounds-decrypt_rounds cs (record t { s1 = a; s2 = b; s3 = c }) (omega arith) e,
      )

  -- A body of field elements, as long as a message of l ≥ 3 elements needs it, and a tag: if they
  -- are accepted for l, the message that comes out has l elements and encrypts to just them.
  pub poseidon_encrypt-poseidon_decrypt :
      (cs : List ℤ) (tag k0 k1 nonce : ℤ) (l : ℕ) {m : List ℤ}
      → All IsElement cs
      → length cs ≡ l + missing l
      → 3 ≤ l
      → poseidon_decrypt poseidon
          (array (map bigint (cs ++ tag ∷ [])))
          (bigint k0 ∷ bigint k1 ∷ [])
          (bigint nonce)
          (pos l)
        ≡ ok m
      → (length m ≡ l)
        × (poseidon_encrypt poseidon
              (array (map bigint m))
              (bigint k0 ∷ bigint k1 ∷ [])
              (bigint nonce)
            ≡ ok (cs ++ tag ∷ []))
  unfolding encrypt_inputs
  poseidon_encrypt-poseidon_decrypt cs tag k0 k1 nonce l {m} elements full long accepted =
      let whole : length cs % 3 ≡ 0 = omega arith in
      let s = initial (k0, k1) nonce l in
      let ms = (decrypt_rounds poseidon cs s).0 in
      let (padded, tagged, taken) =
        decrypt_inputs_sound poseidon cs tag (k0, k1) nonce l m whole
          (sym (poseidon_decrypt_of_bigints poseidon (cs ++ tag ∷ []) k0 k1 nonce l) ∙ accepted) in
      let room : length ms ≡ l + missing l = length-decrypt_rounds cs s whole ∙ full in
      let size : length m ≡ l = ap length (sym taken) ∙ length-take_message l ms room long padded in
      let filled : pad m ≡ ms = ap pad (sym taken) ∙ pad-take l ms room long padded in
      (
        size,
        rw (poseidon_encrypt_of_bigints poseidon m k0 k1 nonce)
            (ap ok (rw (size, filled, encrypt_rounds-decrypt_rounds cs s whole elements, tagged))),
      )
