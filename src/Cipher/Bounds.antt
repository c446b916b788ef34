-- ===== src/Cipher/Bounds.antt =====
-- The shape of a ciphertext.
use zeto.Base.{
  ◌+◌, ◌*◌, ◌/◌, ◌≡◌, refl, List, [], ◌∷◌, ◌++◌, map, ok, length, length-append, All, All-append,
  arith,
}
use zeto.Base.Int.{ℤ}
use zeto.Field.Laws.{IsElement, add_mod-IsElement}
use zeto.Cipher.{State, pad, absorb, initial, encrypt_rounds, encrypt_inputs, poseidon_encrypt}
use zeto.Cipher.Checks.{poseidon_encrypt_of_bigints}
use zeto.Cipher.Values.{bigint, array}
use zeto.Cipher.Padding.{length-pad}

module _ (poseidon : State → State) where
  length-encrypt_rounds :
      (m : List ℤ) (s : State) → length (encrypt_rounds poseidon (pad m) s).0 ≡ length (pad m)
  unfolding encrypt_rounds pad
  length-encrypt_rounds [] s = refl
  length-encrypt_rounds (a ∷ []) s = refl
  length-encrypt_rounds (a ∷ b ∷ []) s = refl
  length-encrypt_rounds (a ∷ b ∷ c ∷ m) s =
      omega (arith, length-encrypt_rounds m (absorb poseidon a b c (poseidon s)))

  encrypt_rounds-IsElement :
      (m : List ℤ) (s : State) → All IsElement (encrypt_rounds poseidon m s).0
  unfolding encrypt_rounds absorb
  encrypt_rounds-IsElement [] s = tt
  encrypt_rounds-IsElement (a ∷ []) s = tt
  encrypt_rounds-IsElement (a ∷ b ∷ []) s = tt
  encrypt_rounds-IsElement (a ∷ b ∷ c ∷ m) s =
      let t = poseidon s in
      (
        add_mod-IsElement a t.s1,
        (
          add_mod-IsElement b t.s2,
          (
            add_mod-IsElement c t.s3,
            encrypt_rounds-IsElement m (absorb poseidon a b c (poseidon s)),
          ),
        ),
      )

  -- Where the permutation gives field elements, a message of l BigInts is encrypted to
  -- 3 * ⌈l / 3⌉ + 1 field elements.
  pub poseidon_encrypt_bounds :
      ((s : State) → IsElement (poseidon s).s1)
      → (m : List ℤ) (k0 k1 nonce : ℤ)
      → (c : List ℤ) × (poseidon_encrypt poseidon
            (array (map bigint m))
            (bigint k0 ∷ bigint k1 ∷ [])
            (bigint nonce)
          ≡ ok c)
        × (length c ≡ 3 * ((length m + 2) / 3) + 1)
        × All IsElement c
  unfolding encrypt_inputs
  poseidon_encrypt_bounds permuted m k0 k1 nonce =
      let s = initial (k0, k1) nonce (length m) in
      let (cs, t) = encrypt_rounds poseidon (pad m) s in
      (
        cs ++ (poseidon t).s1 ∷ [],
        poseidon_encrypt_of_bigints poseidon m k0 k1 nonce,
        omega (
          arith,
          length-append cs ((poseidon t).s1 ∷ []),
          length-encrypt_rounds m s,
          length-pad m,
        ),
        All-append IsElement cs ((poseidon t).s1 ∷ []) (encrypt_rounds-IsElement (pad m) s)
            (permuted t, tt),
      )
