-- ===== src/Cipher/Unique.antt =====
-- What an accepted ciphertext says: the tag is the only one, and the ciphertext is the encryption
-- of what comes out of it.
use zeto.Base.{
  ◌>>◌, ℕ, ◌%◌, ◌≡◌, ◌≢◌, refl, sym, ◌∙◌, List, [], ◌∷◌, ◌++◌, map, Option, some, none, ok, err,
  length, get_last?-append, take, arith,
}
use zeto.Base.Int.{ℤ, pos, eq_of_int_eq}
use zeto.Cipher.{
  State, initial, decrypt_rounds, decrypt_inputs, poseidon_decrypt, check_equal, check_padding,
}
use zeto.Cipher.Checks.{poseidon_decrypt_of_bigints}
use zeto.Cipher.Values.{bigint, array, Error, tag_mismatch}

check_equal_sound :
    (o : Option ℤ) (b : ℤ) (e : Error) (u : Unit {0}) → check_equal o b e ≡ ok u → o ≡ some b
unfolding check_equal
check_equal_sound none b e u h = cc
check_equal_sound (some a) b e u h = ground (arith, eq_of_int_eq a b)

module _ (poseidon : State → State) where
  -- The tag, behind whole threes, takes no part in the rounds.
  decrypt_rounds-tag :
      (cs : List ℤ) (s : State) (tag : ℤ)
      → length cs % 3 ≡ 0
      → decrypt_rounds poseidon (cs ++ tag ∷ []) s ≡ decrypt_rounds poseidon cs s
  unfolding decrypt_rounds
  decrypt_rounds-tag [] s tag h = refl
  decrypt_rounds-tag (a ∷ []) s tag h = absurd (omega arith)
  decrypt_rounds-tag (a ∷ b ∷ []) s tag h = absurd (omega arith)
  decrypt_rounds-tag (a ∷ b ∷ c ∷ cs) s tag h =
      let t = poseidon s in
      rw (decrypt_rounds-tag cs (record t { s1 = a; s2 = b; s3 = c }) tag (omega arith))

  decrypt_inputs-tag :
      (cs : List ℤ) (tag : ℤ) (key : ℤ × ℤ) (nonce : ℤ) (l : ℕ)
      → length cs % 3 ≡ 0
      → let (ms, s) = decrypt_rounds poseidon cs (initial key nonce l) in
        decrypt_inputs poseidon (record { message = cs ++ tag ∷ []; key = key; nonce = nonce }) l
        ≡ (check_padding l ms
            >> check_equal (some tag) (poseidon s).s1 tag_mismatch
            >> ok (take l ms))
  unfolding decrypt_inputs
  decrypt_inputs-tag cs tag key nonce l h =
      rw (decrypt_rounds-tag cs (initial key nonce l) tag h, get_last?-append cs tag [])

  -- What has been tested when a message is returned.
  pub decrypt_inputs_sound :
      (cs : List ℤ) (tag : ℤ) (key : ℤ × ℤ) (nonce : ℤ) (l : ℕ) (m : List ℤ)
      → length cs % 3 ≡ 0
      → decrypt_inputs poseidon (record { message = cs ++ tag ∷ []; key = key; nonce = nonce }) l
        ≡ ok m
      → let (ms, s) = decrypt_rounds poseidon cs (initial key nonce l) in
        (check_padding l ms ≡ ok tt) × (tag ≡ (poseidon s).s1) × (take l ms ≡ m)
  unfolding check_equal
  decrypt_inputs_sound cs tag key nonce l m h e =
      let (ms, s) = decrypt_rounds poseidon cs (initial key nonce l) in
      ground (arith, decrypt_inputs-tag cs tag key nonce l h, eq_of_int_eq tag (poseidon s).s1)

  -- Of two different tags behind the same body, of whole threes, at most one is accepted: the other
  -- is reported as a mismatch.
  pub forged_tag_refused :
      (cs : List ℤ) (k0 k1 nonce : ℤ) (l : ℕ) (a b : ℤ) {m : List ℤ}
      → length cs % 3 ≡ 0
      → poseidon_decrypt poseidon
          (array (map bigint (cs ++ a ∷ [])))
          (bigint k0 ∷ bigint k1 ∷ [])
          (bigint nonce)
          (pos l)
        ≡ ok m
      → a ≢ b
      → poseidon_decrypt poseidon
          (array (map bigint (cs ++ b ∷ [])))
          (bigint k0 ∷ bigint k1 ∷ [])
          (bigint nonce)
          (pos l)
        ≡ err tag_mismatch
  unfolding check_equal
  forged_tag_refused cs k0 k1 nonce l a b {m} h e ne =
      let (ms, s) = decrypt_rounds poseidon cs (initial (k0, k1) nonce l) in
      let (padded, tagged, _) =
        decrypt_inputs_sound cs a (k0, k1) nonce l m h
          (sym (poseidon_decrypt_of_bigints poseidon (cs ++ a ∷ []) k0 k1 nonce l) ∙ e) in
      rw (poseidon_decrypt_of_bigints poseidon (cs ++ b ∷ []) k0 k1 nonce l) (
        rw (decrypt_inputs-tag cs b (k0, k1) nonce l h, padded)
          (ground (arith, eq_of_int_eq b (poseidon s).s1)))
