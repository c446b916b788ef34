-- ===== src/Cipher.antt =====
-- The Poseidon cipher of zkp/js/lib/util.js: `poseidonEncrypt`, `poseidonDecrypt` and their checks.
-- The permutation `poseidon` is a package's (poseidon-lite), and so a parameter. A JavaScript value
-- is a BigInt or of another type; an array that is indexed past its end gives `undefined`, `none`.
pub mod Values
pub mod Padding
pub mod Checks
mod Unpadding
mod Tests
pub mod RoundTrip
pub mod Unique
pub mod Bounds
pub mod Start
pub mod Inverse
use zeto.Base.{
  ℕ, zero, suc, ◌*◌, ◌/◌, ◌%◌, ◌≡◌, Bool, true, false, ◌&&◌, not, Option, none, some, List, [], ◌∷◌,
  ◌++◌, Result, ok, err, ◌>>=◌, ◌>>◌, length, get_elem?, get_last?, take, ltb, ◌==◌, if◌then◌else◌,
}
use zeto.Base.Int.{ℤ, pos, negsuc, ◌+ℤ◌, neg, int_eq, pos_part}
use zeto.Cipher.Values.{
  Value, bigint, other, Message, array, not_array, Error, not_an_array, not_bigint, key_length,
  key_not_bigint, nonce_not_bigint, length_below_one, last_not_zero, second_to_last_not_zero,
  tag_mismatch, Inputs,
}
use zeto.Field.{two128, add_mod}

-- The four BigInts of the sponge.
pub record State : Type 0 where
  pub s0 : ℤ
  pub s1 : ℤ
  pub s2 : ℤ
  pub s3 : ℤ

-- The loop over `msg`: each element has to be a BigInt.
elements : List Value → Result Error (List ℤ)
elements [] = ok []
elements (bigint a ∷ vs) = do bs ← elements vs; ok (a ∷ bs)
elements (other ∷ vs) = err not_bigint

message_of : Message → Result Error (List ℤ)
unfolding elements
message_of (array vs) = elements vs
message_of not_array = err not_an_array

key_of : List Value → Result Error (ℤ × ℤ)
key_of (bigint a ∷ bigint b ∷ []) = ok (a, b)
key_of (bigint a ∷ other ∷ []) = err key_not_bigint
key_of (other ∷ b ∷ []) = err key_not_bigint
key_of vs = err key_length

nonce_of : Value → Result Error ℤ
nonce_of (bigint a) = ok a
nonce_of other = err nonce_not_bigint

-- `length && length < 1`: neither `undefined` nor 0 is refused.
check_length : Option ℤ → Result Error (Unit {0})
check_length (some (negsuc n)) = err length_below_one
check_length _ = ok tt

-- `validateInputs`, in the order of its tests. What has passed them is given back at its type.
pub validate_inputs : Message → List Value → Value → Option ℤ → Result Error Inputs
unfolding message_of key_of nonce_of check_length
validate_inputs msg key nonce length = do
  m ← message_of msg
  k ← key_of key
  n ← nonce_of nonce
  check_length length
  ok (record { message = m; key = k; nonce = n })

-- S = (0, kS[0], kS[1], N + l * 2^128)
pub initial : ℤ × ℤ → ℤ → ℕ → State
initial (k0, k1) nonce l = record { s0 = pos 0; s1 = k0; s2 = k1; s3 = nonce +ℤ pos (l * two128) }

-- `while (message.length % 3 > 0) message.push(0n)`: the message read in threes, so that the
-- last three are filled up.
pub pad : List ℤ → List ℤ
pad [] = []
pad (a ∷ []) = a ∷ pos 0 ∷ pos 0 ∷ []
pad (a ∷ b ∷ []) = a ∷ b ∷ pos 0 ∷ []
pad (a ∷ b ∷ c ∷ rest) = a ∷ b ∷ c ∷ pad rest

-- `checkEqual`, where the first value may be `undefined`.
pub check_equal : Option ℤ → ℤ → Error → Result Error (Unit {0})
check_equal none b e = err e
check_equal (some a) b e = if int_eq a b then ok tt else err e

-- `message[message.length - 2]`
pub second_to_last? : List ℤ → Option ℤ
second_to_last? [] = none
second_to_last? (a ∷ []) = none
second_to_last? (a ∷ b ∷ []) = some a
second_to_last? (a ∷ b ∷ c ∷ rest) = second_to_last? (b ∷ c ∷ rest)

-- The test of the elements that padding has added.
pub check_padding : ℕ → List ℤ → Result Error (Unit {0})
unfolding check_equal second_to_last?
check_padding l message =
    if ltb 3 l
    then (if l % 3 == 2
        then check_equal (get_last? message) (pos 0) last_not_zero
        else if l % 3 == 1
        then (check_equal (get_last? message) (pos 0) last_not_zero
            >> check_equal (second_to_last? message) (pos 0) second_to_last_not_zero)
        else ok tt)
    else ok tt

module _ (poseidon : State → State) where
  -- One round of `poseidonEncrypt` on the state that has been permuted.
  pub absorb : ℤ → ℤ → ℤ → State → State
  absorb a b c s = record s { s1 = add_mod a s.s1; s2 = add_mod b s.s2; s3 = add_mod c s.s3 }

  -- The loop of `poseidonEncrypt`: the ciphertext of the rounds, and the state after them.
  pub encrypt_rounds : List ℤ → State → List ℤ × State
  unfolding absorb
  encrypt_rounds (a ∷ b ∷ c ∷ rest) s =
      let t = absorb a b c (poseidon s) in
      let (cs, u) = encrypt_rounds rest t in (t.s1 ∷ t.s2 ∷ t.s3 ∷ cs, u)
  encrypt_rounds _ s = ([], s)

  pub encrypt_inputs : Inputs → List ℤ
  encrypt_inputs i =
      let (cs, s) = encrypt_rounds (pad i.message) (initial i.key i.nonce (length i.message)) in
      cs ++ (poseidon s).s1 ∷ []

  -- `poseidonEncrypt`
  pub poseidon_encrypt : Message → List Value → Value → Result Error (List ℤ)
  poseidon_encrypt msg key nonce = do
    inputs ← validate_inputs msg key nonce none
    ok (encrypt_inputs inputs)

  -- The loop of `poseidonDecrypt`, over the whole threes of the ciphertext.
  pub decrypt_rounds : List ℤ → State → List ℤ × State
  decrypt_rounds (a ∷ b ∷ c ∷ rest) s =
      let t = poseidon s in
      let (ms, u) = decrypt_rounds rest (record t { s1 = a; s2 = b; s3 = c }) in
      (add_mod a (neg t.s1) ∷ add_mod b (neg t.s2) ∷ add_mod c (neg t.s3) ∷ ms, u)
  decrypt_rounds _ s = ([], s)

  pub decrypt_inputs : Inputs → ℕ → Result Error (List ℤ)
  decrypt_inputs i l =
      let (message, s) = decrypt_rounds i.message (initial i.key i.nonce l) in
      check_padding l message
      >> check_equal (get_last? i.message) (poseidon s).s1 tag_mismatch
      >> ok (take l message)

  -- `poseidonDecrypt`. Past the checks the length is not negative.
  pub poseidon_decrypt : Message → List Value → Value → ℤ → Result Error (List ℤ)
  poseidon_decrypt ciphertext key nonce length = do
    inputs ← validate_inputs ciphertext key nonce (some length)
    decrypt_inputs inputs (pos_part length)
