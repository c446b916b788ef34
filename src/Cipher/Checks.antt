-- ===== src/Cipher/Checks.antt =====
-- What `validateInputs` lets through.
use zeto.Base.{
  ℕ, ◌≡◌, refl, ◌↔◌, List, [], ◌∷◌, map, Option, some, none, Result, Result-cases, >>=-eq-ok, inl,
  inr, ok, ap, ◌∙◌, arith,
}
use zeto.Base.Int.{ℤ, pos, negsuc}
use zeto.Cipher.{
  State, poseidon_encrypt, poseidon_decrypt, encrypt_inputs, decrypt_inputs, validate_inputs,
  elements, message_of, key_of, nonce_of, check_length,
}
use zeto.Cipher.Values.{Value, bigint, other, Message, array, not_array, Error, Inputs}

elements-map : (m : List ℤ) → elements (map bigint m) ≡ ok m
unfolding elements
elements-map [] = refl
elements-map (a ∷ m) = rw (elements-map m)

elements_sound : (vs : List Value) (m : List ℤ) → elements vs ≡ ok m → vs ≡ map bigint m
unfolding elements
elements_sound [] m h = ground arith
elements_sound (other ∷ vs) m h = cc
elements_sound (bigint a ∷ vs) m h = elim (Result-cases (elements vs)) [
  | inl (bs, e) ↦ ground (arith, elements_sound vs bs)
  | inr (x, e) ↦ ground arith
]

-- A length that is a negative number; `undefined` and 0 are none.
abbrev pub IsNegative : Option ℤ → Type 0
IsNegative (some (negsuc n)) = Unit
IsNegative (some (pos n)) = ⊥
IsNegative none = ⊥

check_length-eq-ok : (length : Option ℤ) → ¬ IsNegative length → check_length length ≡ ok tt
unfolding check_length
check_length-eq-ok (some (negsuc n)) h = absurd (h tt)
check_length-eq-ok (some (pos n)) h = refl
check_length-eq-ok none h = refl

-- What the tests accept.
abbrev pub AreInputs : Message → List Value → Value → Option ℤ → Inputs → Type 0
AreInputs msg key nonce length i =
    (msg ≡ array (map bigint i.message))
    × (key ≡ bigint i.key.0 ∷ bigint i.key.1 ∷ [])
    × (nonce ≡ bigint i.nonce)
    × (¬ IsNegative length)

pub validate_inputs_of_bigints :
    (m : List ℤ) (k0 k1 nonce : ℤ) (length : Option ℤ)
    → ¬ IsNegative length
    → validate_inputs (array (map bigint m)) (bigint k0 ∷ bigint k1 ∷ []) (bigint nonce) length
      ≡ ok (record { message = m; key = (k0, k1); nonce = nonce })
unfolding validate_inputs
validate_inputs_of_bigints m k0 k1 nonce length h = rw (elements-map m, check_length-eq-ok length h)

key_of_sound :
    (key : List Value) (k : ℤ × ℤ) → key_of key ≡ ok k → key ≡ bigint k.0 ∷ bigint k.1 ∷ []
unfolding key_of
key_of_sound (bigint a ∷ bigint b ∷ []) k h = ground arith
key_of_sound (bigint a ∷ other ∷ []) k h = cc
key_of_sound (other ∷ b ∷ []) k h = cc
key_of_sound _ k h = cc

nonce_of_sound : (nonce : Value) (n : ℤ) → nonce_of nonce ≡ ok n → nonce ≡ bigint n
unfolding nonce_of
nonce_of_sound (bigint a) n h = ground arith
nonce_of_sound other n h = cc

check_length_sound :
    (length : Option ℤ) (u : Unit {0}) → check_length length ≡ ok u → ¬ IsNegative length
unfolding check_length
check_length_sound (some (negsuc n)) u h = cc
check_length_sound (some (pos n)) u h = λ x. x
check_length_sound none u h = λ x. x

message_of_sound : (msg : Message) (m : List ℤ) → message_of msg ≡ ok m → msg ≡ array (map bigint m)
unfolding message_of
message_of_sound (array vs) m h = ap array (elements_sound vs m h)
message_of_sound not_array m h = cc

assemble :
    {msg : Message} {key : List Value} {nonce : Value} (m : List ℤ) (k : ℤ × ℤ) (n : ℤ)
    (length : Option ℤ) {i : Inputs}
    → ◌≡◌ {A = Result Error Inputs} (ok (record { message = m; key = k; nonce = n })) (ok i)
    → msg ≡ array (map bigint m)
    → key ≡ bigint k.0 ∷ bigint k.1 ∷ []
    → nonce ≡ bigint n
    → ¬ IsNegative length
    → AreInputs msg key nonce length i
assemble m k n length {i} e hm hk hn hl =
    let fields : (m ≡ i.message) × (k ≡ i.key) × (n ≡ i.nonce) = ground arith in
    (
      hm ∙ ap (λ (x : List ℤ). array (map bigint x)) fields.0,
      hk ∙ ap (λ (x : ℤ × ℤ). bigint x.0 ∷ bigint x.1 ∷ []) fields.1,
      hn ∙ ap bigint fields.2,
      hl,
    )

-- `validateInputs` accepts an array of BigInts, a key of two BigInts, a BigInt for a nonce and a
-- length that is not negative, and nothing else.
pub validate_inputs_iff :
    (msg : Message) (key : List Value) (nonce : Value) (length : Option ℤ) (i : Inputs)
    → (validate_inputs msg key nonce length ≡ ok i) ↔ AreInputs msg key nonce length i
unfolding validate_inputs
validate_inputs_iff msg key nonce length i = (
  λ h.
      let (m, hm, h₁) = >>=-eq-ok (message_of msg) _ h in
      let (k, hk, h₂) = >>=-eq-ok (key_of key) _ h₁ in
      let (n, hn, h₃) = >>=-eq-ok (nonce_of nonce) _ h₂ in
      let (u, hl, h₄) = >>=-eq-ok (check_length length) _ h₃ in
      assemble m k n length h₄ (message_of_sound msg m hm) (key_of_sound key k hk)
        (nonce_of_sound nonce n hn) (check_length_sound length u hl),
  λ (hm, hk, hn, hl).
      rw (hm, hk, hn) (validate_inputs_of_bigints i.message i.key.0 i.key.1 i.nonce length hl),
)

module _ (poseidon : State → State) (c : List ℤ) (k0 k1 nonce : ℤ) where
  -- On BigInts both functions get past the tests.
  pub poseidon_encrypt_of_bigints :
      poseidon_encrypt poseidon (array (map bigint c)) (bigint k0 ∷ bigint k1 ∷ []) (bigint nonce)
      ≡ ok (encrypt_inputs poseidon (record { message = c; key = (k0, k1); nonce = nonce }))
  unfolding poseidon_encrypt
  poseidon_encrypt_of_bigints = rw (validate_inputs_of_bigints c k0 k1 nonce none (λ x. x))

  pub poseidon_decrypt_of_bigints :
      (l : ℕ)
      → poseidon_decrypt poseidon
          (array (map bigint c))
          (bigint k0 ∷ bigint k1 ∷ [])
          (bigint nonce)
          (pos l)
        ≡ decrypt_inputs poseidon (record { message = c; key = (k0, k1); nonce = nonce }) l
  unfolding poseidon_decrypt
  poseidon_decrypt_of_bigints l =
      rw (validate_inputs_of_bigints c k0 k1 nonce (some (pos l)) (λ x. x))
