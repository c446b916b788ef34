-- ===== src/Cipher/Values.antt =====
-- The values that zkp/js/lib/util.js is handed, and the errors that its checks throw.
use zeto.Base.{List}
use zeto.Base.Int.{ℤ}

-- A value whose `typeof` is 'bigint', or another.
pub data Value : Type 0 where
  bigint : ℤ → Value
  other : Value

-- What `Array.isArray` accepts, or not.
pub data Message : Type 0 where
  array : List Value → Message
  not_array : Message

pub data Error : Type 0 where
  not_an_array not_bigint key_length key_not_bigint nonce_not_bigint length_below_one : Error
  last_not_zero second_to_last_not_zero tag_mismatch : Error

-- The arguments at the types that `validateInputs` establishes.
pub record Inputs : Type 0 where
  pub message : List ℤ
  pub key : ℤ × ℤ
  pub nonce : ℤ
