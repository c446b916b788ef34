-- ===== src/Keys.antt =====
-- `publicKeyFromSeed` of zkp/js/lib/util.js. The curve's `mulPointEscalar(Base8, _)` and the reading
-- of a buffer as a number, ffjavascript's `leBuff2int`, are packages', and so parameters. The seed
-- is an array of 32 bytes, as the function's comment says: a shorter array is not modelled.
pub mod Trim
mod Tests
use Prim.Native.Nat.{bit_and, bit_or}
use zeto.Base.{ℕ, List, set, get_or, drop}
use zeto.Bytes.{bits_to_bytes, bytes_to_bits}

-- The three assignments to `seed`, an array of 32 bytes.
pub trim_seed : List ℕ → List ℕ
trim_seed seed =
    let s = set seed 0 (bit_and (get_or seed 0 0) 0xf8) in
    let t = set s 31 (bit_and (get_or s 31 0) 0x7f) in set t 31 (bit_or (get_or t 31 0) 0x40)

-- `bitsToBytes(bytesToBits(seed).slice(3))`
pub key_bytes : List ℕ → List ℕ
key_bytes seed = bits_to_bytes (drop 3 (bytes_to_bits seed))

pub private_key : (List ℕ → ℕ) → List ℕ → ℕ
private_key le_buff2int seed = le_buff2int (key_bytes (trim_seed seed))

-- The key, and the seed as the function leaves it in the caller's array.
pub public_key_from_seed {ℓ} :
    {Point : Type ℓ} → (List ℕ → ℕ) → (ℕ → Point) → List ℕ → Point × List ℕ
public_key_from_seed le_buff2int mul_base8 seed =
    (mul_base8 (private_key le_buff2int seed), trim_seed seed)
