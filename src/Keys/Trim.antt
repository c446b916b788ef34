-- ===== src/Keys/Trim.antt =====
-- The private key that a seed is trimmed to.
use Prim.Native.Nat.{bit_and, bit_or}
use zeto.Base.{
  set-append, get_or-append, unsnoc, ◌∙◌, All-append, ℕ, suc, zero, ◌+◌, ◌*◌, ◌^◌, ◌%◌, ◌≤◌, ◌<◌,
  ◌≡◌, refl, sym, ap, ap₂, subst, Bool, true, ◌&&◌, List, [], ◌∷◌, ◌++◌, set, get_or, drop, length,
  All, arith, leb, ltb, ◌==◌,
}
use zeto.Bytes.{bytes_to_bits}
use zeto.Bytes.Value.{
  bits_to_bytes-IsByte, bytes_to_bits-IsBit, value, IsByte, value-lt, value-append,
  value-bits_to_bytes, value-bytes_to_bits,
}
use zeto.Keys.{trim_seed, key_bytes, private_key, public_key_from_seed}

-- A test of bytes, tried on every number under a bound.
holds_under : (ℕ → Bool) → ℕ → Bool
holds_under test zero = true
holds_under test (suc bound) = holds_under test bound && test bound

holds_under_elim :
    (test : ℕ → Bool) (bound byte : ℕ)
    → byte < bound
    → holds_under test bound ≡ true
    → test byte ≡ true
unfolding holds_under
holds_under_elim test zero byte small h = absurd (omega arith)
holds_under_elim test (suc bound) byte small h = ground (arith, holds_under_elim test bound byte)

low_trim : ℕ → ℕ
low_trim b = bit_and b 0xf8

high_trim : ℕ → ℕ
high_trim b = bit_or (bit_and b 0x7f) 0x40

abbrev low_test : ℕ → Bool
low_test b = (low_trim b % 8 == 0) && ltb (low_trim b) 256 && (low_trim (low_trim b) == low_trim b)

abbrev high_test : ℕ → Bool
high_test b =
    leb 64 (high_trim b) && ltb (high_trim b) 128 && (high_trim (high_trim b) == high_trim b)

low_table : holds_under low_test 256 ≡ true
unfolding holds_under low_trim
low_table = refl

high_table : holds_under high_test 256 ≡ true
unfolding holds_under high_trim
high_table = refl

low_trim_facts :
    (b : ℕ)
    → IsByte b
    → (low_trim b % 8 ≡ 0) × (low_trim b < 256) × (low_trim (low_trim b) ≡ low_trim b)
low_trim_facts b h = ground (arith, holds_under_elim low_test 256 b h low_table)

high_trim_facts :
    (b : ℕ)
    → IsByte b
    → (64 ≤ high_trim b) × (high_trim b < 128) × (high_trim (high_trim b) ≡ high_trim b)
high_trim_facts b h = ground (arith, holds_under_elim high_test 256 b h high_table)

-- The assignments change the first byte and the last of the 32.
trim_seed_lem :
    (b : ℕ) (mid : List ℕ) (z : ℕ)
    → length mid ≡ 30
    → trim_seed (b ∷ (mid ++ z ∷ [])) ≡ low_trim b ∷ (mid ++ high_trim z ∷ [])
unfolding trim_seed low_trim high_trim
trim_seed_lem b mid z l =
    let write : (y v : ℕ) → set (mid ++ y ∷ []) 30 v ≡ mid ++ v ∷ [] =
      λ y v. rw l at (set-append mid y v []) in
    let read : (y : ℕ) → get_or (mid ++ y ∷ []) 30 0 ≡ y =
      λ y. rw l at (get_or-append mid y 0 []) in
    simp (write, read)

-- Eight times the number without its lowest three bits, which are zeros.
value-key_bytes :
    (b : ℕ) (rest : List ℕ)
    → b % 8 ≡ 0
    → All IsByte (b ∷ rest)
    → 8 * value 256 (key_bytes (b ∷ rest)) ≡ value 256 (b ∷ rest)
unfolding key_bytes bytes_to_bits
value-key_bytes b rest e h =
    rw value-bits_to_bytes (omega (arith, value-bytes_to_bits (b ∷ rest) h))

-- The facts about a seed of 32 bytes that the theorems below share.
record Trimmed (seed : List ℕ) : Type 0 where
  low : ℕ
  mid : List ℕ
  high : ℕ
  thirty : length mid ≡ 30
  eq : trim_seed seed ≡ low ∷ (mid ++ high ∷ [])
  eq_again : trim_seed (trim_seed seed) ≡ low ∷ (mid ++ high ∷ [])
  aligned : low % 8 ≡ 0
  bytes : All IsByte (low ∷ (mid ++ high ∷ []))
  above : 64 ≤ high
  below : high < 128

All-init : (xs ys : List ℕ) → All IsByte (xs ++ ys) → All IsByte xs × All IsByte ys
All-init [] ys h = (tt, h)
All-init (x ∷ xs) ys (hx, h) = let (a, b) = All-init xs ys h in ((hx, a), b)

trimmed : (seed : List ℕ) → length seed ≡ 32 → All IsByte seed → Trimmed seed
trimmed [] n h = absurd (omega arith)
trimmed (b ∷ rest) n (hb, h) =
    let (mid, z, e, l) = unsnoc 30 rest (omega arith) in
    let (hm, hz) = All-init mid (z ∷ []) (subst (All IsByte) e h) in
    let (aligned, small, low_again) = low_trim_facts b hb in
    let (above, below, high_again) = high_trim_facts z hz.0 in
    let once : trim_seed (b ∷ rest) ≡ low_trim b ∷ (mid ++ high_trim z ∷ []) =
      ap (λ (t : List ℕ). trim_seed (b ∷ t)) e ∙ trim_seed_lem b mid z l in
    record {
      low = low_trim b;
      mid = mid;
      high = high_trim z;
      thirty = l;
      eq = once;
      eq_again =
          ap trim_seed once
          ∙ trim_seed_lem (low_trim b) mid (high_trim z) l
          ∙ ap₂ (λ (x y : ℕ). x ∷ (mid ++ y ∷ [])) low_again high_again;
      aligned = aligned;
      bytes = (small, All-append IsByte mid (high_trim z ∷ []) hm (omega arith, tt));
      above = above;
      below = below;
    }

key_bytes-IsByte : (b : ℕ) (rest : List ℕ) → All IsByte (key_bytes (b ∷ rest))
unfolding key_bytes bytes_to_bits
key_bytes-IsByte b rest =
    bits_to_bytes-IsByte (drop 3 (bytes_to_bits (b ∷ rest))) (bytes_to_bits-IsBit (b ∷ rest)).1.1.1

value-trimmed :
    (low : ℕ) (mid : List ℕ) (high : ℕ)
    → length mid ≡ 30
    → low < 256
    → All IsByte mid
    → 64 ≤ high
    → high < 128
    → (2 ^ 254 ≤ value 256 (low ∷ (mid ++ high ∷ [])))
      × (value 256 (low ∷ (mid ++ high ∷ [])) < 2 ^ 255)
value-trimmed low mid high l small bytes above below =
    let bound : value 256 mid < 256 ^ 30 = rw l at (value-lt 256 mid bytes) in
    let sum : value 256 (mid ++ high ∷ []) ≡ value 256 mid + 256 ^ 30 * value 256 (high ∷ []) =
      rw l at (value-append 256 mid (high ∷ [])) in
    (omega arith, omega arith)

-- Where the buffer is read as a little-endian number: eight times the private key of a seed of 32
-- bytes is the number that the trimmed seed stands for, and the key has its top bit at 2^251.
pub private_key_range :
    (le_buff2int : List ℕ → ℕ)
    → ((bytes : List ℕ) → All IsByte bytes → le_buff2int bytes ≡ value 256 bytes)
    → (seed : List ℕ) → length seed ≡ 32
    → All IsByte seed
    → let k = private_key le_buff2int seed in
      (8 * k ≡ value 256 (trim_seed seed)) × (2 ^ 251 ≤ k) × (k < 2 ^ 252)
unfolding private_key
private_key_range le_buff2int reads seed n h =
    let t = trimmed seed n h in
    let rest = t.mid ++ t.high ∷ [] in
    let k : le_buff2int (key_bytes (trim_seed seed)) ≡ value 256 (key_bytes (t.low ∷ rest)) =
      ap (λ (s : List ℕ). le_buff2int (key_bytes s)) t.eq
      ∙ reads (key_bytes (t.low ∷ rest)) (key_bytes-IsByte t.low rest) in
    let eight = value-key_bytes t.low rest t.aligned t.bytes in
    let range =
      value-trimmed t.low t.mid t.high t.thirty t.bytes.0 (All-init t.mid (t.high ∷ []) t.bytes.1).0
        t.above t.below in
    (ap (λ (x : ℕ). 8 * x) k ∙ eight ∙ sym (ap (value 256) t.eq), omega arith, omega arith)

-- The call leaves the trimmed seed in the caller's array of 32 bytes, and a second call with that
-- array has the same results.
pub public_key_from_seed_again {ℓ} :
    {Point : Type ℓ} (le_buff2int : List ℕ → ℕ) (mul_base8 : ℕ → Point) (seed : List ℕ)
    → length seed ≡ 32
    → All IsByte seed
    → let r = public_key_from_seed le_buff2int mul_base8 seed in
      public_key_from_seed le_buff2int mul_base8 r.1 ≡ r
unfolding public_key_from_seed private_key
public_key_from_seed_again le_buff2int mul_base8 seed n h =
    let t = trimmed seed n h in
    ap (λ (s : List ℕ). (mul_base8 (le_buff2int (key_bytes s)), s)) (t.eq_again ∙ sym t.eq)
