-- ===== src/Keys/Tests.antt =====
-- A seed trimmed and used twice, with the little-endian reading for `leBuff2int`.
use zeto.Base.{ℕ, ◌*◌, ◌^◌, ◌≤◌, ◌<◌, ◌≡◌, refl, List, [], ◌∷◌, replicate, arith}
use zeto.Bytes.Value.{value}
use zeto.Keys.{trim_seed, private_key}
use zeto.Keys.Trim.{private_key_range}

abbrev seed : List ℕ
seed = 255 ∷ 1 ∷ 2 ∷ replicate 29 200

trimmed_seed :
    trim_seed seed
    ≡ 248 ∷ 1 ∷ 2 ∷ 200 ∷ 200 ∷ 200 ∷ 200 ∷ 200 ∷ 200 ∷ 200 ∷ 200 ∷ 200 ∷ 200 ∷ 200 ∷ 200 ∷ 200
      ∷ 200 ∷ 200 ∷ 200 ∷ 200 ∷ 200 ∷ 200 ∷ 200 ∷ 200 ∷ 200 ∷ 200 ∷ 200 ∷ 200 ∷ 200 ∷ 200 ∷ 200 ∷ 72
      ∷ []
unfolding trim_seed
trimmed_seed = refl

private_key_range_example :
    let k = private_key (value 256) seed in
    (8 * k ≡ value 256 (trim_seed seed)) × (2 ^ 251 ≤ k) × (k < 2 ^ 252)
private_key_range_example =
    private_key_range (value 256) (λ bytes h. refl) seed (omega arith) (omega arith)
