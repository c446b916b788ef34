-- ===== src/Kem/Tests.antt =====
-- The recovery of a ciphertext, run on small groups.
use zeto.Base.{ℕ, ◌≡◌, refl, some, List, [], ◌∷◌, ◌++◌, map, flatten, replicate, arith}
use zeto.Bytes.{bits_to_bytes}
use zeto.Bytes.Value.{value}
use zeto.Kem.{element_bytes, to_string_2, pad_start, recover_ml_kem_ciphertext_bytes}
use zeto.Kem.Recovery.{recover_ml_kem_ciphertext_bytes-value}

six : to_string_2 6 ≡ 1 ∷ 1 ∷ 0 ∷ []
unfolding to_string_2
six = refl

two_bytes : element_bytes 16 0x1234 ≡ 0x34 ∷ 0x12 ∷ []
unfolding element_bytes to_string_2 pad_start bits_to_bytes
two_bytes = refl

abbrev group : List ℕ
group = 1 ∷ 2 ∷ 255 ∷ replicate 28 7

abbrev last_group : List ℕ
last_group = 9 ∷ replicate 23 128

recover_ml_kem_ciphertext_bytes-value_example :
    recover_ml_kem_ciphertext_bytes
      (map (value 256) (replicate 24 group) ++ value 256 last_group ∷ [])
    ≡ some (flatten (replicate 24 group) ++ last_group)
recover_ml_kem_ciphertext_bytes-value_example =
    recover_ml_kem_ciphertext_bytes-value (replicate 24 group) last_group (omega arith)
      (omega arith) (omega arith)
