-- ===== src/Kem/Recovery.antt =====
-- The recovered ciphertext is the bytes that were packed into the field elements.
use mathlib.Core.List.{append_assoc}
use zeto.Base.{
  flatten, ◌/◌, ℕ, zero, suc, ◌+◌, ◌%◌, ◌^◌, ◌≤◌, ◌<◌, ◌≡◌, ◌↔◌, refl, ap, ap₂, sym, ◌∙◌, none,
  some, List, [], ◌∷◌, ◌++◌, map, length, All, All-append, arith,
}
use native.Mathlib.Decide.{dec_lt}
use zeto.Bytes.Value.{value, IsByte, value-lt}
use zeto.Kem.{element_bytes, recover_from, recover_ml_kem_ciphertext_bytes}
use zeto.Kem.Binary.{value-element_bytes, length-element_bytes, element_bytes-IsByte}

-- Bytes are known by their number and the number that they stand for.
value-injective :
    (xs ys : List ℕ)
    → All IsByte xs
    → All IsByte ys
    → length xs ≡ length ys
    → value 256 xs ≡ value 256 ys
    → xs ≡ ys
value-injective [] [] hx hy l v = refl
value-injective [] (y ∷ ys) hx hy l v = absurd (omega arith)
value-injective (x ∷ xs) [] hx hy l v = absurd (omega arith)
value-injective (x ∷ xs) (y ∷ ys) (bx, hx) (by, hy) l v =
    ap₂ (λ (b : ℕ) (bs : List ℕ). b ∷ bs) (omega arith)
      (value-injective xs ys hx hy (omega arith) (omega arith))

-- One element gives back the bytes that were packed into it.
element_bytes-value :
    (w : ℕ) (bytes : List ℕ)
    → All IsByte bytes
    → length bytes ≡ (suc w + 7) / 8
    → value 256 bytes < 2 ^ suc w
    → element_bytes (suc w) (value 256 bytes) ≡ bytes
element_bytes-value w bytes h l fits =
    value-injective (element_bytes (suc w) (value 256 bytes)) bytes
      (element_bytes-IsByte w (value 256 bytes) fits) h
      (length-element_bytes w (value 256 bytes) fits ∙ sym l)
      (value-element_bytes w (value 256 bytes) fits)

-- A group of bytes that makes one element.
abbrev pub IsGroup : ℕ → List ℕ → Type 0
IsGroup k bytes = All IsByte bytes × (length bytes ≡ k)

group_248 : (bytes : List ℕ) → IsGroup 31 bytes → element_bytes 248 (value 256 bytes) ≡ bytes
group_248 bytes (h, l) =
    element_bytes-value 247 bytes h (l ∙ refl)
      (let fits : value 256 bytes < 256 ^ 31 = rw l at (value-lt 256 bytes h) in fits)

group_192 : (bytes : List ℕ) → IsGroup 24 bytes → element_bytes 192 (value 256 bytes) ≡ bytes
group_192 bytes (h, l) =
    element_bytes-value 191 bytes h (l ∙ refl)
      (let fits : value 256 bytes < 256 ^ 24 = rw l at (value-lt 256 bytes h) in fits)

recover_from-value :
    (groups : List (List ℕ)) (last : List ℕ)
    → All (IsGroup 31) groups
    → IsGroup 24 last
    → recover_from (length groups) (map (value 256) groups ++ value 256 last ∷ [])
      ≡ some (flatten groups ++ last)
unfolding recover_from
recover_from-value [] last hg hl = ap some (group_192 last hl)
recover_from-value (g ∷ groups) last (h, hg) hl =
    rw (recover_from-value groups last hg hl, group_248 g h)
      (ap some (sym (append_assoc g (flatten groups) last)))

low_byte : (bytes : List ℕ) → All IsByte bytes → map (λ b. b % 256) bytes ≡ bytes
low_byte [] h = refl
low_byte (b ∷ bytes) (hb, h) =
    ap₂ (λ (x : ℕ) (xs : List ℕ). x ∷ xs) (omega arith) (low_byte bytes h)

flatten-IsByte : (groups : List (List ℕ)) → All (IsGroup 31) groups → All IsByte (flatten groups)
flatten-IsByte [] h = tt
flatten-IsByte (g ∷ groups) (hg, h) =
    All-append IsByte g (flatten groups) hg.0 (flatten-IsByte groups h)

-- 24 groups of 31 bytes and one of 24, each packed into a number with the least significant byte
-- first, come back in order.
pub recover_ml_kem_ciphertext_bytes-value :
    (groups : List (List ℕ)) (last : List ℕ)
    → length groups ≡ 24
    → All (IsGroup 31) groups
    → IsGroup 24 last
    → recover_ml_kem_ciphertext_bytes (map (value 256) groups ++ value 256 last ∷ [])
      ≡ some (flatten groups ++ last)
unfolding recover_ml_kem_ciphertext_bytes
recover_ml_kem_ciphertext_bytes-value groups last n hg hl =
    let whole : recover_from 24 (map (value 256) groups ++ value 256 last ∷ [])
        ≡ some (flatten groups ++ last) =
      rw n at (recover_from-value groups last hg hl) in
    rw (whole, recover_ml_kem_ciphertext_bytes)
      (ap some (
        low_byte (flatten groups ++ last)
          (All-append IsByte (flatten groups) last (flatten-IsByte groups hg) hl.0)))

recover_from-none : (k : ℕ) (ns : List ℕ) → length ns ≤ k → recover_from k ns ≡ none
unfolding recover_from
recover_from-none k [] h = refl
recover_from-none zero (n ∷ ns) h = absurd (omega arith)
recover_from-none (suc k) (n ∷ ns) h = rw (recover_from-none k ns (omega arith))

recover_from-some :
    (k : ℕ) (ns : List ℕ) → k < length ns → (bytes : List ℕ) × (recover_from k ns ≡ some bytes)
unfolding recover_from
recover_from-some k [] h = absurd (omega arith)
recover_from-some zero (n ∷ ns) h = (element_bytes 192 n, refl)
recover_from-some (suc k) (n ∷ ns) h =
    let (bytes, e) = recover_from-some k ns (omega arith) in (element_bytes 248 n ++ bytes, rw e)

-- The function throws exactly when it is handed fewer than 25 numbers.
pub recover_ml_kem_ciphertext_bytes-none :
    (ns : List ℕ) → (recover_ml_kem_ciphertext_bytes ns ≡ none) ↔ (length ns < 25)
unfolding recover_ml_kem_ciphertext_bytes
recover_ml_kem_ciphertext_bytes-none ns = (
  λ e. elim (dec_lt (length ns) 25) [
    | yes h ↦ h
    | no h ↦ let (bytes, f) = recover_from-some 24 ns (omega arith) in ground arith
  ],
  λ h. rw (recover_from-none 24 ns (omega arith), recover_ml_kem_ciphertext_bytes),
)
