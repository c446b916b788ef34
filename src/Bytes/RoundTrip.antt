-- ===== src/Bytes/RoundTrip.antt =====
-- Bits to bytes and back.
use zeto.Base.{
  ℕ, ◌-◌, ◌%◌, ◌≡◌, refl, ap, ap₂, ◌∙◌, List, [], ◌∷◌, ◌++◌, length, replicate, All, arith,
}
use zeto.Bytes.{sum_bits, byte_bits, bits_to_bytes, bytes_to_bits}
use zeto.Bytes.Value.{IsByte, IsBit}

-- Bytes come back from their bits.
pub bits_to_bytes-bytes_to_bits :
    (bytes : List ℕ) → All IsByte bytes → bits_to_bytes (bytes_to_bits bytes) ≡ bytes
unfolding bits_to_bytes bytes_to_bits
bits_to_bytes-bytes_to_bits [] h = refl
bits_to_bytes-bytes_to_bits (byte ∷ bytes) (hb, h) =
    ap₂ (λ (b : ℕ) (bs : List ℕ). b ∷ bs) (omega arith) (bits_to_bytes-bytes_to_bits bytes h)

eight_bits :
    (b0 b1 b2 b3 b4 b5 b6 b7 : ℕ)
    → All IsBit (b0 ∷ b1 ∷ b2 ∷ b3 ∷ b4 ∷ b5 ∷ b6 ∷ b7 ∷ [])
    → byte_bits (sum_bits 0 0 (b0 ∷ b1 ∷ b2 ∷ b3 ∷ b4 ∷ b5 ∷ b6 ∷ b7 ∷ [])) 0 8
      ≡ b0 ∷ b1 ∷ b2 ∷ b3 ∷ b4 ∷ b5 ∷ b6 ∷ b7 ∷ []
unfolding byte_bits sum_bits
eight_bits b0 b1 b2 b3 b4 b5 b6 b7 (h0, (h1, (h2, (h3, (h4, (h5, (h6, (h7, _)))))))) = ground arith

-- Bits come back from their bytes, filled up with zeros to a multiple of eight.
pub bytes_to_bits-bits_to_bytes :
    (bits : List ℕ)
    → All IsBit bits
    → bytes_to_bits (bits_to_bytes bits) ≡ bits ++ replicate ((8 - length bits % 8) % 8) 0
unfolding bits_to_bytes bytes_to_bits
bytes_to_bits-bits_to_bytes [] h = refl
bytes_to_bits-bits_to_bytes (b0 ∷ b1 ∷ b2 ∷ b3 ∷ b4 ∷ b5 ∷ b6 ∷ b7 ∷ rest)
      (h0, (h1, (h2, (h3, (h4, (h5, (h6, (h7, h)))))))) =
    ap₂ (λ (x y : List ℕ). x ++ y)
      (eight_bits b0 b1 b2 b3 b4 b5 b6 b7 (h0, (h1, (h2, (h3, (h4, (h5, (h6, (h7, tt)))))))))
      (bytes_to_bits-bits_to_bytes rest h ∙ ap (λ (n : ℕ). rest ++ replicate n 0) (omega arith))
bytes_to_bits-bits_to_bytes (a ∷ []) (ha, _) = ground arith
bytes_to_bits-bits_to_bytes (a ∷ b ∷ []) (ha, (hb, _)) = ground arith
bytes_to_bits-bits_to_bytes (a ∷ b ∷ c ∷ []) (ha, (hb, (hc, _))) =
    ap (λ (n : ℕ). byte_bits n 0 8 ++ []) (omega arith)
    ∙ eight_bits a b c 0 0 0 0 0 (
      ha,
      (hb, (hc, (omega arith, (omega arith, (omega arith, (omega arith, (omega arith, tt))))))),
    )
bytes_to_bits-bits_to_bytes (a ∷ b ∷ c ∷ d ∷ []) (ha, (hb, (hc, (hd, _)))) =
    ap (λ (n : ℕ). byte_bits n 0 8 ++ []) (omega arith)
    ∙ eight_bits a b c d 0 0 0 0
        (ha, (hb, (hc, (hd, (omega arith, (omega arith, (omega arith, (omega arith, tt))))))))
bytes_to_bits-bits_to_bytes (a ∷ b ∷ c ∷ d ∷ e ∷ []) (ha, (hb, (hc, (hd, (he, _))))) =
    ap (λ (n : ℕ). byte_bits n 0 8 ++ []) (omega arith)
    ∙ eight_bits a b c d e 0 0 0
        (ha, (hb, (hc, (hd, (he, (omega arith, (omega arith, (omega arith, tt))))))))
bytes_to_bits-bits_to_bytes (a ∷ b ∷ c ∷ d ∷ e ∷ f ∷ []) (ha, (hb, (hc, (hd, (he, (hf, _)))))) =
    ap (λ (n : ℕ). byte_bits n 0 8 ++ []) (omega arith)
    ∙ eight_bits a b c d e f 0 0
        (ha, (hb, (hc, (hd, (he, (hf, (omega arith, (omega arith, tt))))))))
bytes_to_bits-bits_to_bytes (a ∷ b ∷ c ∷ d ∷ e ∷ f ∷ g ∷ [])
      (ha, (hb, (hc, (hd, (he, (hf, (hg, _))))))) =
    ap (λ (n : ℕ). byte_bits n 0 8 ++ []) (omega arith)
    ∙ eight_bits a b c d e f g 0 (ha, (hb, (hc, (hd, (he, (hf, (hg, (omega arith, tt))))))))
