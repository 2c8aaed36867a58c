-- ===== src/Config/Crc.antt =====
-- lib/config/crc32.cpp: the checksum of a stored blob.
use homekit_rf_ir_blaster.Base.Bits.{bit_xor-lt}
use homekit_rf_ir_blaster.Base.{
  ◌<◌, ◌^◌, All, IsByte, arith, Bool-cases, inl, inr, ℕ, zero, suc, ◌/◌, ◌%◌, ◌≡◌, refl, [], ◌∷◌,
  ◌==◌, if◌then◌else◌, Bytes, bit_xor, codes,
}

-- The loop over the bits of a byte: `crc & 1`, then a shift, with the polynomial where the bit was
-- set.
unfoldable pub crc_bits : ℕ → ℕ → ℕ
crc_bits zero crc = crc
crc_bits (suc n) crc = crc_bits n (if crc % 2 == 1 then bit_xor (crc / 2) 0xEDB88320 else crc / 2)

unfoldable pub crc_loop : ℕ → Bytes → ℕ
unfolding crc_bits
crc_loop crc [] = crc
crc_loop crc (b ∷ bs) = crc_loop (crc_bits 8 (bit_xor crc b)) bs

unfoldable pub crc32 : Bytes → ℕ
unfolding crc_loop
crc32 bytes = bit_xor (crc_loop 0xFFFFFFFF bytes) 0xFFFFFFFF

crc_bits-lt : (n crc : ℕ) → crc < 2 ^ 32 → crc_bits n crc < 2 ^ 32
unfolding crc_bits
crc_bits-lt zero crc h = h
crc_bits-lt (suc n) crc h = elim (Bool-cases (crc % 2 == 1)) [
  | inl e ↦ rw e (
      crc_bits-lt n (bit_xor (crc / 2) 0xEDB88320)
        (bit_xor-lt 32 (crc / 2) 0xEDB88320 (omega arith) (omega arith)))
  | inr e ↦ rw e (crc_bits-lt n (crc / 2) (omega arith))
]

crc_loop-lt : (bs : Bytes) (crc : ℕ) → All IsByte bs → crc < 2 ^ 32 → crc_loop crc bs < 2 ^ 32
unfolding crc_loop
crc_loop-lt [] crc k h = h
crc_loop-lt (b ∷ bs) crc k h =
    crc_loop-lt bs (crc_bits 8 (bit_xor crc b)) k.1
      (crc_bits-lt 8 (bit_xor crc b) (bit_xor-lt 32 crc b h (omega (arith, k.0))))

-- The checksum of bytes fits its 32 bits.
pub crc32-lt : (bytes : Bytes) → All IsByte bytes → crc32 bytes < 2 ^ 32
unfolding crc32
crc32-lt bytes k =
    bit_xor-lt 32 (crc_loop 0xFFFFFFFF bytes) 0xFFFFFFFF
      (crc_loop-lt bytes 0xFFFFFFFF k (omega arith)) (omega arith)

-- The check value of CRC-32.
crc32_check : crc32 (codes "123456789") ≡ 0xCBF43926
unfolding crc32
crc32_check = refl
