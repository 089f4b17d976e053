-- ===== src/Crc.antt =====
-- crates/carriage/src/crc.rs: CRC-32C (Castagnoli), bit by bit.
use open_ot_experiments.Prelude.{ℕ, zero, suc, ◌-◌, ◌/◌, ◌%◌, ◌^◌, List, [], ◌∷◌, bit_and, bit_xor}

abbrev pub reflected_poly : ℕ
reflected_poly = 0x82f6_3b78

-- One round of the inner loop. `0u32.wrapping_sub(crc & 1)` is all ones or zero.
unfoldable pub crc_round : ℕ → ℕ
crc_round crc =
    let mask = (2 ^ 32 - bit_and crc 1) % 2 ^ 32 in bit_xor (crc / 2) (bit_and reflected_poly mask)

unfoldable pub crc_rounds : ℕ → ℕ → ℕ
crc_rounds zero crc = crc
crc_rounds (suc n) crc = crc_rounds n (crc_round crc)

unfoldable pub crc_loop : List ℕ → ℕ → ℕ
crc_loop [] crc = crc
crc_loop (byte ∷ bytes) crc = crc_loop bytes (crc_rounds 8 (bit_xor crc byte))

-- `!crc` on a `u32` is the complement of all its bits.
unfoldable pub crc32c : List ℕ → ℕ
crc32c bytes = 2 ^ 32 - 1 - crc_loop bytes 0xffff_ffff
