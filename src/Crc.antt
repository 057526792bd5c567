-- ===== src/Crc.antt =====
-- c/rtklib/rtkcmn.c, `rtk_crc32`, `rtk_crc24q`, `rtk_crc16`. A buffer is the list of its bytes.
pub mod Tables
pub mod Step
pub mod Detect
use go_ntrip.Base.{
  ℕ, zero, suc, ◌+◌, ◌-◌, ◌*◌, ◌/◌, ◌%◌, ◌^◌, bit_and, bit_xor, List, get_or, ◌==◌, if◌then◌else◌,
}
use Tables.{tbl_crc24q, tbl_crc16}

abbrev pub poly_crc32 : ℕ
poly_crc32 = 0xedb88320

abbrev pub poly_crc24q : ℕ
poly_crc24q = 0x1864cfb

-- `crc=((crc<<8)&0xFFFFFF)^tbl_CRC24Q[(crc>>16)^buff[i]]`; the register is an `unsigned int`.
unfoldable pub crc24q_step : ℕ → ℕ → ℕ
crc24q_step crc byte =
    bit_xor (bit_and (crc * 2 ^ 8 % 2 ^ 32) 0xffffff)
      (get_or tbl_crc24q (bit_xor (crc / 2 ^ 16) byte) 0)

-- The loop at index `i`, with the rounds left.
unfoldable pub crc24q_loop : List ℕ → ℕ → ℕ → ℕ → ℕ
crc24q_loop buff zero i crc = crc
crc24q_loop buff (suc left) i crc =
    crc24q_loop buff left (i + 1) (crc24q_step crc (get_or buff i 0))

unfoldable pub rtk_crc24q : List ℕ → ℕ → ℕ
rtk_crc24q buff len = crc24q_loop buff len 0 0

-- `if (crc&1) crc=(crc>>1)^POLYCRC32; else crc>>=1;`, eight times.
unfoldable pub crc32_bits : ℕ → ℕ → ℕ
crc32_bits zero crc = crc
crc32_bits (suc left) crc =
    crc32_bits left (if bit_and crc 1 == 0 then crc / 2 else bit_xor (crc / 2) poly_crc32)

unfoldable pub crc32_loop : List ℕ → ℕ → ℕ → ℕ → ℕ
crc32_loop buff zero i crc = crc
crc32_loop buff (suc left) i crc =
    crc32_loop buff left (i + 1) (crc32_bits 8 (bit_xor crc (get_or buff i 0)))

unfoldable pub rtk_crc32 : List ℕ → ℕ → ℕ
rtk_crc32 buff len = crc32_loop buff len 0 0

-- `crc=(crc<<8)^tbl_CRC16[((crc>>8)^buff[i])&0xFF]`, stored in an `unsigned short`.
unfoldable pub crc16_step : ℕ → ℕ → ℕ
crc16_step crc byte =
    bit_xor (crc * 2 ^ 8) (get_or tbl_crc16 (bit_and (bit_xor (crc / 2 ^ 8) byte) 0xff) 0) % 2 ^ 16

unfoldable pub crc16_loop : List ℕ → ℕ → ℕ → ℕ → ℕ
crc16_loop buff zero i crc = crc
crc16_loop buff (suc left) i crc = crc16_loop buff left (i + 1) (crc16_step crc (get_or buff i 0))

unfoldable pub rtk_crc16 : List ℕ → ℕ → ℕ
rtk_crc16 buff len = crc16_loop buff len 0 0
