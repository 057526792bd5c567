-- ===== src/Tests/Bits.antt =====
-- Bit fields and CRC-24Q on concrete buffers.
use go_ntrip.Base.{
  ℕ, ◌^◌, ◌≡◌, ◌≢◌, refl, sym, ◌-◌, get_or-set_ne, List, [], ◌∷◌, inr, arith, replicate, set,
}
use go_ntrip.Bits.{getbitu, getbits, setbitu, setbits, read_loop, write_loop, write_bit}
use go_ntrip.Bits.Cell.{IsBytes, AllBytes-IsBytes}
use go_ntrip.Bits.Ranges.{Written, setbitu-Written, getbitu-setbitu}
use go_ntrip.Bits.Signed.{getbits-setbits}
use go_ntrip.Bits.Fields.{put, put-IsPut, IsPut}
use go_ntrip.Crc.{rtk_crc24q, crc24q_loop, crc24q_step, rtk_crc32, crc32_loop, crc32_bits}
use go_ntrip.Crc.{rtk_crc16, crc16_loop, crc16_step}
use go_ntrip.Crc.Detect.{division, crc24q-division, crc24q_one_byte}

abbrev zeros : List ℕ
zeros = replicate 8 0

zeros-IsBytes : IsBytes zeros
zeros-IsBytes = AllBytes-IsBytes zeros (omega arith)

abbrev digits : List ℕ
digits = 0x31 ∷ 0x32 ∷ 0x33 ∷ 0x34 ∷ 0x35 ∷ 0x36 ∷ 0x37 ∷ 0x38 ∷ 0x39 ∷ []

digits-IsBytes : IsBytes digits
digits-IsBytes = AllBytes-IsBytes digits (omega arith)

-- The check values of the three CRCs, over the digits "123456789".
crc24q_check : rtk_crc24q digits 9 ≡ 0xcde703
unfolding rtk_crc24q crc24q_loop crc24q_step
crc24q_check = refl

crc16_check : rtk_crc16 digits 9 ≡ 0x31c3
unfolding rtk_crc16 crc16_loop crc16_step
crc16_check = refl

crc32_check : rtk_crc32 digits 9 ≡ 0x2dfd2d88
unfolding rtk_crc32 crc32_loop crc32_bits
crc32_check = refl

field_written : setbitu zeros 4 12 1005 ≡ 3 ∷ 0xed ∷ replicate 6 0
unfolding setbitu write_loop write_bit
field_written = refl

negative_read : getbits (0xff ∷ 0xf0 ∷ []) 4 8 ≡ 2 ^ 32 - 1
unfolding getbits getbitu read_loop
negative_read = refl

getbitu-setbitu_example : getbitu (setbitu zeros 4 12 1005) 4 12 ≡ 1005
getbitu-setbitu_example =
    getbitu-setbitu zeros 4 12 1005 zeros-IsBytes (omega arith) (omega arith) (omega arith)

setbitu-Written_example : Written zeros 4 12 1005 (setbitu zeros 4 12 1005)
setbitu-Written_example =
    setbitu-Written zeros 4 12 1005 zeros-IsBytes (omega arith) (omega arith) (omega arith)

getbits-setbits_example : getbits (setbits zeros 3 14 (2 ^ 32 - 5)) 3 14 ≡ 2 ^ 32 - 5
getbits-setbits_example =
    getbits-setbits zeros 3 13 (2 ^ 32 - 5) zeros-IsBytes (omega arith) (omega arith)
      (inr (omega arith))

put-IsPut_example :
    IsPut zeros 5
      ((12, 1005) ∷ (12, 7) ∷ (1, 1) ∷ [])
      (put zeros 5 ((12, 1005) ∷ (12, 7) ∷ (1, 1) ∷ []))
put-IsPut_example = put-IsPut _ zeros 5 zeros-IsBytes (omega arith) (omega arith)

crc24q-division_example : rtk_crc24q digits 9 ≡ division digits 9 0 0
crc24q-division_example = crc24q-division digits digits-IsBytes 9

crc24q_one_byte_example : rtk_crc24q digits 9 ≢ rtk_crc24q (set digits 4 0x45) 9
crc24q_one_byte_example =
    crc24q_one_byte digits (set digits 4 0x45) digits-IsBytes
      (AllBytes-IsBytes (set digits 4 0x45) (omega arith)) 4
      (λ j h. sym (get_or-set_ne digits 4 j 0x45 0 (λ e. h (sym e)))) (omega arith) 9 (omega arith)
