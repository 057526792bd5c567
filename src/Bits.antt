-- ===== src/Bits.antt =====
-- c/rtklib/rtkcmn.c, "extract unsigned/signed bits" and "set unsigned/signed bits". A buffer is the
-- list of its bytes; `unsigned int` is a number below 2 ^ 32, and an `int` is its 32-bit pattern.
-- Positions and lengths are not negative.
pub mod Cell
pub mod Ranges
pub mod Tail
pub mod Signed
pub mod Fields
pub mod Message
pub mod Column
use go_ntrip.Base.{
  ℕ, zero, suc, ◌+◌, ◌-◌, ◌*◌, ◌/◌, ◌%◌, ◌^◌, bit_and, bit_or, List, Bool, ◌||◌, get_or, set, ltb,
  ◌==◌, if◌then◌else◌,
}

abbrev pub byte_at : List ℕ → ℕ → ℕ
byte_at buff k = get_or buff k 0

-- `for (i=pos;i<pos+len;i++) bits=(bits<<1)+((buff[i/8]>>(7-i%8))&1u)`, with the rounds left.
unfoldable pub read_loop : List ℕ → ℕ → ℕ → ℕ → ℕ
read_loop buff zero i bits = bits
read_loop buff (suc left) i bits =
    read_loop buff left (i + 1)
      ((bits * 2 % 2 ^ 32 + bit_and (byte_at buff (i / 8) / 2 ^ (7 - i % 8)) 1) % 2 ^ 32)

unfoldable pub getbitu : List ℕ → ℕ → ℕ → ℕ
getbitu buff pos len = read_loop buff len pos 0

-- `bits|(~0u<<len)` extends the sign: the bits from `len` up are set.
unfoldable pub getbits : List ℕ → ℕ → ℕ → ℕ
getbits buff pos len =
    let bits = getbitu buff pos len in
    if len == 0 || ltb 31 len || bit_and bits (2 ^ (len - 1)) == 0
    then bits
    else bit_or bits (2 ^ 32 - 2 ^ len)

-- One bit of the buffer set or cleared: `|=1u<<k`, and `&=~(1u<<k)` on a byte.
unfoldable pub write_bit : List ℕ → ℕ → Bool → List ℕ
write_bit buff i b =
    let v = byte_at buff (i / 8) in
    let m = 2 ^ (7 - i % 8) in
    set buff (i / 8) (if b then bit_or v m else bit_and v (2 ^ 32 - 1 - m))

-- `for (i=pos;i<pos+len;i++,mask>>=1)`, with the rounds left.
unfoldable pub write_loop : List ℕ → ℕ → ℕ → ℕ → ℕ → List ℕ
write_loop buff zero i mask word = buff
write_loop buff (suc left) i mask word =
    write_loop (write_bit buff i (ltb 0 (bit_and word mask))) left (i + 1) (mask / 2) word

unfoldable pub setbitu : List ℕ → ℕ → ℕ → ℕ → List ℕ
setbitu buff pos len word =
    if len == 0 || ltb 32 len then buff else write_loop buff len pos (2 ^ (len - 1)) word

-- The sign bit of the field is set or cleared by the sign of `data`, an `int`.
unfoldable pub setbits : List ℕ → ℕ → ℕ → ℕ → List ℕ
setbits buff pos len word =
    let m = 2 ^ (len - 1) in
    setbitu buff pos len
      (if ltb word (2 ^ 31) then bit_and word (2 ^ 32 - 1 - m) else bit_or word m)
