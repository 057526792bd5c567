-- ===== src/Rtcm2.antt =====
-- c/rtklib/rtcm.c, `input_rtcm2`, and rtkcmn.c, `decode_word`: the RTCM 2 word stream. Each byte
-- carries six bits, words have 30 bits, and the message is put together word by word.
-- `decode_rtcm2`, which the repository does not hold, is an argument of the section.
pub mod File
pub mod Invariant
use go_ntrip.Base.{
  ℕ, zero, suc, ◌+◌, ◌*◌, ◌/◌, ◌%◌, ◌^◌, bit_and, bit_xor, List, [], ◌∷◌, Bool, true, false, not,
  ltb, ◌==◌, if◌then◌else◌, ℤ, pos, Option, none, some, set,
}
use go_ntrip.Bits.{byte_at}

abbrev pub rtcm2_preamb : ℕ
rtcm2_preamb = 0x66

-- The members of `rtcm_t` that the framing of RTCM 2 uses; `body` stands for all the others.
pub record Rtcm2 {ℓ} (B : Type ℓ) : Type ℓ where
  pub word : ℕ
  pub nbyte : ℕ
  pub nbit : ℕ
  pub len : ℕ
  pub buff : List ℕ
  pub body : B

abbrev pub hamming : List ℕ
hamming = 0xbb1f3480 ∷ 0x5d8f9a40 ∷ 0xaec7cd00 ∷ 0x5763e680 ∷ 0x6bb1f340 ∷ 0x8b7a89c0 ∷ []

-- `for (;w;w>>=1) parity^=w&1;`: 26 rounds are enough for `w` below 2 ^ 26.
unfoldable pub fold_bits : ℕ → ℕ → ℕ → ℕ
fold_bits zero w parity = parity
fold_bits (suc fuel) w parity = fold_bits fuel (w / 2) (bit_xor parity (bit_and w 1))

-- The loop over the six masks.
unfoldable pub word_parity : ℕ → List ℕ → ℕ → ℕ
word_parity word [] parity = parity
word_parity word (mask ∷ masks) parity =
    word_parity word masks (fold_bits 26 (bit_and word mask / 2 ^ 6) (parity * 2 % 2 ^ 32))

-- The data bits of a word, complemented when the bit before them, D30 of the last word, is set.
unfoldable pub upright : ℕ → ℕ
upright word = if bit_and word 0x40000000 == 0 then word else bit_xor word 0x3fffffc0

-- The three bytes of a word of sound parity, written from `at` on.
unfoldable pub decode_word : ℕ → List ℕ → ℕ → Option (List ℕ)
decode_word word out at =
    let w = upright word in
    if word_parity w hamming 0 == bit_and w 0x3f
    then some (
        set (set (set out at (w / 2 ^ 22 % 256)) (at + 1) (w / 2 ^ 14 % 256)) (at + 2)
          (w / 2 ^ 6 % 256))
    else none

-- The eight bits at the place of the preamble.
unfoldable pub preamble_of : ℕ → ℕ
preamble_of word =
    let preamb = word / 2 ^ 22 % 256 in
    if bit_and word 0x40000000 == 0 then preamb else bit_xor preamb 0xff

module _ {ℓ} {B : Type ℓ} where
  -- `if (rtcm->nbyte==0) {...}`: the search for the first word of a message.
  unfoldable pub synchronize : Rtcm2 B → Rtcm2 B
  synchronize r =
      if not (preamble_of r.word == rtcm2_preamb) then r else elim (decode_word r.word r.buff 0) [
        | none ↦ r
        | some buff ↦ record r { buff = buff; nbyte = 3; nbit = 0 }
      ]

  -- `rtcm->nbyte+=3;` and the length, on the words after the first; whether the message is complete.
  unfoldable pub extend : Rtcm2 B → Rtcm2 B × Bool
  extend r =
      let nbyte = r.nbyte + 3 in
      let len = if nbyte == 6 then byte_at r.buff 5 / 2 ^ 3 * 3 + 6 else r.len in
      if ltb nbyte len
      then (record r { nbyte = nbyte; len = len }, false)
      else (record r { nbyte = 0; len = len; word = bit_and r.word 0x3 }, true)

  -- The body of the loop for one bit that has been shifted in.
  unfoldable pub take_bit : Rtcm2 B → Rtcm2 B × Bool
  take_bit r =
      if r.nbyte == 0
      then (synchronize r, false)
      else if ltb (r.nbit + 1) 30
      then (record r { nbit = r.nbit + 1 }, false)
      else elim (decode_word r.word r.buff r.nbyte) [
        | none ↦ (record r { nbit = 0; nbyte = 0; word = bit_and r.word 0x3 }, false)
        | some buff ↦ extend (record r { nbit = 0; buff = buff })
      ]

module _ {ℓ} {B : Type ℓ} (decode_rtcm2 : Rtcm2 B → Rtcm2 B × ℤ) where
  -- `for (i=0;i<6;i++,data>>=1)`, with the rounds left; the loop is left when a message is complete.
  unfoldable pub bit_loop : ℕ → ℕ → Rtcm2 B → Rtcm2 B × ℤ
  bit_loop zero byte r = (r, pos 0)
  bit_loop (suc left) byte r =
      let step = take_bit (record r { word = (r.word * 2 % 2 ^ 32 + bit_and byte 1) % 2 ^ 32 }) in
      elim step.1 [ true ↦ decode_rtcm2 step.0 | false ↦ bit_loop left (byte / 2) step.0 ]

  unfoldable pub input_rtcm2 : Rtcm2 B → ℕ → Rtcm2 B × ℤ
  input_rtcm2 r byte = if bit_and byte 0xc0 == 0x40 then bit_loop 6 byte r else (r, pos 0)

  -- A byte stream.
  unfoldable pub feed_rtcm2 : Rtcm2 B → List ℕ → Rtcm2 B
  feed_rtcm2 r [] = r
  feed_rtcm2 r (byte ∷ bytes) = feed_rtcm2 (input_rtcm2 r byte).0 bytes
