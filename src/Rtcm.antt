-- ===== src/Rtcm.antt =====
-- c/rtklib/rtcm.c: the RTCM 3 frame, received byte by byte by `input_rtcm3` and built by
-- `gen_rtcm3`. `decode_rtcm3` and `encode_rtcm3` are arguments of the section, so that the framing
-- is checked for whatever they do; `Rtcm.Encoder` states what the framing asks of an encoder.
pub mod Header
pub mod Receive
pub mod Link
pub mod Delivery
pub mod File
pub mod Generate
pub mod Invariant
use go_ntrip.Base.{
  ℕ, zero, suc, ◌+◌, ◌-◌, ◌*◌, ◌/◌, ◌%◌, ◌^◌, List, [], ◌∷◌, Bool, true, false, ◌||◌, not, set, ltb,
  leb, ◌==◌, if◌then◌else◌, ℤ, pos,
}
use go_ntrip.Bits.{getbitu, setbitu}
use go_ntrip.Bits.Fields.{put}
use go_ntrip.Crc.{rtk_crc24q}

abbrev pub rtcm3_preamb : ℕ
rtcm3_preamb = 0xd3

-- The members of `rtcm_t` that the framing uses; `body` stands for all the others.
pub record Rtcm {ℓ} (B : Type ℓ) : Type ℓ where
  pub nbyte : ℕ
  pub nbit : ℕ
  pub len : ℕ
  pub buff : List ℕ
  pub body : B

module _ {ℓ} {B : Type ℓ} (decode_rtcm3 : Rtcm B → Rtcm B × ℤ) where
  -- The end of `input_rtcm3`, when the last byte of a frame has come: parity, then the message.
  unfoldable pub check_parity : Rtcm B → Rtcm B × ℤ
  check_parity r =
      if rtk_crc24q r.buff r.len == getbitu r.buff (r.len * 8) 24
      then decode_rtcm3 r
      else (r, pos 0)

  -- The part of `input_rtcm3` after the byte has been stored.
  unfoldable pub collect : Rtcm B → Rtcm B × ℤ
  collect r =
      let s = record r { len = if r.nbyte == 3 then getbitu r.buff 14 10 + 3 else r.len } in
      if ltb s.nbyte 3 || ltb s.nbyte (s.len + 3)
      then (s, pos 0)
      else check_parity (record s { nbyte = 0 })

  unfoldable pub input_rtcm3 : Rtcm B → ℕ → Rtcm B × ℤ
  input_rtcm3 r byte =
      let stored = record r { buff = set r.buff r.nbyte byte; nbyte = r.nbyte + 1 } in
      if r.nbyte == 0
      then (if byte == rtcm3_preamb then (stored, pos 0) else (r, pos 0))
      else collect stored

  -- A byte stream: the statuses of its bytes, in order.
  unfoldable pub feed : Rtcm B → List ℕ → Rtcm B × List ℤ
  feed r [] = (r, [])
  feed r (byte ∷ bytes) = let s = input_rtcm3 r byte in let t = feed s.0 bytes in (t.0, s.1 ∷ t.1)

-- `for (i=rtcm->nbit;i%8;i++) setbitu(rtcm->buff,i,1,0);`: the buffer and the last `i`.
unfoldable pub pad : ℕ → List ℕ → ℕ → List ℕ × ℕ
pad zero buff i = (buff, i)
pad (suc fuel) buff i =
    let rest = pad fuel (setbitu buff i 1 0) (i + 1) in if i % 8 == 0 then (buff, i) else rest

module _ {ℓ} {B : Type ℓ} where
  -- The message so far, with the preamble and room for the length.
  unfoldable pub start_frame : Rtcm B → Rtcm B
  start_frame r = record r {
    nbit = 0;
    len = 0;
    nbyte = 0;
    buff = put r.buff 0 ((8, rtcm3_preamb) ∷ (6, 0) ∷ (10, 0) ∷ []);
  }

  -- The end of `gen_rtcm3`: padding, length, parity.
  unfoldable pub close_frame : Rtcm B → Rtcm B × Bool
  close_frame r =
      let padded = pad 8 r.buff r.nbit in
      let i = padded.1 in
      let len = i / 8 in
      let buff = setbitu padded.0 14 10 ((len + 2 ^ 32 - 3) % 2 ^ 32) in
      let crc = rtk_crc24q buff len in
      if leb (3 + 1024) len
      then (record r { buff = padded.0; nbit = 0; len = 0 }, false)
      else (record r { buff = setbitu buff i 24 crc; len = len; nbyte = len + 3 }, true)

module _ {ℓ} {B : Type ℓ} (encode_rtcm3 : Rtcm B → ℕ → ℕ → Rtcm B × Bool) where
  unfoldable pub gen_rtcm3 : Rtcm B → ℕ → ℕ → Rtcm B × Bool
  gen_rtcm3 r type sync =
      let e = encode_rtcm3 (start_frame r) type sync in
      if e.1 then close_frame e.0 else (e.0, false)
