-- ===== src/Station/RoundTrip.antt =====
-- `decode_type1005` after `encode_type1005`, and the same for 1006.
use go_ntrip.Base.{ℕ, ◌+◌, ◌*◌, ◌≤◌, ◌≡◌, ap, List, length, true, ◌==◌, arith, le→ltb}
use go_ntrip.Bits.Cell.{IsBytes}
use go_ntrip.Bits.Message.{
  Field, AllFit, Reads, Agrees, Reads-agree, Reads-write_fields, write_fields, total,
  write_fields_end,
}
use go_ntrip.Rtcm.{Rtcm}
use go_ntrip.Ephemeris.{Doubles, Clock}
use go_ntrip.Station.{
  StaState, StaWords, fields38, position_fields, fields_1005, fields_1006, read_38, read_1005,
  read_1006, words_1005, words_1006, encode_sta, encode_type1005, encode_type1006, save_sta,
  decode_type1005, decode_type1006,
}

read-fields_1005 :
    (w : StaWords) (buff : List ℕ)
    → Reads buff 24 (fields_1005 w)
    → read_1005 buff ≡ record w { hgt = 0 }
unfolding fields_1005 read_1005 fields38 position_fields read_38
read-fields_1005 w buff h = cc

read-fields_1006 :
    (w : StaWords) (buff : List ℕ) → Reads buff 24 (fields_1006 w) → read_1006 buff ≡ w
unfolding fields_1006 read_1006 fields38 position_fields read_38
read-fields_1006 w buff h = cc

module _ {D T : Type 0} (d : Doubles D) (k : Clock D T) (r t : Rtcm (StaState D))
    (bytes : IsBytes r.buff) where
  held :
      (fs : List Field)
      → AllFit fs
      → 24 + total fs ≤ 8 * length r.buff
      → Agrees t.buff (encode_sta d k fs r).0.buff 24 (encode_sta d k fs r).0.nbit
      → Reads t.buff 24 fs
  unfolding encode_sta
  held fs fit room same =
      Reads-agree fs t.buff (write_fields r.buff 24 fs).0 24 24 (write_fields r.buff 24 fs).1 fit
        (omega arith) (omega (arith, write_fields_end fs r.buff 24)) same
        (Reads-write_fields fs r.buff 24 bytes fit room)

  -- When the words that encode_type1005 makes of its station fit their fields, its buffer has
  -- room, and a receiver's buffer of 22 bytes agrees with it on the bits of the message,
  -- decode_type1005 ends as the end of the decoder does on exactly these words: id, ITRF year and
  -- the three 38-bit coordinates.
  pub decode-encode_type1005 :
      176 ≤ 8 * length r.buff
      → AllFit (fields_1005 (words_1005 d k r.body))
      → t.len ≡ 22
      → Agrees t.buff (encode_type1005 d k r).0.buff 24 (encode_type1005 d k r).0.nbit
      → decode_type1005 d k t ≡ save_sta d k 0 (d.num 0) t (words_1005 d k r.body)
  unfolding encode_type1005 decode_type1005 fields_1005 position_fields fields38 words_1005
  decode-encode_type1005 room fit long same =
      let w = words_1005 d k r.body in
      let reads = held (fields_1005 w) fit (omega (arith, room)) same in
      let whole : (36 + 140 == t.len * 8) ≡ true = ground arith in
      rw whole (ap (λ v. save_sta d k 0 (d.num 0) t v) (read-fields_1005 w t.buff reads))

  -- When the words that encode_type1006 makes of its station fit their fields, its buffer has
  -- room, and a receiver's buffer of at least 24 bytes agrees with it on the bits of the message,
  -- decode_type1006 ends as the end of the decoder does on exactly these words, the antenna height
  -- included.
  pub decode-encode_type1006 :
      192 ≤ 8 * length r.buff
      → AllFit (fields_1006 (words_1006 d k r.body))
      → 24 ≤ t.len
      → Agrees t.buff (encode_type1006 d k r).0.buff 24 (encode_type1006 d k r).0.nbit
      → let w = words_1006 d k r.body in
        decode_type1006 d k t ≡ save_sta d k 1 (d.mul (d.of_uint w.hgt) d.e_4) t w
  unfolding encode_type1006 decode_type1006 fields_1006 position_fields fields38 words_1006
  decode-encode_type1006 room fit long same =
      let w = words_1006 d k r.body in
      let reads = held (fields_1006 w) fit (omega (arith, room)) same in
      rw (le→ltb (t.len * 8) (36 + 156) (omega arith)) (
        ap (λ v. save_sta d k 1 (d.mul (d.of_uint v.hgt) d.e_4) t v)
          (read-fields_1006 w t.buff reads))
