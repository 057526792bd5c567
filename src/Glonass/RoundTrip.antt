-- ===== src/Glonass/RoundTrip.antt =====
-- `decode_type1020` after `encode_type1020`.
use go_ntrip.Base.{ℕ, ◌+◌, ◌-◌, ◌*◌, ◌≤◌, ◌≡◌, sym, ap, subst, List, length, true, arith, le→ltb}
use go_ntrip.Bits.Cell.{IsBytes}
use go_ntrip.Bits.Message.{
  AllFit, Reads, Agrees, Reads-agree, Reads-write_fields, write_fields, write_fields_end,
}
use go_ntrip.Rtcm.{Rtcm}
use go_ntrip.Satellite.{PrnRanges, satsys}
use go_ntrip.Ephemeris.{Doubles, Clock}
use go_ntrip.Glonass.{
  Calendar, Geph, GloState, Words1020, Unread1020, field_g, read_g, fields_1020, read_1020,
  words_1020, unread_1020, encode_type1020, decode_words, decode_type1020,
}

read-fields :
    (w : Words1020) (x : Unread1020) (buff : List ℕ)
    → Reads buff 24 (fields_1020 w x)
    → read_1020 buff ≡ w
unfolding fields_1020 read_1020 field_g read_g
read-fields w x buff h = cc

module _ {D T : Type 0} (d : Doubles D) (k : Clock D T) (g : Calendar D T) (c : PrnRanges)
    (r : Rtcm (GloState D T)) where
  abbrev pub sent_geph : Geph D T
  sent_geph = r.body.gephs ((satsys c r.body.ephsat).1 - 1)

  abbrev pub w : Words1020
  w = words_1020 d k g sent_geph (satsys c r.body.ephsat).1

  abbrev pub x : Unread1020
  x = unread_1020 d k g sent_geph

  encoded-buff :
      (encode_type1020 d k g c r).1 ≡ true
      → (encode_type1020 d k g c r).0.buff ≡ (write_fields r.buff 24 (fields_1020 w x)).0
  unfolding encode_type1020
  encoded-buff done = ground arith

  encoded-nbit :
      (encode_type1020 d k g c r).1 ≡ true
      → (encode_type1020 d k g c r).0.nbit ≡ (write_fields r.buff 24 (fields_1020 w x)).1
  unfolding encode_type1020
  encoded-nbit done = ground arith

  -- When encode_type1020 accepts the GLONASS ephemeris of its satellite, all words fit their
  -- fields, its buffer has room, and a receiver's buffer of at least 48 bytes agrees with it on
  -- the bits of the message, decode_type1020 goes on with exactly the words that it reads from
  -- them, signs and magnitudes included.
  pub decode-encode_type1020 :
      IsBytes r.buff
      → 384 ≤ 8 * length r.buff
      → (encode_type1020 d k g c r).1 ≡ true
      → AllFit (fields_1020 w x)
      → (t : Rtcm (GloState D T)) → 48 ≤ t.len
      → Agrees t.buff (encode_type1020 d k g c r).0.buff 24 (encode_type1020 d k g c r).0.nbit
      → decode_type1020 d k g c t ≡ decode_words d k g c t w
  unfolding decode_type1020 fields_1020 field_g
  decode-encode_type1020 bytes room done fit t long same =
      let fs = fields_1020 w x in
      let sound : Reads (encode_type1020 d k g c r).0.buff 24 fs =
        subst (λ b. Reads b 24 fs) (sym (encoded-buff done))
          (Reads-write_fields fs r.buff 24 bytes fit (omega (arith, room))) in
      let reads =
        Reads-agree fs t.buff (encode_type1020 d k g c r).0.buff 24 24
          (encode_type1020 d k g c r).0.nbit fit (omega arith)
          (omega (arith, encoded-nbit done, write_fields_end fs r.buff 24)) same sound in
      rw (le→ltb (t.len * 8) (36 + 348) (omega arith))
        (ap (λ v. decode_words d k g c t v) (read-fields w x t.buff reads))
