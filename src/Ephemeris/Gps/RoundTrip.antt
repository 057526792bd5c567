-- ===== src/Ephemeris/Gps/RoundTrip.antt =====
-- `decode_type1019` after `encode_type1019`.
use go_ntrip.Base.{
  ℕ, ◌+◌, ◌*◌, ◌≤◌, ◌<◌, ◌≡◌, refl, ap, ◌∙◌, List, length, true, pos, arith, le→ltb,
}
use go_ntrip.Bits.Cell.{IsBytes}
use go_ntrip.Bits.Message.{Field, AllFit, Reads, Agrees}
use go_ntrip.Rtcm.{Rtcm}
use go_ntrip.Satellite.{System, System.gps, PrnRanges, satno}
use go_ntrip.Satellite.Numbers.{IsRange}
use go_ntrip.Ephemeris.{Doubles, Clock, Eph, NavState, save_eph}
use go_ntrip.Ephemeris.RoundTrip.{sent_eph, sent_prn, encode_eph-Reads, encode_eph-satno}
use go_ntrip.Ephemeris.Gps.{
  Words1019, fields_1019, read_1019, words_1019, eph_1019, unchanged_1019, encode_type1019,
  sat_1019, decode_type1019,
}

-- A buffer that holds the fields of the words is read as these words.
read-fields : (w : Words1019) (buff : List ℕ) → Reads buff 24 (fields_1019 w) → read_1019 buff ≡ w
unfolding fields_1019 read_1019
read-fields w buff h = cc

module _ {D T : Type 0} (d : Doubles D) (k : Clock D T) (c : PrnRanges)
    (r : Rtcm (NavState D T)) where
  abbrev pub fields : Eph D T → ℕ → List Field
  fields eph prn = fields_1019 (words_1019 d k eph prn)

  -- The words that the encoder writes.
  abbrev pub w : Words1019
  w = words_1019 d k (sent_eph d k c gps fields r) (sent_prn d k c gps fields r)

  decode_long :
      (t : Rtcm (NavState D T))
      → 36 + 476 ≤ t.len * 8
      → decode_type1019 d k c t
        ≡ save_eph d k
            (unchanged_1019 d k)
            t
            (eph_1019 d k (read_1019 t.buff) (sat_1019 d k c (read_1019 t.buff)) t.body.time)
  unfolding decode_type1019
  decode_long t long = rw (le→ltb (t.len * 8) (36 + 476) long) refl

  sat_small :
      sent_prn d k c gps fields r < 40
      → sat_1019 d k c w ≡ satno c gps (pos (sent_prn d k c gps fields r))
  unfolding sat_1019 words_1019
  sat_small few = ground arith

  -- When encode_type1019 accepts the GPS ephemeris of its satellite, the rounded words fit their
  -- fields and the prn is below 40, and a receiver's buffer agrees with the encoder's on the bits
  -- of the message and is long enough, decode_type1019 reads back every word and the satellite's
  -- number, and ends as the end of the decoder does on the ephemeris of these words.
  pub decode-encode_type1019 :
      ((s : System) → IsRange c s)
      → IsBytes r.buff
      → 512 ≤ 8 * length r.buff
      → (encode_type1019 d k c r).1 ≡ true
      → AllFit (fields_1019 w)
      → sent_prn d k c gps fields r < 40
      → (t : Rtcm (NavState D T)) → 36 + 476 ≤ t.len * 8
      → Agrees t.buff (encode_type1019 d k c r).0.buff 24 (encode_type1019 d k c r).0.nbit
      → decode_type1019 d k c t
        ≡ save_eph d k (unchanged_1019 d k) t (eph_1019 d k w r.body.ephsat t.body.time)
  unfolding encode_type1019 fields_1019
  decode-encode_type1019 ranges bytes room done fit few t long same =
      let held = encode_eph-Reads d k c gps fields r done t.buff bytes fit room same in
      let number = encode_eph-satno d k c gps fields r done ranges (λ e. cc) in
      let words : read_1019 t.buff ≡ w = read-fields w t.buff held in
      let sat : sat_1019 d k c w ≡ r.body.ephsat = sat_small few ∙ number.1 in
      decode_long t long
      ∙ ap
          (λ v. save_eph d k (unchanged_1019 d k) t (eph_1019 d k v (sat_1019 d k c v) t.body.time))
          words
      ∙ ap (λ n. save_eph d k (unchanged_1019 d k) t (eph_1019 d k w n t.body.time)) sat
