-- ===== src/Ephemeris/GalileoF/RoundTrip.antt =====
-- `decode_type1045` after `encode_type1045`.
use go_ntrip.Base.{ℕ, ◌+◌, ◌*◌, ◌≤◌, ◌≡◌, refl, ap, ◌∙◌, List, length, true, pos, le→ltb}
use go_ntrip.Bits.Cell.{IsBytes}
use go_ntrip.Bits.Message.{Field, AllFit, Reads, Agrees}
use go_ntrip.Rtcm.{Rtcm}
use go_ntrip.Satellite.{System, System.gal, PrnRanges, satno}
use go_ntrip.Satellite.Numbers.{IsRange}
use go_ntrip.Ephemeris.{Doubles, Clock, Eph, NavState, save_eph}
use go_ntrip.Ephemeris.RoundTrip.{sent_eph, sent_prn, encode_eph-Reads, encode_eph-satno}
use go_ntrip.Ephemeris.GalileoF.{
  Words1045, fields_1045, read_1045, words_1045, eph_1045, unchanged_1045, encode_type1045,
  sat_1045, decode_type1045,
}

-- A buffer that holds the fields of the words is read as these words.
read-fields : (w : Words1045) (buff : List ℕ) → Reads buff 24 (fields_1045 w) → read_1045 buff ≡ w
unfolding fields_1045 read_1045
read-fields w buff h = cc

module _ {D T : Type 0} (d : Doubles D) (k : Clock D T) (c : PrnRanges)
    (r : Rtcm (NavState D T)) where
  abbrev pub fields : Eph D T → ℕ → List Field
  fields eph prn = fields_1045 (words_1045 d k eph prn)

  -- The words that the encoder writes.
  abbrev pub w : Words1045
  w = words_1045 d k (sent_eph d k c gal fields r) (sent_prn d k c gal fields r)

  decode_long :
      (t : Rtcm (NavState D T))
      → 36 + 484 ≤ t.len * 8
      → decode_type1045 d k c t
        ≡ save_eph d k
            (unchanged_1045 d k)
            t
            (eph_1045 d k (read_1045 t.buff) (sat_1045 d k c (read_1045 t.buff)) t.body.time)
  unfolding decode_type1045
  decode_long t long = rw (le→ltb (t.len * 8) (36 + 484) long) refl

  sat_sent : sat_1045 d k c w ≡ satno c gal (pos (sent_prn d k c gal fields r))
  unfolding sat_1045 words_1045
  sat_sent = refl

  -- When encode_type1045 accepts the Galileo F/NAV ephemeris of its satellite, the rounded words
  -- fit their fields, and a receiver's buffer agrees with the encoder's on the bits of the message
  -- and is long enough, decode_type1045 reads back every word and the satellite's number, and ends
  -- as the end of the decoder does on the ephemeris of these words.
  pub decode-encode_type1045 :
      ((s : System) → IsRange c s)
      → IsBytes r.buff
      → 520 ≤ 8 * length r.buff
      → (encode_type1045 d k c r).1 ≡ true
      → AllFit (fields_1045 w)
      → (t : Rtcm (NavState D T)) → 36 + 484 ≤ t.len * 8
      → Agrees t.buff (encode_type1045 d k c r).0.buff 24 (encode_type1045 d k c r).0.nbit
      → decode_type1045 d k c t
        ≡ save_eph d k (unchanged_1045 d k) t (eph_1045 d k w r.body.ephsat t.body.time)
  unfolding encode_type1045 fields_1045
  decode-encode_type1045 ranges bytes room done fit t long same =
      let held = encode_eph-Reads d k c gal fields r done t.buff bytes fit room same in
      let number = encode_eph-satno d k c gal fields r done ranges (λ e. cc) in
      let words : read_1045 t.buff ≡ w = read-fields w t.buff held in
      let sat : sat_1045 d k c w ≡ r.body.ephsat = sat_sent ∙ number.1 in
      decode_long t long
      ∙ ap
          (λ v. save_eph d k (unchanged_1045 d k) t (eph_1045 d k v (sat_1045 d k c v) t.body.time))
          words
      ∙ ap (λ n. save_eph d k (unchanged_1045 d k) t (eph_1045 d k w n t.body.time)) sat
