-- ===== src/Ephemeris/GalileoI/RoundTrip.antt =====
-- `decode_type1046` after `encode_type1046`.
use go_ntrip.Base.{ℕ, ◌+◌, ◌*◌, ◌≤◌, ◌≡◌, refl, ap, ◌∙◌, List, length, true, pos, le→ltb}
use go_ntrip.Bits.Cell.{IsBytes}
use go_ntrip.Bits.Message.{Field, AllFit, Reads, Agrees}
use go_ntrip.Rtcm.{Rtcm}
use go_ntrip.Satellite.{System, System.gal, PrnRanges, satno}
use go_ntrip.Satellite.Numbers.{IsRange}
use go_ntrip.Ephemeris.{Doubles, Clock, Eph, NavState, save_eph}
use go_ntrip.Ephemeris.RoundTrip.{sent_eph, sent_prn, encode_eph-Reads, encode_eph-satno}
use go_ntrip.Ephemeris.GalileoI.{
  Words1046, fields_1046, read_1046, words_1046, eph_1046, unchanged_1046, encode_type1046,
  sat_1046, decode_type1046,
}

-- A buffer that holds the fields of the words is read as these words.
read-fields : (w : Words1046) (buff : List ℕ) → Reads buff 24 (fields_1046 w) → read_1046 buff ≡ w
unfolding fields_1046 read_1046
read-fields w buff h = cc

module _ {D T : Type 0} (d : Doubles D) (k : Clock D T) (c : PrnRanges)
    (r : Rtcm (NavState D T)) where
  abbrev pub fields : Eph D T → ℕ → List Field
  fields eph prn = fields_1046 (words_1046 d k eph prn)

  -- The words that the encoder writes.
  abbrev pub w : Words1046
  w = words_1046 d k (sent_eph d k c gal fields r) (sent_prn d k c gal fields r)

  decode_long :
      (t : Rtcm (NavState D T))
      → 36 + 492 ≤ t.len * 8
      → decode_type1046 d k c t
        ≡ save_eph d k
            (unchanged_1046 d k)
            t
            (eph_1046 d k (read_1046 t.buff) (sat_1046 d k c (read_1046 t.buff)) t.body.time)
  unfolding decode_type1046
  decode_long t long = rw (le→ltb (t.len * 8) (36 + 492) long) refl

  sat_sent : sat_1046 d k c w ≡ satno c gal (pos (sent_prn d k c gal fields r))
  unfolding sat_1046 words_1046
  sat_sent = refl

  -- When encode_type1046 accepts the Galileo I/NAV ephemeris of its satellite, the rounded words
  -- fit their fields, and a receiver's buffer agrees with the encoder's on the bits of the message
  -- and is long enough, decode_type1046 reads back every word and the satellite's number, and ends
  -- as the end of the decoder does on the ephemeris of these words.
  pub decode-encode_type1046 :
      ((s : System) → IsRange c s)
      → IsBytes r.buff
      → 526 ≤ 8 * length r.buff
      → (encode_type1046 d k c r).1 ≡ true
      → AllFit (fields_1046 w)
      → (t : Rtcm (NavState D T)) → 36 + 492 ≤ t.len * 8
      → Agrees t.buff (encode_type1046 d k c r).0.buff 24 (encode_type1046 d k c r).0.nbit
      → decode_type1046 d k c t
        ≡ save_eph d k (unchanged_1046 d k) t (eph_1046 d k w r.body.ephsat t.body.time)
  unfolding encode_type1046 fields_1046
  decode-encode_type1046 ranges bytes room done fit t long same =
      let held = encode_eph-Reads d k c gal fields r done t.buff bytes fit room same in
      let number = encode_eph-satno d k c gal fields r done ranges (λ e. cc) in
      let words : read_1046 t.buff ≡ w = read-fields w t.buff held in
      let sat : sat_1046 d k c w ≡ r.body.ephsat = sat_sent ∙ number.1 in
      decode_long t long
      ∙ ap
          (λ v. save_eph d k (unchanged_1046 d k) t (eph_1046 d k v (sat_1046 d k c v) t.body.time))
          words
      ∙ ap (λ n. save_eph d k (unchanged_1046 d k) t (eph_1046 d k w n t.body.time)) sat
