-- ===== src/Ephemeris/Beidou/RoundTrip.antt =====
-- `decode_type1042` after `encode_type1042`.
use go_ntrip.Base.{ℕ, ◌+◌, ◌*◌, ◌≤◌, ◌≡◌, refl, ap, ◌∙◌, List, length, true, pos, le→ltb}
use go_ntrip.Bits.Cell.{IsBytes}
use go_ntrip.Bits.Message.{Field, AllFit, Reads, Agrees}
use go_ntrip.Rtcm.{Rtcm}
use go_ntrip.Satellite.{System, System.cmp, PrnRanges, satno}
use go_ntrip.Satellite.Numbers.{IsRange}
use go_ntrip.Ephemeris.{Doubles, Clock, Eph, NavState, save_eph}
use go_ntrip.Ephemeris.RoundTrip.{sent_eph, sent_prn, encode_eph-Reads, encode_eph-satno}
use go_ntrip.Ephemeris.Beidou.{
  Words1042, fields_1042, read_1042, words_1042, eph_1042, unchanged_1042, encode_type1042,
  sat_1042, decode_type1042,
}

-- A buffer that holds the fields of the words is read as these words.
read-fields : (w : Words1042) (buff : List ℕ) → Reads buff 24 (fields_1042 w) → read_1042 buff ≡ w
unfolding fields_1042 read_1042
read-fields w buff h = cc

module _ {D T : Type 0} (d : Doubles D) (k : Clock D T) (c : PrnRanges)
    (r : Rtcm (NavState D T)) where
  abbrev pub fields : Eph D T → ℕ → List Field
  fields eph prn = fields_1042 (words_1042 d k eph prn)

  -- The words that the encoder writes.
  abbrev pub w : Words1042
  w = words_1042 d k (sent_eph d k c cmp fields r) (sent_prn d k c cmp fields r)

  decode_long :
      (t : Rtcm (NavState D T))
      → 36 + 499 ≤ t.len * 8
      → decode_type1042 d k c t
        ≡ save_eph d k
            (unchanged_1042 d k)
            t
            (eph_1042 d k (read_1042 t.buff) (sat_1042 d k c (read_1042 t.buff)) t.body.time)
  unfolding decode_type1042
  decode_long t long = rw (le→ltb (t.len * 8) (36 + 499) long) refl

  sat_sent : sat_1042 d k c w ≡ satno c cmp (pos (sent_prn d k c cmp fields r))
  unfolding sat_1042 words_1042
  sat_sent = refl

  -- When encode_type1042 accepts the BeiDou ephemeris of its satellite, the rounded words fit
  -- their fields, and a receiver's buffer agrees with the encoder's on the bits of the message and
  -- is long enough, decode_type1042 reads back every word and the satellite's number, and ends as
  -- the end of the decoder does on the ephemeris of these words.
  pub decode-encode_type1042 :
      ((s : System) → IsRange c s)
      → IsBytes r.buff
      → 535 ≤ 8 * length r.buff
      → (encode_type1042 d k c r).1 ≡ true
      → AllFit (fields_1042 w)
      → (t : Rtcm (NavState D T)) → 36 + 499 ≤ t.len * 8
      → Agrees t.buff (encode_type1042 d k c r).0.buff 24 (encode_type1042 d k c r).0.nbit
      → decode_type1042 d k c t
        ≡ save_eph d k (unchanged_1042 d k) t (eph_1042 d k w r.body.ephsat t.body.time)
  unfolding encode_type1042 fields_1042
  decode-encode_type1042 ranges bytes room done fit t long same =
      let held = encode_eph-Reads d k c cmp fields r done t.buff bytes fit room same in
      let number = encode_eph-satno d k c cmp fields r done ranges (λ e. cc) in
      let words : read_1042 t.buff ≡ w = read-fields w t.buff held in
      let sat : sat_1042 d k c w ≡ r.body.ephsat = sat_sent ∙ number.1 in
      decode_long t long
      ∙ ap
          (λ v. save_eph d k (unchanged_1042 d k) t (eph_1042 d k v (sat_1042 d k c v) t.body.time))
          words
      ∙ ap (λ n. save_eph d k (unchanged_1042 d k) t (eph_1042 d k w n t.body.time)) sat
