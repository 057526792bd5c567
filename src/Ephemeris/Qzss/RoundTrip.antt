-- ===== src/Ephemeris/Qzss/RoundTrip.antt =====
-- `decode_type1044` after `encode_type1044`.
use go_ntrip.Base.{
  ℕ, ◌+◌, ◌-◌, ◌*◌, ◌%◌, ◌^◌, ◌≤◌, ◌<◌, ◌≡◌, refl, ap, ◌∙◌, List, length, true, pos, arith, le→ltb,
}
use go_ntrip.Bits.Cell.{IsBytes}
use go_ntrip.Bits.Message.{Field, AllFit, Reads, Agrees}
use go_ntrip.Rtcm.{Rtcm}
use go_ntrip.Satellite.{System, System.qzs, PrnRanges, satno}
use go_ntrip.Satellite.Numbers.{IsRange}
use go_ntrip.Ephemeris.{Doubles, Clock, Eph, NavState, save_eph}
use go_ntrip.Ephemeris.RoundTrip.{sent_eph, sent_prn, encode_eph-Reads, encode_eph-satno}
use go_ntrip.Ephemeris.Qzss.{
  Words1044, fields_1044, read_1044, words_1044, eph_1044, unchanged_1044, encode_type1044,
  sat_1044, decode_type1044,
}

-- A buffer that holds the fields of the words is read as these words.
read-fields : (w : Words1044) (buff : List ℕ) → Reads buff 24 (fields_1044 w) → read_1044 buff ≡ w
unfolding fields_1044 read_1044
read-fields w buff h = cc

module _ {D T : Type 0} (d : Doubles D) (k : Clock D T) (c : PrnRanges)
    (r : Rtcm (NavState D T)) where
  abbrev pub fields : Eph D T → ℕ → List Field
  fields eph prn = fields_1044 (words_1044 d k eph prn)

  -- The words that the encoder writes.
  abbrev pub w : Words1044
  w = words_1044 d k (sent_eph d k c qzs fields r) (sent_prn d k c qzs fields r)

  decode_long :
      (t : Rtcm (NavState D T))
      → 36 + 473 ≤ t.len * 8
      → decode_type1044 d k c t
        ≡ save_eph d k
            (unchanged_1044 d k)
            t
            (eph_1044 d k (read_1044 t.buff) (sat_1044 d k c (read_1044 t.buff)) t.body.time)
  unfolding decode_type1044
  decode_long t long = rw (le→ltb (t.len * 8) (36 + 473) long) refl

  sat_from :
      192 ≤ sent_prn d k c qzs fields r
      → sent_prn d k c qzs fields r < 2 ^ 32
      → sat_1044 d k c w ≡ satno c qzs (pos (sent_prn d k c qzs fields r))
  unfolding sat_1044 words_1044
  sat_from from narrow =
      ap (λ (n : ℕ). satno c qzs (pos n))
        {x = (sent_prn d k c qzs fields r + (2 ^ 32 - 192)) % 2 ^ 32 + 192}
        {y = sent_prn d k c qzs fields r} (omega arith)

  -- When encode_type1044 accepts the QZSS ephemeris of its satellite, the rounded words fit their
  -- fields and the prn is from 192 to 2 ^ 32, and a receiver's buffer agrees with the encoder's on
  -- the bits of the message and is long enough, decode_type1044 reads back every word and the
  -- satellite's number, and ends as the end of the decoder does on the ephemeris of these words.
  pub decode-encode_type1044 :
      ((s : System) → IsRange c s)
      → IsBytes r.buff
      → 509 ≤ 8 * length r.buff
      → (encode_type1044 d k c r).1 ≡ true
      → AllFit (fields_1044 w)
      → 192 ≤ sent_prn d k c qzs fields r
      → sent_prn d k c qzs fields r < 2 ^ 32
      → (t : Rtcm (NavState D T)) → 36 + 473 ≤ t.len * 8
      → Agrees t.buff (encode_type1044 d k c r).0.buff 24 (encode_type1044 d k c r).0.nbit
      → decode_type1044 d k c t
        ≡ save_eph d k (unchanged_1044 d k) t (eph_1044 d k w r.body.ephsat t.body.time)
  unfolding encode_type1044 fields_1044
  decode-encode_type1044 ranges bytes room done fit from narrow t long same =
      let held = encode_eph-Reads d k c qzs fields r done t.buff bytes fit room same in
      let number = encode_eph-satno d k c qzs fields r done ranges (λ e. cc) in
      let words : read_1044 t.buff ≡ w = read-fields w t.buff held in
      let sat : sat_1044 d k c w ≡ r.body.ephsat = sat_from from narrow ∙ number.1 in
      decode_long t long
      ∙ ap
          (λ v. save_eph d k (unchanged_1044 d k) t (eph_1044 d k v (sat_1044 d k c v) t.body.time))
          words
      ∙ ap (λ n. save_eph d k (unchanged_1044 d k) t (eph_1044 d k w n t.body.time)) sat
