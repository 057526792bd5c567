-- ===== src/Ephemeris/Beidou/Delivery.antt =====
-- A message of type 1042 from `gen_rtcm3` over the line to `input_rtcm3` and its decoder.
use go_ntrip.Base.{ℕ, ◌+◌, ◌*◌, ◌≤◌, ◌≡◌, ap, ◌∙◌, length, take, Bool, true, ℤ, arith}
use go_ntrip.Bits.Cell.{IsBytes}
use go_ntrip.Bits.Message.{AllFit, Agrees}
use go_ntrip.Rtcm.{Rtcm, start_frame, gen_rtcm3, feed}
use go_ntrip.Ephemeris.Link.{start_frame-IsPut}
use go_ntrip.Rtcm.Generate.{gen_rtcm3_iff, gen_rtcm3-IsGenerated}
use go_ntrip.Rtcm.Receive.{statuses, store}
use go_ntrip.Rtcm.Delivery.{gen_rtcm3-feed}
use go_ntrip.Satellite.{System, System.cmp, PrnRanges}
use go_ntrip.Satellite.Numbers.{IsRange}
use go_ntrip.Ephemeris.{Doubles, Clock, NavState, encode_eph, save_eph}
use go_ntrip.Ephemeris.RoundTrip.{encode_eph-nbit}
use go_ntrip.Ephemeris.Link.{encode_eph-IsEncoded, encode_eph-start_frame}
use go_ntrip.Ephemeris.Beidou.{
  fields_1042, eph_1042, unchanged_1042, encode_type1042, decode_type1042,
}
use go_ntrip.Ephemeris.Beidou.RoundTrip.{fields, w, decode-encode_type1042}

module _ {D T : Type 0} (d : Doubles D) (k : Clock D T) (c : PrnRanges) where
  abbrev pub encoder : Rtcm (NavState D T) → ℕ → ℕ → Rtcm (NavState D T) × Bool
  encoder r type sync = encode_type1042 d k c r

  abbrev pub decoder : Rtcm (NavState D T) → Rtcm (NavState D T) × ℤ
  decoder = decode_type1042 d k c

  abbrev pub sent : Rtcm (NavState D T) → ℕ → Rtcm (NavState D T)
  sent r sync = (gen_rtcm3 encoder r 1042 sync).0

  -- What the receiver hands to its decoder.
  abbrev pub handed_over : Rtcm (NavState D T) → ℕ → Rtcm (NavState D T) → Rtcm (NavState D T)
  handed_over r sync t = record t {
    buff = store t.buff 0 (take (sent r sync).nbyte (sent r sync).buff);
    nbyte = 0;
    len = (sent r sync).len;
  }

  abbrev pub result : Rtcm (NavState D T) → ℕ → Rtcm (NavState D T) → Rtcm (NavState D T) × ℤ
  result r sync t =
      save_eph d k (unchanged_1042 d k) (handed_over r sync t)
        (eph_1042 d k (w d k c r) r.body.ephsat t.body.time)

  -- When encode_type1042 accepts the BeiDou ephemeris of its satellite, the rounded words fit
  -- their fields and the buffer has room, gen_rtcm3 succeeds; and its bytes, fed to an idle
  -- receiver whose buffer holds them, give status 0 for each byte but the last, at which
  -- decode_type1042 has read back every word and the satellite's number and stores the ephemeris
  -- of these words, or reports it unchanged.
  pub gen_rtcm3-feed_1042 :
      ((s : System) → IsRange c s)
      → (r : Rtcm (NavState D T)) → IsBytes r.buff
      → 535 + 31 ≤ 8 * length r.buff
      → (encode_type1042 d k c r).1 ≡ true
      → AllFit (fields_1042 (w d k c r))
      → (sync : ℕ) (t : Rtcm (NavState D T)) → t.nbyte ≡ 0
      → (sent r sync).len + 3 ≤ length t.buff
      → ((gen_rtcm3 encoder r 1042 sync).1 ≡ true)
        × (feed decoder t (take (sent r sync).nbyte (sent r sync).buff)
            ≡ ((result r sync t).0, statuses ((sent r sync).len + 2) (result r sync t).1))
  unfolding encode_type1042 encode_eph start_frame fields_1042 Agrees
  gen_rtcm3-feed_1042 ranges r bytes room accepts fit sync t idle space =
      let start = start_frame-IsPut r bytes (omega arith) in
      let taken = encode_eph-start_frame d k c cmp (fields d k c r) r accepts in
      let encodes =
        encode_eph-IsEncoded d k c cmp (fields d k c r) (start_frame r) taken start.bytes fit
          (omega (arith, start.same_length)) in
      let nbit = encode_eph-nbit d k c cmp (fields d k c r) (start_frame r) taken in
      let done : (gen_rtcm3 encoder r 1042 sync).1 ≡ true =
        (gen_rtcm3_iff encoder r 1042 sync bytes (omega arith) encodes).1
          (taken, omega (arith, nbit)) in
      let g = gen_rtcm3-IsGenerated encoder r 1042 sync bytes (omega arith) encodes done in
      let arrives =
        gen_rtcm3-feed encoder decoder r 1042 sync bytes (omega arith) encodes done t idle space in
      let stored =
        decode-encode_type1042 d k c (start_frame r) ranges start.bytes
          (omega (arith, start.same_length)) taken fit (handed_over r sync t)
          (omega (arith, g.whole, nbit)) arrives.1 in
      (done, arrives.0 ∙ ap (λ o. (o.0, statuses ((sent r sync).len + 2) o.1)) stored)
