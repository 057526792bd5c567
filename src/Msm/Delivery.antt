-- ===== src/Msm/Delivery.antt =====
-- A multiple signal message from `gen_rtcm3` over the line to `input_rtcm3` and its decoder.
use go_ntrip.Base.{ℕ, ◌+◌, ◌*◌, ◌≤◌, ◌≡◌, sym, subst, ap, ◌∙◌, length, take, Bool, true, ℤ, arith}
use go_ntrip.Bits.Cell.{IsBytes}
use go_ntrip.Bits.Message.{AllFit, AllFit-AreFields, Agrees, total, write_fields-IsMessage}
use go_ntrip.Rtcm.{Rtcm, start_frame, gen_rtcm3, feed}
use go_ntrip.Ephemeris.Link.{start_frame-IsPut}
use go_ntrip.Rtcm.Generate.{IsEncoded, Extends, gen_rtcm3_iff, gen_rtcm3-IsGenerated}
use go_ntrip.Rtcm.Receive.{statuses, store}
use go_ntrip.Rtcm.Delivery.{gen_rtcm3-feed}
use go_ntrip.Satellite.{System}
use go_ntrip.Station.{test_staid}
use go_ntrip.Obs.{ObsState}
use go_ntrip.Msm.{FullMsm}
use go_ntrip.Msm.Values.{Setup}
use go_ntrip.Msm.Encode.{encode_msm, encode_full, full_words}
use go_ntrip.Msm.Decode.{Priorities, decode_msm}
use go_ntrip.Msm.RoundTrip.{with_cells}
use go_ntrip.Msm.Sent.{
  sent_body, sent_fields, encode_full_out, decode_msm-encode_full, total-sent_fields,
}

module _ {D T : Type 0} (x : Setup D T) (sys : System) (kind : FullMsm) (sync : ℕ) where
  encode_full-IsEncoded :
      (r : Rtcm (ObsState D T))
      → (encode_full x kind sys sync r).1 ≡ true
      → IsBytes r.buff
      → AllFit (sent_fields x sys kind sync r)
      → 24 + total (sent_fields x sys kind sync r) + 31 ≤ 8 * length r.buff
      → IsEncoded r (encode_full x kind sys sync r).0
  encode_full-IsEncoded r done bytes fit room =
      let fs = sent_fields x sys kind sync r in
      let out = (encode_full x kind sys sync r).0 in
      let m = write_fields-IsMessage fs r.buff 24 bytes (AllFit-AreFields fs fit) (omega arith) in
      let e = encode_full_out x sys kind sync r done in
      let extends : Extends r.buff 24 out.buff =
        subst (λ b. Extends r.buff 24 b) (sym e.0)
          (record { same_length = m.same_length; bytes = m.bytes; before = m.before }) in
      record {
        extends = extends;
        starts = omega (arith, e.1);
        room = omega (arith, e.1, extends.same_length);
      }

  encode_full-start_frame :
      (r : Rtcm (ObsState D T))
      → (encode_full x kind sys sync r).1 ≡ true
      → (encode_full x kind sys sync (start_frame r)).1 ≡ true
  unfolding encode_full encode_msm start_frame
  encode_full-start_frame r h = ground arith

module _ {D T : Type 0} (x : Setup D T) (sys : System) (pri : Priorities) (kind : FullMsm) where
  abbrev pub encoder : Rtcm (ObsState D T) → ℕ → ℕ → Rtcm (ObsState D T) × Bool
  encoder r type sync = encode_full x kind sys sync r

  abbrev pub decoder : Rtcm (ObsState D T) → Rtcm (ObsState D T) × ℤ
  decoder = decode_msm x sys pri kind

  module _ (type sync : ℕ) (r t : Rtcm (ObsState D T)) where
    abbrev pub sent : Rtcm (ObsState D T)
    sent = (gen_rtcm3 encoder r type sync).0

    -- What the receiver hands to its decoder.
    abbrev pub handed_over : Rtcm (ObsState D T)
    handed_over = record t {
      buff = store t.buff 0 (take sent.nbyte sent.buff);
      nbyte = 0;
      len = sent.len;
    }

    abbrev pub result : Rtcm (ObsState D T) × ℤ
    result =
        with_cells x sys (sent_body x sys kind sync r).head handed_over pri kind
          (full_words x kind (sent_body x sys kind sync r))

    -- When the encoder of MSM4, 5, 6 or 7 accepts its system, the observations give at most 64
    -- cells, the words fit their fields, the buffer has room, and the receiver's test of the
    -- station id accepts the sender's, gen_rtcm3 succeeds; and its bytes, fed to an idle receiver
    -- whose buffer holds them, give status 0 for each byte but the last, at which the decoder of
    -- the same kind has read back the head, the masks and every column, and saves the observations
    -- that these words say.
    pub gen_rtcm3-feed_msm :
        IsBytes r.buff
        → (encode_full x kind sys sync r).1 ≡ true
        → (sent_body x sys kind sync r).index.nsat * (sent_body x sys kind sync r).index.nsig ≤ 64
        → AllFit (sent_fields x sys kind sync r)
        → 24 + total (sent_fields x sys kind sync r) + 31 ≤ 8 * length r.buff
        → t.nbyte ≡ 0
        → sent.len + 3 ≤ length t.buff
        → (test_staid t.body.station r.body.station.staid).1 ≡ true
        → ((gen_rtcm3 encoder r type sync).1 ≡ true)
          × (feed decoder t (take sent.nbyte sent.buff)
              ≡ (result.0, statuses (sent.len + 2) result.1))
    unfolding start_frame Agrees
    gen_rtcm3-feed_msm bytes accepts small fit room idle space accepted =
        let start = start_frame-IsPut r bytes (omega arith) in
        let taken = encode_full-start_frame x sys kind sync r accepts in
        let encodes =
          encode_full-IsEncoded x sys kind sync (start_frame r) taken start.bytes fit
            (omega (arith, start.same_length)) in
        let nbit = (encode_full_out x sys kind sync (start_frame r) taken).1 in
        let done : (gen_rtcm3 encoder r type sync).1 ≡ true =
          (gen_rtcm3_iff encoder r type sync bytes (omega arith) encodes).1
            (taken, omega (arith, nbit, total-sent_fields x sys kind sync (start_frame r) small)) in
        let g = gen_rtcm3-IsGenerated encoder r type sync bytes (omega arith) encodes done in
        let arrives =
          gen_rtcm3-feed encoder decoder r type sync bytes (omega arith) encodes done t idle
            space in
        let stored =
          decode_msm-encode_full x sys kind sync (start_frame r) pri handed_over start.bytes taken
            small fit (omega (arith, start.same_length)) (omega (arith, g.whole, nbit)) arrives.1
            accepted in
        (done, arrives.0 ∙ ap (λ o. (o.0, statuses (sent.len + 2) o.1)) stored)
