-- ===== src/Ephemeris/Link.antt =====
-- `gen_rtcm3` around the encoder of an ephemeris: what the framing asks of an encoder holds of it.
use go_ntrip.Base.{ℕ, ◌+◌, ◌*◌, ◌≤◌, ◌≡◌, sym, subst, List, [], ◌∷◌, length, true, arith}
use go_ntrip.Bits.Cell.{IsBytes}
use go_ntrip.Bits.Fields.{IsPut, put-IsPut}
use go_ntrip.Bits.Message.{
  Field, AllFit, total, AllFit-AreFields, write_fields, write_fields-IsMessage,
}
use go_ntrip.Rtcm.{Rtcm, rtcm3_preamb, start_frame}
use go_ntrip.Rtcm.Generate.{IsEncoded, Extends}
use go_ntrip.Satellite.{System, PrnRanges}
use go_ntrip.Ephemeris.{Doubles, Clock, Eph, NavState, encode_eph}
use go_ntrip.Ephemeris.RoundTrip.{sent_fields, encode_eph-buff, encode_eph-nbit}

pub start_frame-IsPut :
    {B : Type 0} (r : Rtcm B)
    → IsBytes r.buff
    → 3 ≤ length r.buff
    → IsPut r.buff 0 ((8, rtcm3_preamb) ∷ (6, 0) ∷ (10, 0) ∷ []) (start_frame r).buff
unfolding start_frame
start_frame-IsPut r bytes room = put-IsPut _ r.buff 0 bytes (omega arith) (omega arith)

module _ {D T : Type 0} (d : Doubles D) (k : Clock D T) (c : PrnRanges) (sys : System)
    (fields : Eph D T → ℕ → List Field) (r : Rtcm (NavState D T)) where
  pub encode_eph-IsEncoded :
      (encode_eph d k c sys fields r).1 ≡ true
      → IsBytes r.buff
      → AllFit (sent_fields d k c sys fields r)
      → 24 + total (sent_fields d k c sys fields r) + 31 ≤ 8 * length r.buff
      → IsEncoded r (encode_eph d k c sys fields r).0
  encode_eph-IsEncoded done bytes fit room =
      let fs = sent_fields d k c sys fields r in
      let out = (encode_eph d k c sys fields r).0 in
      let m = write_fields-IsMessage fs r.buff 24 bytes (AllFit-AreFields fs fit) (omega arith) in
      let e : (write_fields r.buff 24 fs).0 ≡ out.buff =
        sym (encode_eph-buff d k c sys fields r done) in
      let nbit = encode_eph-nbit d k c sys fields r done in
      let extends : Extends r.buff 24 out.buff =
        subst (λ b. Extends r.buff 24 b) e
          (record { same_length = m.same_length; bytes = m.bytes; before = m.before }) in
      record {
        extends = extends;
        starts = omega (arith, nbit);
        room = omega (arith, nbit, extends.same_length);
      }

  -- The header that is written first does not change what the encoder accepts.
  pub encode_eph-start_frame :
      (encode_eph d k c sys fields r).1 ≡ true
      → (encode_eph d k c sys fields (start_frame r)).1 ≡ true
  unfolding encode_eph start_frame
  encode_eph-start_frame h = ground arith
