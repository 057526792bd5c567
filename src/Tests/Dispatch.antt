-- ===== src/Tests/Dispatch.antt =====
-- The switches on a multiple signal message.
use go_ntrip.Base.{ℕ, ◌≡◌, refl, true, false, some, pos, ℤ, Bool, arith}
use go_ntrip.Bits.Message.{Agrees}
use go_ntrip.Rtcm.{Rtcm}
use go_ntrip.Satellite.{System.gps}
use go_ntrip.Station.{test_staid}
use go_ntrip.Obs.{ObsState}
use go_ntrip.Msm.{FullMsm.msm7}
use go_ntrip.Msm.Encode.{encode_full, encode_msm, first_number, full_words}
use go_ntrip.Msm.Decode.{decode_msm}
use go_ntrip.Msm.RoundTrip.{with_cells}
use go_ntrip.Msm.Sent.{sent_body}
use go_ntrip.Dispatch.Tables.{Decoder, Decoder.msm, Encoder, Encoder.full, decoders}
use go_ntrip.Dispatch.{lookup, Counted, inside, outside, with_count, decode_rtcm3, encode_rtcm3}
use go_ntrip.Dispatch.Match.{counterpart, lookup-counterpart, decode_rtcm3-encode_rtcm3}
use go_ntrip.Tests.Msm.{setup, observing, priorities, one_cell, msm7_fits, msm7_length}
use go_ntrip.Tests.Ephemeris.{blank-IsBytes}

lookup-counterpart_example : lookup decoders 1077 ≡ some (counterpart (full msm7 gps))
unfolding lookup
lookup-counterpart_example = lookup-counterpart 1077 (full msm7 gps) refl

abbrev run_encoder : Encoder → ℕ → Rtcm (ObsState ℕ ℕ) → Rtcm (ObsState ℕ ℕ) × Bool
run_encoder (full kind sys) = encode_full setup kind sys
run_encoder _ = λ sync r. (r, false)

abbrev run_decoder : Decoder → Rtcm (ObsState ℕ ℕ) → Rtcm (ObsState ℕ ℕ) × ℤ
run_decoder (msm kind sys) = decode_msm setup sys priorities kind
run_decoder _ = λ r. (r, pos 0)

abbrev counting : Rtcm (Counted (ObsState ℕ ℕ))
counting = outside (λ k. 0) observing

switched : (encode_rtcm3 run_encoder counting 1077 0).1 ≡ true
unfolding encode_rtcm3 lookup encode_full encode_msm first_number outside inside
switched = refl

abbrev counting_receiver : Rtcm (Counted (ObsState ℕ ℕ))
counting_receiver = record counting { buff = (encode_rtcm3 run_encoder counting 1077 0).0.buff }

decode_rtcm3-encode_rtcm3_example :
    decode_rtcm3 run_decoder (λ st. st) counting_receiver
    ≡ with_count
        (λ k. 0)
        1077
        (with_cells setup gps
          (sent_body setup gps msm7 0 observing).head
          (inside counting_receiver)
          priorities
          msm7
          (full_words setup msm7 (sent_body setup gps msm7 0 observing)))
unfolding Agrees test_staid outside inside lookup
decode_rtcm3-encode_rtcm3_example =
    decode_rtcm3-encode_rtcm3 setup gps msm7 0 1077 priorities (λ st. st) run_encoder run_decoder
      counting counting_receiver refl refl refl blank-IsBytes switched one_cell msm7_fits
      (omega (arith, msm7_length)) (omega (arith, msm7_length)) (λ q n narrow from upto. refl) refl
