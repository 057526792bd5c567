-- ===== src/Tests/Line.antt =====
-- Ephemerides over the line, with plain numbers for doubles.
use go_ntrip.Base.{◌≡◌, refl, true, ◌+◌, arith, take}
use go_ntrip.Bits.{setbitu, setbits, write_loop, write_bit}
use go_ntrip.Bits.Fields.{put}
use go_ntrip.Bits.Message.{write_field, write_fields}
use go_ntrip.Rtcm.{start_frame, close_frame, pad, gen_rtcm3, feed}
use go_ntrip.Rtcm.Receive.{statuses}
use go_ntrip.Satellite.{satsys, find_sys, prn_of, maxsat}
use go_ntrip.Ephemeris.{round, round_u, encode_eph, same_sys, sys_id}
use go_ntrip.Tests.Doubles.{numbers, seconds, ranges, ranges-IsRange, root_loop}
use go_ntrip.Tests.Ephemeris.{holding, blank-IsBytes}
use go_ntrip.Ephemeris.Gps.{fields_1019, words_1019, encode_type1019}
use go_ntrip.Ephemeris.Gps.Delivery as Gps
use go_ntrip.Tests.Ephemeris.{sent_1019, words1019-AllFit, prn_1019}
use go_ntrip.Ephemeris.Beidou.{fields_1042, words_1042, encode_type1042}
use go_ntrip.Ephemeris.Beidou.Delivery as Beidou
use go_ntrip.Tests.Ephemeris.{sent_1042, words1042-AllFit, prn_1042}
use go_ntrip.Ephemeris.Qzss.{fields_1044, words_1044, encode_type1044}
use go_ntrip.Ephemeris.Qzss.Delivery as Qzss
use go_ntrip.Tests.Ephemeris.{sent_1044, words1044-AllFit, prn_1044}
use go_ntrip.Ephemeris.GalileoF.{fields_1045, words_1045, encode_type1045}
use go_ntrip.Ephemeris.GalileoF.Delivery as GalileoF
use go_ntrip.Tests.Ephemeris.{sent_1045, words1045-AllFit, prn_1045}
use go_ntrip.Ephemeris.GalileoI.{fields_1046, words_1046, encode_type1046}
use go_ntrip.Ephemeris.GalileoI.Delivery as GalileoI
use go_ntrip.Tests.Ephemeris.{sent_1046, words1046-AllFit, prn_1046}

length_1019 : (Gps.sent numbers seconds ranges (holding 7) 0).len ≡ 64
unfolding gen_rtcm3 encode_type1019 encode_eph start_frame close_frame pad put setbitu setbits
    write_loop write_bit write_field write_fields fields_1019 words_1019 round round_u root_loop
    satsys find_sys prn_of maxsat same_sys sys_id
length_1019 = refl

gen_rtcm3-feed_1019_example :
    ((gen_rtcm3 (Gps.encoder numbers seconds ranges) (holding 7) 1019 0).1 ≡ true)
    × (feed (Gps.decoder numbers seconds ranges) (holding 1) (
          take
            (Gps.sent numbers seconds ranges (holding 7) 0).nbyte
            (Gps.sent numbers seconds ranges (holding 7) 0).buff)
        ≡ (
          (Gps.result numbers seconds ranges (holding 7) 0 (holding 1)).0,
          statuses
              ((Gps.sent numbers seconds ranges (holding 7) 0).len + 2)
              (Gps.result numbers seconds ranges (holding 7) 0 (holding 1)).1,
        ))
gen_rtcm3-feed_1019_example =
    Gps.gen_rtcm3-feed_1019 numbers seconds ranges ranges-IsRange (holding 7) blank-IsBytes
      (omega arith) sent_1019 (rw prn_1019 words1019-AllFit) (omega (arith, prn_1019)) 0 (holding 1)
      refl (omega (arith, length_1019))

length_1042 : (Beidou.sent numbers seconds ranges (holding 95) 0).len ≡ 67
unfolding gen_rtcm3 encode_type1042 encode_eph start_frame close_frame pad put setbitu setbits
    write_loop write_bit write_field write_fields fields_1042 words_1042 round round_u root_loop
    satsys find_sys prn_of maxsat same_sys sys_id
length_1042 = refl

gen_rtcm3-feed_1042_example :
    ((gen_rtcm3 (Beidou.encoder numbers seconds ranges) (holding 95) 1042 0).1 ≡ true)
    × (feed (Beidou.decoder numbers seconds ranges) (holding 1) (
          take
            (Beidou.sent numbers seconds ranges (holding 95) 0).nbyte
            (Beidou.sent numbers seconds ranges (holding 95) 0).buff)
        ≡ (
          (Beidou.result numbers seconds ranges (holding 95) 0 (holding 1)).0,
          statuses
              ((Beidou.sent numbers seconds ranges (holding 95) 0).len + 2)
              (Beidou.result numbers seconds ranges (holding 95) 0 (holding 1)).1,
        ))
gen_rtcm3-feed_1042_example =
    Beidou.gen_rtcm3-feed_1042 numbers seconds ranges ranges-IsRange (holding 95) blank-IsBytes
      (omega arith) sent_1042 (rw prn_1042 words1042-AllFit) 0 (holding 1) refl
      (omega (arith, length_1042))

length_1044 : (Qzss.sent numbers seconds ranges (holding 89) 0).len ≡ 64
unfolding gen_rtcm3 encode_type1044 encode_eph start_frame close_frame pad put setbitu setbits
    write_loop write_bit write_field write_fields fields_1044 words_1044 round round_u root_loop
    satsys find_sys prn_of maxsat same_sys sys_id
length_1044 = refl

gen_rtcm3-feed_1044_example :
    ((gen_rtcm3 (Qzss.encoder numbers seconds ranges) (holding 89) 1044 0).1 ≡ true)
    × (feed (Qzss.decoder numbers seconds ranges) (holding 1) (
          take
            (Qzss.sent numbers seconds ranges (holding 89) 0).nbyte
            (Qzss.sent numbers seconds ranges (holding 89) 0).buff)
        ≡ (
          (Qzss.result numbers seconds ranges (holding 89) 0 (holding 1)).0,
          statuses
              ((Qzss.sent numbers seconds ranges (holding 89) 0).len + 2)
              (Qzss.result numbers seconds ranges (holding 89) 0 (holding 1)).1,
        ))
gen_rtcm3-feed_1044_example =
    Qzss.gen_rtcm3-feed_1044 numbers seconds ranges ranges-IsRange (holding 89) blank-IsBytes
      (omega arith) sent_1044 (rw prn_1044 words1044-AllFit) (omega (arith, prn_1044))
      (omega (arith, prn_1044)) 0 (holding 1) refl (omega (arith, length_1044))

length_1045 : (GalileoF.sent numbers seconds ranges (holding 60) 0).len ≡ 65
unfolding gen_rtcm3 encode_type1045 encode_eph start_frame close_frame pad put setbitu setbits
    write_loop write_bit write_field write_fields fields_1045 words_1045 round round_u root_loop
    satsys find_sys prn_of maxsat same_sys sys_id
length_1045 = refl

gen_rtcm3-feed_1045_example :
    ((gen_rtcm3 (GalileoF.encoder numbers seconds ranges) (holding 60) 1045 0).1 ≡ true)
    × (feed (GalileoF.decoder numbers seconds ranges) (holding 1) (
          take
            (GalileoF.sent numbers seconds ranges (holding 60) 0).nbyte
            (GalileoF.sent numbers seconds ranges (holding 60) 0).buff)
        ≡ (
          (GalileoF.result numbers seconds ranges (holding 60) 0 (holding 1)).0,
          statuses
              ((GalileoF.sent numbers seconds ranges (holding 60) 0).len + 2)
              (GalileoF.result numbers seconds ranges (holding 60) 0 (holding 1)).1,
        ))
gen_rtcm3-feed_1045_example =
    GalileoF.gen_rtcm3-feed_1045 numbers seconds ranges ranges-IsRange (holding 60) blank-IsBytes
      (omega arith) sent_1045 (rw prn_1045 words1045-AllFit) 0 (holding 1) refl
      (omega (arith, length_1045))

length_1046 : (GalileoI.sent numbers seconds ranges (holding 60) 0).len ≡ 66
unfolding gen_rtcm3 encode_type1046 encode_eph start_frame close_frame pad put setbitu setbits
    write_loop write_bit write_field write_fields fields_1046 words_1046 round round_u root_loop
    satsys find_sys prn_of maxsat same_sys sys_id
length_1046 = refl

gen_rtcm3-feed_1046_example :
    ((gen_rtcm3 (GalileoI.encoder numbers seconds ranges) (holding 60) 1046 0).1 ≡ true)
    × (feed (GalileoI.decoder numbers seconds ranges) (holding 1) (
          take
            (GalileoI.sent numbers seconds ranges (holding 60) 0).nbyte
            (GalileoI.sent numbers seconds ranges (holding 60) 0).buff)
        ≡ (
          (GalileoI.result numbers seconds ranges (holding 60) 0 (holding 1)).0,
          statuses
              ((GalileoI.sent numbers seconds ranges (holding 60) 0).len + 2)
              (GalileoI.result numbers seconds ranges (holding 60) 0 (holding 1)).1,
        ))
gen_rtcm3-feed_1046_example =
    GalileoI.gen_rtcm3-feed_1046 numbers seconds ranges ranges-IsRange (holding 60) blank-IsBytes
      (omega arith) sent_1046 (rw prn_1046 words1046-AllFit) 0 (holding 1) refl
      (omega (arith, length_1046))
