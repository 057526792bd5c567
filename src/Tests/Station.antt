-- ===== src/Tests/Station.antt =====
-- The station messages, type 63 and the lock indicators with plain numbers for doubles.
use go_ntrip.Base.{ℕ, ◌*◌, ◌-◌, ◌≡◌, refl, true, false, replicate, none, pos, arith}
use go_ntrip.Bits.Message.{AllFit, Agrees}
use go_ntrip.Rtcm.{Rtcm}
use go_ntrip.Satellite.{satsys, find_sys, prn_of, maxsat}
use go_ntrip.Ephemeris.{NavState, encode_eph, save_eph, same_sys, sys_id, round, round_u}
use go_ntrip.Ephemeris.Beidou.{
  fields_63, words_1042, eph_1042, unchanged_1042, encode_type63, decode_type1042,
}
use go_ntrip.Ephemeris.Beidou.Draft.{decode_type1042-encode_type63}
use go_ntrip.Lock.{Locks, to_lock, to_msm_lock_ex, lossoflock}
use go_ntrip.Lock.Slip.{lossoflock-to_lock}
use go_ntrip.Station.{
  StaState, fields_1005, fields_1006, fields38, position_fields, words_1005, words_1006, split38,
  height, encode_type1005, encode_type1006, save_sta, decode_type1005, decode_type1006,
}
use go_ntrip.Station.RoundTrip.{decode-encode_type1005, decode-encode_type1006}
use go_ntrip.Tests.Doubles.{numbers, seconds, ranges, ranges-IsRange, root_loop}
use go_ntrip.Tests.Ephemeris.{holding, known, blank-IsBytes, prn_1042}

abbrev base : StaState ℕ
base = record {
  sta = record {
    deltype = 0;
    x = 40000000;
    y = 3000;
    z = 4900000;
    del_x = 0;
    del_y = 0;
    del_z = 0;
    hgt = 1500;
    itrf = 0;
  };
  staid = 2003;
  obsflag = false;
  only = none;
}

abbrev sender : Rtcm (StaState ℕ)
sender = record { nbyte = 0; nbit = 0; len = 0; buff = replicate 80 0; body = base }

fit_1005 : AllFit (fields_1005 (words_1005 numbers seconds base))
unfolding fields_1005 fields38 position_fields words_1005 split38
fit_1005 = omega arith

fit_1006 : AllFit (fields_1006 (words_1006 numbers seconds base))
unfolding fields_1006 fields38 position_fields words_1005 words_1006 split38 height round
fit_1006 = omega arith

abbrev receiver_1005 : Rtcm (StaState ℕ)
receiver_1005 = record sender { buff = (encode_type1005 numbers seconds sender).0.buff; len = 22 }

abbrev receiver_1006 : Rtcm (StaState ℕ)
receiver_1006 = record sender { buff = (encode_type1006 numbers seconds sender).0.buff; len = 24 }

decode-encode_type1005_example :
    decode_type1005 numbers seconds receiver_1005
    ≡ save_sta numbers seconds 0 0 receiver_1005 (words_1005 numbers seconds base)
unfolding Agrees
decode-encode_type1005_example =
    decode-encode_type1005 numbers seconds sender receiver_1005 blank-IsBytes (omega arith) fit_1005
      refl (λ q n narrow from upto. refl)

decode-encode_type1006_example :
    decode_type1006 numbers seconds receiver_1006
    ≡ save_sta numbers seconds 1
        ((words_1006 numbers seconds base).hgt * 1)
        receiver_1006
        (words_1006 numbers seconds base)
unfolding Agrees
decode-encode_type1006_example =
    decode-encode_type1006 numbers seconds sender receiver_1006 blank-IsBytes (omega arith) fit_1006
      (omega arith) (λ q n narrow from upto. refl)

draft_sent : (encode_type63 numbers seconds ranges (holding 95)).1 ≡ true
unfolding encode_type63 encode_eph satsys find_sys prn_of maxsat same_sys sys_id
draft_sent = refl

draft_fits : AllFit (fields_63 (words_1042 numbers seconds (known 95) 2))
unfolding fields_63 words_1042 round round_u root_loop
draft_fits = omega arith

abbrev draft_receiver : Rtcm (NavState ℕ ℕ)
draft_receiver = record (holding 95) {
  buff = (encode_type63 numbers seconds ranges (holding 95)).0.buff;
  len = 67;
}

decode_type1042-encode_type63_example :
    decode_type1042 numbers seconds ranges draft_receiver
    ≡ save_eph numbers seconds (unchanged_1042 numbers seconds) draft_receiver (
        eph_1042 numbers seconds
          (words_1042 numbers seconds (known 95) (satsys ranges 95).1)
          95
          7300)
unfolding Agrees
decode_type1042-encode_type63_example =
    decode_type1042-encode_type63 numbers seconds ranges (holding 95) ranges-IsRange blank-IsBytes
      (omega arith) draft_sent (rw prn_1042 draft_fits) draft_receiver (omega arith)
      (λ q n narrow from upto. refl)

abbrev kept : Locks
kept s f = to_lock (pos 70)

-- The length of the tables of the standards at their ends.
last_locks : (to_lock (pos 936) ≡ 126) × (to_msm_lock_ex numbers 67108864 ≡ 704)
unfolding to_lock to_msm_lock_ex
last_locks = (refl, refl)

lossoflock-to_lock_example :
    ((lossoflock kept 5 0 (to_lock (pos 75))).1 ≡ false)
    × ((lossoflock kept 5 0 (to_lock (pos 75))).0 (5 - 1) 0 ≡ to_lock (pos 75))
lossoflock-to_lock_example = lossoflock-to_lock kept 5 0 70 75 refl (omega arith) (omega arith)
