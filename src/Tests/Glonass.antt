-- ===== src/Tests/Glonass.antt =====
-- Type 1020 with plain numbers for doubles.
use go_ntrip.Base.{ℕ, ◌+◌, ◌*◌, ◌-◌, ◌/◌, ◌%◌, ◌≡◌, refl, true, replicate, ◌==◌, arith}
use go_ntrip.Bits.Message.{AllFit, Agrees}
use go_ntrip.Rtcm.{Rtcm}
use go_ntrip.Satellite.{satsys, find_sys, prn_of, maxsat}
use go_ntrip.Ephemeris.{same_sys, sys_id, round}
use go_ntrip.Glonass.{
  Calendar, Geph, GloState, fields_1020, field_g, magnitude, moscow, leap_start, words_1020,
  unread_1020, encode_type1020, decode_words, decode_type1020,
}
use go_ntrip.Glonass.RoundTrip.{decode-encode_type1020}
use go_ntrip.Tests.Doubles.{numbers, seconds, ranges}
use go_ntrip.Tests.Ephemeris.{blank-IsBytes}

abbrev pub calendar : Calendar ℕ ℕ
calendar = record {
  neg = λ a. 0 - a;
  abs = λ a. a;
  fmod = λ a b. a - a / b * b;
  gpst2utc = λ t. t - 18;
  utc2gpst = λ t. t + 18;
  timeadd = λ t s. t + s;
  timediff = λ a b. a - b;
  time2epoch = λ t. record {
    year = 2020;
    month = 1;
    day = 1 + t / 86400;
    hour = t % 86400 / 3600;
    minute = t % 3600 / 60;
    second = t % 60;
  };
  epoch2time = λ ep. ep.hour * 3600 + ep.minute * 60 + ep.second;
  tow = λ t. t % 604800;
  week = λ t. t / 604800;
  gpst2time = λ w s. w * 604800 + s;
  now = 9000;
  is_zero = λ t. t == 0;
}

abbrev glonass : Geph ℕ ℕ
glonass = record {
  sat = 37;
  iode = 11;
  frq = 2;
  svh = 0;
  age = 1;
  toe = 9018;
  tof = 7218;
  vel0 = 1000;
  pos0 = 2000;
  acc0 = 3000;
  vel1 = 1000;
  pos1 = 2000;
  acc1 = 3000;
  vel2 = 1000;
  pos2 = 2000;
  acc2 = 3000;
  taun = 7;
  gamn = 3;
  dtaun = 1;
}

abbrev holding_glonass : Rtcm (GloState ℕ ℕ)
holding_glonass = record {
  nbyte = 0;
  nbit = 0;
  len = 0;
  buff = replicate 80 0;
  body = record { gephs = λ index. glonass; ephsat = 37; time = 7300; ephall = true };
}

slot : (satsys ranges 37).1 ≡ 5
unfolding satsys find_sys prn_of maxsat
slot = refl

glonass_sent : (encode_type1020 numbers seconds calendar ranges holding_glonass).1 ≡ true
unfolding encode_type1020 satsys find_sys prn_of maxsat same_sys sys_id
glonass_sent = refl

glonass_fits : AllFit (
    fields_1020
      (words_1020 numbers seconds calendar glonass 5)
      (unread_1020 numbers seconds calendar glonass))
unfolding fields_1020 field_g words_1020 unread_1020 magnitude moscow leap_start round
glonass_fits = omega arith

abbrev glonass_receiver : Rtcm (GloState ℕ ℕ)
glonass_receiver = record holding_glonass {
  buff = (encode_type1020 numbers seconds calendar ranges holding_glonass).0.buff;
  len = 48;
}

decode-encode_type1020_example :
    decode_type1020 numbers seconds calendar ranges glonass_receiver
    ≡ decode_words numbers seconds calendar ranges glonass_receiver
        (words_1020 numbers seconds calendar glonass (satsys ranges 37).1)
unfolding Agrees
decode-encode_type1020_example =
    decode-encode_type1020 numbers seconds calendar ranges holding_glonass blank-IsBytes
      (omega arith) glonass_sent (rw slot glonass_fits) glonass_receiver (omega arith)
      (λ q n narrow from upto. refl)
