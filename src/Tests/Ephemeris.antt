-- ===== src/Tests/Ephemeris.antt =====
-- The ephemeris messages with plain numbers for doubles.
use go_ntrip.Base.{ℕ, ◌+◌, ◌-◌, ◌%◌, ◌^◌, ◌≤◌, ◌<◌, ◌≡◌, refl, arith, replicate, true, [], ◌∷◌}
use go_ntrip.Bits.Cell.{IsBytes, AllBytes-IsBytes}
use go_ntrip.Bits.Message.{AllFit, Reads-write_fields, Reads, write_fields, Field.u, Field.s}
use go_ntrip.Rtcm.{Rtcm}
use go_ntrip.Satellite.{satsys, find_sys, prn_of, maxsat}
use go_ntrip.Ephemeris.{Eph, NavState, round, round_u, encode_eph, same_sys, sys_id, near_week}
use go_ntrip.Ephemeris.Exact.{near_week-congruent}
use go_ntrip.Ephemeris.Gps.{Words1019, fields_1019, words_1019, encode_type1019}
use go_ntrip.Ephemeris.Beidou.{Words1042, fields_1042, words_1042, encode_type1042}
use go_ntrip.Ephemeris.Qzss.{Words1044, fields_1044, words_1044, encode_type1044}
use go_ntrip.Ephemeris.GalileoF.{Words1045, fields_1045, words_1045, encode_type1045}
use go_ntrip.Ephemeris.GalileoI.{Words1046, fields_1046, words_1046, encode_type1046}
use go_ntrip.Tests.Doubles.{root_loop, numbers, seconds, ranges}

abbrev pub known : ℕ → Eph ℕ ℕ
known sat = record {
  sat = sat;
  iode = 17;
  iodc = 17;
  sva = 2;
  svh = 0;
  week = 2000;
  code = 1;
  flag = 0;
  toe = 7200;
  toc = 7200;
  ttr = 7000;
  a = 25;
  e = 5;
  i0 = 958;
  omg0 = 77;
  omg = 12;
  m0 = 450;
  deln = 5;
  omgd = 8;
  idot = 3;
  crc = 21;
  crs = 18;
  cuc = 1;
  cus = 2;
  cic = 3;
  cis = 4;
  toes = 7200;
  fit = 0;
  f0 = 9;
  f1 = 2;
  f2 = 0;
  tgd0 = 5;
  tgd1 = 6;
}

abbrev pub holding : ℕ → Rtcm (NavState ℕ ℕ)
holding sat = record {
  nbyte = 0;
  nbit = 0;
  len = 0;
  buff = replicate 80 0;
  body = record { ephs = λ index. known (index + 1); ephsat = sat; time = 7300; ephall = true };
}

pub blank-IsBytes : IsBytes (replicate 80 0)
blank-IsBytes = AllBytes-IsBytes (replicate 80 0) (omega arith)

near_week-congruent_example :
    (near_week 1560 2310 261 % 1024 ≡ 261)
    × (2310 < near_week 1560 2310 261 + 512)
    × (near_week 1560 2310 261 ≤ 2310 + 512)
near_week-congruent_example =
    near_week-congruent 1560 2310 261 (omega arith) (omega arith) (omega arith)

Reads-write_fields_example :
    Reads
      (write_fields (replicate 80 0) 24 (u 12 1019 ∷ s 14 (2 ^ 32 - 3) ∷ [])).0
      24
      (u 12 1019 ∷ s 14 (2 ^ 32 - 3) ∷ [])
Reads-write_fields_example =
    Reads-write_fields (u 12 1019 ∷ s 14 (2 ^ 32 - 3) ∷ []) (replicate 80 0) 24 blank-IsBytes
      (omega arith) (omega arith)

pub sent_1019 : (encode_type1019 numbers seconds ranges (holding 7)).1 ≡ true
unfolding encode_type1019 encode_eph satsys find_sys prn_of maxsat same_sys sys_id
sent_1019 = refl

pub sent_1042 : (encode_type1042 numbers seconds ranges (holding 95)).1 ≡ true
unfolding encode_type1042 encode_eph satsys find_sys prn_of maxsat same_sys sys_id
sent_1042 = refl

pub sent_1044 : (encode_type1044 numbers seconds ranges (holding 89)).1 ≡ true
unfolding encode_type1044 encode_eph satsys find_sys prn_of maxsat same_sys sys_id
sent_1044 = refl

pub sent_1045 : (encode_type1045 numbers seconds ranges (holding 60)).1 ≡ true
unfolding encode_type1045 encode_eph satsys find_sys prn_of maxsat same_sys sys_id
sent_1045 = refl

pub sent_1046 : (encode_type1046 numbers seconds ranges (holding 60)).1 ≡ true
unfolding encode_type1046 encode_eph satsys find_sys prn_of maxsat same_sys sys_id
sent_1046 = refl

abbrev pub words1019 : Words1019
words1019 = words_1019 numbers seconds (known 7) 7

pub words1019-AllFit : AllFit (fields_1019 words1019)
unfolding fields_1019 words_1019 round round_u root_loop
words1019-AllFit = omega arith

pub prn_1019 : (satsys ranges 7).1 ≡ 7
unfolding satsys find_sys prn_of maxsat
prn_1019 = refl

abbrev words1042 : Words1042
words1042 = words_1042 numbers seconds (known 95) 2

pub words1042-AllFit : AllFit (fields_1042 words1042)
unfolding fields_1042 words_1042 round round_u root_loop
words1042-AllFit = omega arith

pub prn_1042 : (satsys ranges 95).1 ≡ 2
unfolding satsys find_sys prn_of maxsat
prn_1042 = refl

abbrev words1044 : Words1044
words1044 = words_1044 numbers seconds (known 89) 195

pub words1044-AllFit : AllFit (fields_1044 words1044)
unfolding fields_1044 words_1044 round round_u root_loop
words1044-AllFit = omega arith

pub prn_1044 : (satsys ranges 89).1 ≡ 195
unfolding satsys find_sys prn_of maxsat
prn_1044 = refl

abbrev words1045 : Words1045
words1045 = words_1045 numbers seconds (known 60) 4

pub words1045-AllFit : AllFit (fields_1045 words1045)
unfolding fields_1045 words_1045 round round_u root_loop
words1045-AllFit = omega arith

pub prn_1045 : (satsys ranges 60).1 ≡ 4
unfolding satsys find_sys prn_of maxsat
prn_1045 = refl

abbrev words1046 : Words1046
words1046 = words_1046 numbers seconds (known 60) 4

pub words1046-AllFit : AllFit (fields_1046 words1046)
unfolding fields_1046 words_1046 round round_u root_loop
words1046-AllFit = omega arith

pub prn_1046 : (satsys ranges 60).1 ≡ 4
unfolding satsys find_sys prn_of maxsat
prn_1046 = refl
