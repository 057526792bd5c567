-- ===== src/Tests/Weeks.antt =====
-- The units of ephemerides, with the conversions of times that rtkcmn.c has.
use go_ntrip.Base.{ℕ, ◌+◌, ◌-◌, ◌≡◌, arith}
use go_ntrip.Time.{Gtime}
use go_ntrip.Ephemeris.{Clock, round}
use go_ntrip.Ephemeris.Gps.{words_1019, eph_1019}
use go_ntrip.Ephemeris.Weeks.{gps_clock, words_1019-eph_1019}
use go_ntrip.Tests.Doubles.{numbers, numbers-IsExact}
use go_ntrip.Tests.Ephemeris.{words1019, words1019-AllFit}

abbrev noon : Gtime ℕ
noon = record { time = 1456747200; sec = 0 }

-- The conversions for GPS are replaced by those of rtkcmn.c.
abbrev other_times : Clock ℕ (Gtime ℕ)
other_times = record {
  no_time = record { time = 0; sec = 0 };
  gpst2time = λ week sec. noon;
  time2gpst = λ t. 0;
  bdt2time = λ week sec. noon;
  time2bdt = λ t. 0;
  gpst2bdt = λ t. record t { time = t.time - 14 };
  bdt2gpst = λ t. record t { time = t.time + 14 };
  timediff = λ a b. a.time - b.time;
  gps_week = 2100;
  bdt_week = 1950;
}

words_1019-eph_1019_example :
    words_1019 numbers
      (gps_clock numbers other_times)
      (eph_1019 numbers (gps_clock numbers other_times) words1019 7 noon)
      7
    ≡ words1019
unfolding words_1019 round
words_1019-eph_1019_example =
    words_1019-eph_1019 numbers other_times (numbers-IsExact (gps_clock numbers other_times))
      words1019 words1019-AllFit (omega arith) (omega arith) 7 noon
