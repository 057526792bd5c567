-- ===== src/Ephemeris/Weeks.antt =====
-- The times of the ephemerides by gpst2time and time2gpst of c/rtklib/rtkcmn.c.
use go_ntrip.Base.{ℕ, ◌*◌, ◌<◌, ◌≡◌, ap, sym, subst, arith}
use go_ntrip.Bits.Message.{AllFit}
use go_ntrip.Time.{Gtime, Reference.gpst0, week2time, time2week}
use go_ntrip.Time.Scales.{time2week-week2time}
use go_ntrip.Ephemeris.{Doubles, Clock}
use go_ntrip.Ephemeris.Exact.{IsExact, KeepsWeek}
use go_ntrip.Ephemeris.Gps.{Words1019, fields_1019, words_1019, eph_1019}
use go_ntrip.Ephemeris.Gps.Units.{words-eph_1019}
use go_ntrip.Ephemeris.GalileoF.{Words1045, fields_1045, words_1045, eph_1045}
use go_ntrip.Ephemeris.GalileoF.Units.{words-eph_1045}

-- The clock with the conversions of GPS times that rtkcmn.c has.
abbrev pub gps_clock : {D : Type 0} → Doubles D → Clock D (Gtime D) → Clock D (Gtime D)
gps_clock d k = record k { gpst2time = week2time d gpst0; time2gpst = λ t. (time2week d gpst0 t).1 }

module _ {D : Type 0} (d : Doubles D) (k : Clock D (Gtime D)) (x : IsExact d (gps_clock d k)) where
  gps_clock-KeepsWeek : KeepsWeek d (gps_clock d k)
  gps_clock-KeepsWeek = record {
    gps_time = λ week n m bounded in_week.
        let sec = d.mul (d.of_uint n) (d.num m) in
        let whole = x.product n m in_week in
        ap (λ s. s.1)
          (time2week-week2time d gpst0 week sec bounded (omega (arith, whole, in_week))
            (x.product_above n m in_week) (x.product_below n m in_week)
            (subst (λ s. d.add (d.of_int s) (d.sub sec (d.of_int s)) ≡ sec) (sym whole)
              (x.product_split n m in_week)));
  }

  -- In doubles that survive scaling by a unit and back, with gpst2time and time2gpst as rtkcmn.c
  -- has them, the words that fit a GPS message are the words that encode_type1019 rounds the
  -- members of the ephemeris decoded from them to, if the clock time lies within a week and the
  -- computer's clock is before the GPS week 3038, so that gpst2time does not overflow: both sides
  -- use the same unit for each member.
  pub words_1019-eph_1019 :
      (w : Words1019)
      → AllFit (fields_1019 w)
      → w.toc * 16 < 604800
      → k.gps_week < 3038
      → (sat : ℕ) (now : Gtime D)
      → words_1019 d (gps_clock d k) (eph_1019 d (gps_clock d k) w sat now) w.prn ≡ w
  words_1019-eph_1019 w fit in_week soon sat now =
      words-eph_1019 d (gps_clock d k) x gps_clock-KeepsWeek w fit in_week soon sat now

  -- The same of Galileo F/NAV, whose weeks count from 1024 on.
  pub words_1045-eph_1045 :
      (w : Words1045)
      → AllFit (fields_1045 w)
      → w.toc * 60 < 604800
      → w.week < 2526
      → (sat : ℕ) (now : Gtime D)
      → words_1045 d (gps_clock d k) (eph_1045 d (gps_clock d k) w sat now) w.prn ≡ w
  words_1045-eph_1045 w fit in_week soon sat now =
      words-eph_1045 d (gps_clock d k) x gps_clock-KeepsWeek w fit in_week soon sat now
