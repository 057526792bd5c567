-- ===== src/Tests/Time.antt =====
-- Dates and times.
use go_ntrip.Base.{ℕ, ◌≡◌, refl, arith}
use go_ntrip.Time.{Gtime, DateTime, epoch2time, time2epoch, Reference.gst0, week2time, time2week}
use go_ntrip.Time.RoundTrip.{IsDate, time2epoch-epoch2time, epoch2time-time2epoch}
use go_ntrip.Time.Scales.{time2week-week2time}
use go_ntrip.Tests.Doubles.{numbers}

-- The last second of a leap day.
abbrev leap_date : DateTime ℕ
leap_date = record { year = 2016; month = 2; day = 29; hour = 23; minute = 59; second = 59 }

leap_date-IsDate : IsDate numbers leap_date
leap_date-IsDate = record {
  from = omega arith;
  upto = omega arith;
  month_low = omega arith;
  month_high = omega arith;
  day_low = omega arith;
  day_high = omega arith;
  hour = omega arith;
  minute = omega arith;
  second = omega arith;
}

time2epoch-epoch2time_example : time2epoch numbers (epoch2time numbers leap_date) ≡ leap_date
time2epoch-epoch2time_example = time2epoch-epoch2time numbers leap_date leap_date-IsDate refl

-- The second before it.
abbrev leap_time : Gtime ℕ
leap_time = record { time = 1456790398; sec = 0 }

epoch2time-time2epoch_example :
    epoch2time numbers (time2epoch numbers leap_time) ≡ record { time = 1456790398; sec = 0 }
epoch2time-time2epoch_example = epoch2time-time2epoch numbers leap_time (omega arith) refl

time2week-week2time_example :
    time2week numbers gst0 (week2time numbers gst0 850 604799) ≡ (850, 604799)
time2week-week2time_example =
    time2week-week2time numbers gst0 850 604799 (omega arith) (omega arith) refl refl refl
