-- ===== src/Time.antt =====
-- c/rtklib/rtkcmn.c: calendar dates and the weeks of GPS, Galileo and BeiDou: `epoch2time`,
-- `time2epoch`, `gpst2time`, `time2gpst` and the four functions like them for the other systems.
-- A time (`gtime_t`) is a number of seconds and a fraction, which is a double; the code computes
-- with it as with any double, and so do the definitions. Seconds of a `time_t` are not negative
-- here: times are from 1970 on, dates have a day of at least 1.
pub mod RoundTrip
pub mod Scales
use go_ntrip.Base.{
  ℕ, zero, suc, ◌+◌, ◌-◌, ◌*◌, ◌/◌, ◌%◌, ◌^◌, List, [], ◌∷◌, get_or, Bool, true, false, ◌&&◌, ◌||◌,
  ltb, leb, ◌==◌, if◌then◌else◌,
}
use go_ntrip.Ephemeris.{Doubles}

-- `gtime_t`
pub record Gtime (D : Type 0) : Type 0 where
  pub time : ℕ
  pub sec : D

-- `double ep[6]`, the first five of them whole.
pub record DateTime (D : Type 0) : Type 0 where
  pub year : ℕ
  pub month : ℕ
  pub day : ℕ
  pub hour : ℕ
  pub minute : ℕ
  pub second : D

abbrev pub doy : List ℕ
doy = 1 ∷ 32 ∷ 60 ∷ 91 ∷ 121 ∷ 152 ∷ 182 ∷ 213 ∷ 244 ∷ 274 ∷ 305 ∷ 335 ∷ []

abbrev pub mday : List ℕ
mday =
    31 ∷ 28 ∷ 31 ∷ 30 ∷ 31 ∷ 30 ∷ 31 ∷ 31 ∷ 30 ∷ 31 ∷ 30 ∷ 31 ∷ 31 ∷ 28 ∷ 31 ∷ 30 ∷ 31 ∷ 30 ∷ 31
    ∷ 31 ∷ 30 ∷ 31 ∷ 30 ∷ 31 ∷ 31 ∷ 29 ∷ 31 ∷ 30 ∷ 31 ∷ 30 ∷ 31 ∷ 31 ∷ 30 ∷ 31 ∷ 30 ∷ 31 ∷ 31 ∷ 28
    ∷ 31 ∷ 30 ∷ 31 ∷ 30 ∷ 31 ∷ 31 ∷ 30 ∷ 31 ∷ 30 ∷ 31 ∷ []

-- The days from 1970 on.
unfoldable pub days_of : ℕ → ℕ → ℕ → ℕ
days_of year mon day =
    (year - 1970) * 365
    + (year - 1969) / 4
    + get_or doy (mon - 1) 0
    + day
    + (if (year % 4 == 0) && leb 3 mon then 1 else 0)
    - 2

unfoldable pub epoch2time : {D : Type 0} → Doubles D → DateTime D → Gtime D
epoch2time d ep =
    let sec = d.to_int (d.floor ep.second) in
    if ltb ep.year 1970 || ltb 2099 ep.year || ltb ep.month 1 || ltb 12 ep.month
    then record { time = 0; sec = d.num 0 }
    else record {
      time = days_of ep.year ep.month ep.day * 86400 + ep.hour * 3600 + ep.minute * 60 + sec;
      sec = d.sub ep.second (d.of_int sec);
    }

-- `for (...;mon<48;mon++) {if (day>=mday[mon]) day-=mday[mon]; else break;}` over the months left:
-- the last `mon` and `day`.
unfoldable pub month_loop : List ℕ → ℕ → ℕ → ℕ × ℕ
month_loop [] mon day = (mon, day)
month_loop (m ∷ ms) mon day =
    let rest = month_loop ms (mon + 1) (day - m) in if leb m day then rest else (mon, day)

unfoldable pub time2epoch : {D : Type 0} → Doubles D → Gtime D → DateTime D
time2epoch d t =
    let days = t.time / 86400 in
    let sec = t.time - days * 86400 in
    let found = month_loop mday 0 (days % 1461) in
    record {
      year = 1970 + days / 1461 * 4 + found.0 / 12;
      month = found.0 % 12 + 1;
      day = found.1 + 1;
      hour = sec / 3600;
      minute = sec % 3600 / 60;
      second = d.add (d.of_int (sec % 60)) t.sec;
    }

-- The dates of `gpst0`, `gst0` and `bdt0`.
pub data Reference : Type 0 where
  gpst0 gst0 bdt0 : Reference

unfoldable pub reference_days : Reference → ℕ
reference_days gpst0 = days_of 1980 1 6
reference_days gst0 = days_of 1999 8 22
reference_days bdt0 = days_of 2006 1 1

-- `gpst2time`, `gst2time` and `bdt2time`; -1E9 is written 0.0 - 1E9. The seconds are not negative
-- when they are used, and the product of the week, an int in the code, is that of unbounded
-- numbers: the sum of both fits an int for the weeks below 3550.
unfoldable pub week2time : {D : Type 0} → Doubles D → Reference → ℕ → D → Gtime D
week2time d ref week sec =
    let far = d.lt sec (d.sub (d.num 0) (d.num (10 ^ 9))) || d.lt (d.num (10 ^ 9)) sec in
    let kept = if far then d.num 0 else sec in
    record {
      time = reference_days ref * 86400 + (86400 * 7 * week + d.to_int kept);
      sec = d.sub kept (d.of_int (d.to_int kept));
    }

-- `time2gpst`, `time2gst` and `time2bdt` on a time from the reference on: the week and the seconds.
unfoldable pub time2week : {D : Type 0} → Doubles D → Reference → Gtime D → ℕ × D
time2week d ref t =
    let sec = t.time - reference_days ref * 86400 in
    let w = sec / (86400 * 7) in (w, d.add (d.of_int (sec - w * 86400 * 7)) t.sec)
