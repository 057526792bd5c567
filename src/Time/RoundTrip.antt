-- ===== src/Time/RoundTrip.antt =====
-- Dates and times there and back.
use go_ntrip.Base.{
  ℕ, ◌+◌, ◌-◌, ◌*◌, ◌/◌, ◌%◌, ◌≤◌, ◌<◌, ◌≡◌, refl, ap, ap₂, ◌∙◌, subst, get_or, Bool, true, false,
  ◌&&◌, ◌||◌, ltb, leb, ◌==◌, Bool-cases, if◌then◌else◌, ◌⊎◌, passes_below, passes_below_at, ltb→lt,
  le→ltb, ==_iff, arith, inl, inr,
}
use go_ntrip.Ephemeris.{Doubles}
use go_ntrip.Time.{Gtime, DateTime, doy, mday, days_of, epoch2time, month_loop, time2epoch}

-- The days of a month of the calendar; from 1970 to 2099 every fourth year is a leap year.
abbrev pub month_days : ℕ → ℕ → ℕ
month_days year month =
    if month == 2
    then (if year % 4 == 0 then 29 else 28)
    else if (month == 4) || (month == 6) || (month == 9) || (month == 11)
    then 30
    else 31

-- The day of a cycle of four years from 1970 on, for year `r`, month `mon` from 0 and day `day` from 0.
abbrev cycle_day : ℕ → ℕ → ℕ → ℕ
cycle_day r mon day =
    r * 365 + (r + 1) / 4 + get_or doy mon 0 + day + (if (r == 2) && leb 2 mon then 1 else 0) - 1

date_found : ℕ → ℕ → ℕ → Bool
date_found r mon day =
    let c = cycle_day r mon day in
    let found = month_loop mday 0 c in
    leb (month_days (1970 + r) (mon + 1)) day
    || (ltb c 1461 && ((found.0 == r * 12 + mon) && (found.1 == day)))

date_returns : ℕ → Bool
date_returns k = date_found (k / 372) (k / 31 % 12) (k % 31)

all_dates : passes_below date_returns 1488 ≡ true
unfolding passes_below date_returns date_found month_loop
all_dates = refl

day_returns : ℕ → Bool
day_returns c =
    let found = month_loop mday 0 c in
    (ltb found.0 24 || leb 730 c)
    && (ltb found.0 48 && (cycle_day (found.0 / 12) (found.0 % 12) found.1 == c))

all_days : passes_below day_returns 1461 ≡ true
unfolding passes_below day_returns month_loop
all_days = refl

doy_counts : ℕ → Bool
doy_counts m = ltb 0 (get_or doy m 0)

all_doy : passes_below doy_counts 12 ≡ true
unfolding passes_below doy_counts
all_doy = refl

doy_pos : (m : ℕ) → m < 12 → 0 < get_or doy m 0
unfolding doy_counts
doy_pos m low = ltb→lt 0 (get_or doy m 0) (passes_below_at doy_counts 12 m low all_doy)

-- A date of the calendar and a time of day.
pub record IsDate {D : Type 0} (d : Doubles D) (ep : DateTime D) : Type 0 where
  pub from : 1970 ≤ ep.year
  pub upto : ep.year ≤ 2099
  pub month_low : 1 ≤ ep.month
  pub month_high : ep.month ≤ 12
  pub day_low : 1 ≤ ep.day
  pub day_high : ep.day ≤ month_days ep.year ep.month
  pub hour : ep.hour < 24
  pub minute : ep.minute < 60
  pub second : d.to_int (d.floor ep.second) < 60

abbrev leap_day : Bool → ℕ
leap_day leap = if leap then 1 else 0

lt→leb : (a b : ℕ) → b < a → leb a b ≡ false
lt→leb a b h = ground arith

-- The days of a date: whole cycles and a day of the cycle.
days_of-cycle :
    (year month day : ℕ)
    → 1970 ≤ year
    → 1 ≤ month
    → month ≤ 12
    → 1 ≤ day
    → days_of year month day
      ≡ (year - 1970) / 4 * 1461 + cycle_day ((year - 1970) % 4) (month - 1) (day - 1)
unfolding days_of
days_of-cycle year month day from low high first =
    let leap : leap_day ((year % 4 == 0) && leb 3 month)
        ≡ leap_day (((year - 1970) % 4 == 2) && leb 2 (month - 1)) =
      ground arith in
    omega (arith, leap, doy_pos (month - 1) (omega arith))

split_test :
    (skip a b c : Bool)
    → (skip || (a && (b && c))) ≡ true
    → skip ≡ false
    → (a ≡ true) × (b ≡ true) × (c ≡ true)
split_test true a b c h kept = absurd (ground arith)
split_test false true true true h kept = (refl, refl, refl)
split_test false false b c h kept = absurd (ground arith)
split_test false true false c h kept = absurd (ground arith)
split_test false true true false h kept = absurd (ground arith)

month_loop-cycle :
    (r mon day : ℕ)
    → r < 4
    → mon < 12
    → day < month_days (1970 + r) (mon + 1)
    → (cycle_day r mon day < 1461) × (month_loop mday 0 (cycle_day r mon day) ≡ (r * 12 + mon, day))
unfolding date_returns date_found
month_loop-cycle r mon day few low inside =
    let short : day < 31 = ground arith in
    let k = r * 372 + mon * 31 + day in
    let t = passes_below_at date_returns 1488 k (omega arith) all_dates in
    let e0 : k % 31 ≡ day = omega arith in
    let e1 : k / 31 % 12 ≡ mon = omega arith in
    let e2 : k / 372 ≡ r = omega arith in
    let t2 = subst (λ a. date_found a (k / 31 % 12) (k % 31) ≡ true) e2 t in
    let t1 = subst (λ a. date_found r a (k % 31) ≡ true) e1 t2 in
    let t0 : date_found r mon day ≡ true = subst (λ a. date_found r mon a ≡ true) e0 t1 in
    let c = cycle_day r mon day in
    let found = month_loop mday 0 c in
    let parts =
      split_test (leb (month_days (1970 + r) (mon + 1)) day) (ltb c 1461) (found.0 == r * 12 + mon)
        (found.1 == day) t0 (lt→leb (month_days (1970 + r) (mon + 1)) day inside) in
    (
      ltb→lt c 1461 parts.0,
      ap₂ (λ a b. (a, b)) ((==_iff found.0 (r * 12 + mon)).0 parts.1)
          ((==_iff found.1 day).0 parts.2),
    )

year_cycle :
    (year month : ℕ)
    → 1970 ≤ year
    → month_days (1970 + (year - 1970) % 4) month ≡ month_days year month
year_cycle year month from =
    let same : (1970 + (year - 1970) % 4) % 4 ≡ year % 4 = omega arith in rw same refl

module _ {D : Type 0} (d : Doubles D) where
  -- The whole seconds of a date.
  abbrev whole : DateTime D → ℕ
  whole ep = d.to_int (d.floor ep.second)

  epoch2time_date :
      (ep : DateTime D)
      → 1970 ≤ ep.year
      → ep.year ≤ 2099
      → 1 ≤ ep.month
      → ep.month ≤ 12
      → epoch2time d ep ≡ record {
        time = days_of ep.year ep.month ep.day * 86400 + ep.hour * 3600 + ep.minute * 60 + whole ep;
        sec = d.sub ep.second (d.of_int (whole ep));
      }
  unfolding epoch2time
  epoch2time_date ep from upto month_low month_high =
      let e0 = le→ltb ep.year 1970 from in
      let e1 = le→ltb 2099 ep.year upto in
      let e2 = le→ltb ep.month 1 month_low in
      let e3 = le→ltb 12 ep.month month_high in rw (e0, e1, e2, e3) refl

  -- The date of day `c` of cycle `q`, which is day `day` of month `m` of the cycle.
  time2epoch_cycle :
      (q c m day sec : ℕ) (f : D)
      → c < 1461
      → sec < 86400
      → month_loop mday 0 c ≡ (m, day)
      → time2epoch d (record { time = (q * 1461 + c) * 86400 + sec; sec = f }) ≡ record {
        year = 1970 + q * 4 + m / 12;
        month = m % 12 + 1;
        day = day + 1;
        hour = sec / 3600;
        minute = sec % 3600 / 60;
        second = d.add (d.of_int (sec % 60)) f;
      }
  unfolding time2epoch
  time2epoch_cycle q c m day sec f inside low found =
      let e0 : ((q * 1461 + c) * 86400 + sec) / 86400 ≡ q * 1461 + c = omega arith in
      let e1 : (q * 1461 + c) % 1461 ≡ c = omega arith in
      let e2 : (q * 1461 + c) / 1461 ≡ q = omega arith in
      let e3 : (q * 1461 + c) * 86400 + sec - (q * 1461 + c) * 86400 ≡ sec = omega arith in
      rw (e0, e1, e2, e3, found) refl

  -- For every date of the calendar from 1970 to 2099 with a time of day, if its seconds are the
  -- sum, in doubles, of their whole part and what is left of it, time2epoch of the time that
  -- epoch2time gives is the date and the time of day again.
  pub time2epoch-epoch2time :
      (ep : DateTime D)
      → IsDate d ep
      → d.add
          (d.of_int (d.to_int (d.floor ep.second)))
          (d.sub ep.second (d.of_int (d.to_int (d.floor ep.second))))
        ≡ ep.second
      → time2epoch d (epoch2time d ep) ≡ ep
  time2epoch-epoch2time ep v again =
      let days = days_of ep.year ep.month ep.day in
      let r = (ep.year - 1970) % 4 in
      let q = (ep.year - 1970) / 4 in
      let mon = ep.month - 1 in
      let day = ep.day - 1 in
      let next : mon + 1 ≡ ep.month = omega (arith, v.month_low) in
      let long : month_days (1970 + r) (mon + 1) ≡ month_days ep.year ep.month =
        ap (month_days (1970 + r)) next ∙ year_cycle ep.year ep.month v.from in
      let found =
        month_loop-cycle r mon day (omega arith) (omega (arith, v.month_low, v.month_high))
          (omega (arith, long, v.day_low, v.day_high)) in
      let cycles =
        days_of-cycle ep.year ep.month ep.day v.from v.month_low v.month_high v.day_low in
      let c = cycle_day r mon day in
      let sec = ep.hour * 3600 + ep.minute * 60 + whole ep in
      let f = d.sub ep.second (d.of_int (whole ep)) in
      let time : days * 86400 + ep.hour * 3600 + ep.minute * 60 + whole ep
          ≡ (q * 1461 + c) * 86400 + sec =
        omega (arith, cycles) in
      let e0 : 1970 + q * 4 + (r * 12 + mon) / 12 ≡ ep.year =
        omega (arith, v.from, v.month_low, v.month_high) in
      let e1 : (r * 12 + mon) % 12 + 1 ≡ ep.month = omega (arith, v.month_low, v.month_high) in
      let e2 : day + 1 ≡ ep.day = omega (arith, v.day_low) in
      let e3 : sec / 3600 ≡ ep.hour = omega (arith, v.minute, v.second) in
      let e4 : sec % 3600 / 60 ≡ ep.minute = omega (arith, v.minute, v.second) in
      let e5 : d.add (d.of_int (sec % 60)) f ≡ ep.second =
        let e6 : sec % 60 ≡ whole ep = omega (arith, v.second) in
        ap (λ n. d.add (d.of_int n) f) e6 ∙ again in
      ap (time2epoch d) (
        epoch2time_date ep v.from v.upto v.month_low v.month_high
        ∙ ap (λ t. record { time = t; sec = f }) time)
      ∙ time2epoch_cycle q c (r * 12 + mon) day sec f found.0
          (omega (arith, v.hour, v.minute, v.second)) found.1
      ∙ cc

day_found :
    (c : ℕ)
    → c < 1461
    → let found = month_loop mday 0 c in
      ((found.0 < 24) ⊎ (730 ≤ c))
      × (found.0 < 48)
      × (cycle_day (found.0 / 12) (found.0 % 12) found.1 ≡ c)
unfolding day_returns
day_found c inside =
    let found = month_loop mday 0 c in
    let back = cycle_day (found.0 / 12) (found.0 % 12) found.1 in
    day_parts found.0 c back (passes_below_at day_returns 1461 c inside all_days)
  where
    day_parts :
        (m c back : ℕ)
        → ((ltb m 24 || leb 730 c) && (ltb m 48 && (back == c))) ≡ true
        → ((m < 24) ⊎ (730 ≤ c)) × (m < 48) × (back ≡ c)
    day_parts m c back h = elim (Bool-cases (ltb m 24)) [
      | inl early ↦ (inl (ground arith), ground arith, ground arith)
      | inr late ↦ (inr (ground arith), ground arith, ground arith)
    ]

module _ {D : Type 0} (d : Doubles D) where
  -- For every time from 1970 to 2099, if the sum, in doubles, of its second of the minute and its
  -- fraction has that second as its whole part, epoch2time of the date that time2epoch gives has
  -- the same whole seconds again, and as its fraction what is left when the second is taken from
  -- that sum.
  pub epoch2time-time2epoch :
      (t : Gtime D)
      → t.time < 47482 * 86400
      → d.to_int (d.floor (d.add (d.of_int (t.time % 60)) t.sec)) ≡ t.time % 60
      → epoch2time d (time2epoch d t) ≡ record {
        time = t.time;
        sec = d.sub (d.add (d.of_int (t.time % 60)) t.sec) (d.of_int (t.time % 60));
      }
  epoch2time-time2epoch t early below =
      let days = t.time / 86400 in
      let sec = t.time - days * 86400 in
      let q = days / 1461 in
      let c = days % 1461 in
      let found = month_loop mday 0 c in
      let on = day_found c (omega arith) in
      let m = found.0 in
      let day = found.1 in
      let split : t.time ≡ (q * 1461 + c) * 86400 + sec = omega arith in
      let date = time2epoch_cycle d q c m day sec t.sec (omega arith) (omega arith) refl in
      let year = 1970 + q * 4 + m / 12 in
      let few : m < 48 = on.1 in
      let late : year ≤ 2099 = elim on.0 [
        | inl first ↦ omega (arith, first)
        | inr second ↦ omega (arith, second, few)
      ] in
      let back =
        days_of-cycle year (m % 12 + 1) (day + 1) (omega arith) (omega arith) (omega arith)
          (omega arith) in
      let e0 : (year - 1970) / 4 ≡ q = omega (arith, few) in
      let e1 : (year - 1970) % 4 ≡ m / 12 = omega (arith, few) in
      let e2 : m % 12 + 1 - 1 ≡ m % 12 = omega arith in
      let e3 : day + 1 - 1 ≡ day = omega arith in
      let cycles : days_of year (m % 12 + 1) (day + 1) ≡ q * 1461 + c =
        back ∙ rw (e0, e1, e2, e3, on.2) refl in
      let e4 : sec % 60 ≡ t.time % 60 = omega arith in
      let second = d.add (d.of_int (sec % 60)) t.sec in
      let e5 : d.to_int (d.floor second) ≡ t.time % 60 =
        ap (λ n. d.to_int (d.floor (d.add (d.of_int n) t.sec))) e4 ∙ below in
      let e6 : second ≡ d.add (d.of_int (t.time % 60)) t.sec =
        ap (λ n. d.add (d.of_int n) t.sec) e4 in
      let sum : days_of year (m % 12 + 1) (day + 1) * 86400
            + sec / 3600 * 3600
            + sec % 3600 / 60 * 60
            + d.to_int (d.floor second)
          ≡ t.time =
        omega (arith, cycles, split, e4, e5) in
      ap (epoch2time d)
        (ap (time2epoch d) (ap (λ s. record { time = s; sec = t.sec }) split) ∙ date)
      ∙ epoch2time_date d _ (omega arith) late (omega arith) (omega arith)
      ∙ ap₂ (λ s f. record { time = s; sec = f }) sum (ap₂ (λ x n. d.sub x (d.of_int n)) e6 e5)
