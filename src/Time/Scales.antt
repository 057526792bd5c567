-- ===== src/Time/Scales.antt =====
-- The weeks of the systems and the seconds of a week, there and back.
use go_ntrip.Base.{ℕ, ◌+◌, ◌-◌, ◌*◌, ◌/◌, ◌^◌, ◌<◌, ◌≡◌, ap, false, arith}
use go_ntrip.Ephemeris.{Doubles}
use go_ntrip.Time.{Reference, reference_days, week2time, time2week}

module _ {D : Type 0} (d : Doubles D) where
  -- For each of the three systems, a week below 3550 and seconds of the week, of which no part is
  -- lost when their whole part is taken off and added again in doubles, and which compare as lying
  -- between -1E9 and 1E9, the time that gpst2time and its counterparts give has that week and
  -- those seconds again for time2gpst and its counterparts.
  pub time2week-week2time :
      (ref : Reference) (week : ℕ) (sec : D)
      → week < 3550
      → d.to_int sec < 604800
      → d.lt sec (d.sub (d.num 0) (d.num (10 ^ 9))) ≡ false
      → d.lt (d.num (10 ^ 9)) sec ≡ false
      → d.add (d.of_int (d.to_int sec)) (d.sub sec (d.of_int (d.to_int sec))) ≡ sec
      → time2week d ref (week2time d ref week sec) ≡ (week, sec)
  unfolding time2week week2time
  time2week-week2time ref week sec bounded in_week above below again =
      let start = reference_days ref * 86400 in
      let n = d.to_int sec in
      let e0 : start + (86400 * 7 * week + n) - start ≡ 604800 * week + n = omega arith in
      let e1 : (604800 * week + n) / 604800 ≡ week = omega arith in
      let e2 : 604800 * week + n - week * 86400 * 7 ≡ n = omega arith in
      rw (above, below, e0, e1, e2) (ap (λ s. (week, s)) again)
