-- ===== src/Ephemeris/Exact.antt =====
-- What the ephemerides ask of doubles: scaling a word by a unit and back and rounding gives the word,
-- since a word has 32 bits and a double 53. With this, the unit that an encoder divides a member by
-- must be the unit that the decoder multiplies its word by. `KeepsWeek` is what they ask of times.
use go_ntrip.Base.{ℕ, ◌+◌, ◌*◌, ◌%◌, ◌^◌, ◌≤◌, ◌<◌, ◌≡◌, true, false, arith}
use go_ntrip.Ephemeris.{Doubles, Clock, round, round_u, near_week}

pub record IsExact {D T : Type 0} (d : Doubles D) (k : Clock D T) : Type 0 where
  pub scaled : (n j : ℕ) → n < 2 ^ 32 → round d k (d.div (d.mul (d.of_int n) (d.p2 j)) (d.p2 j)) ≡ n
  pub angle :
      (n j : ℕ)
      → n < 2 ^ 32
      → round d k (d.div (d.div (d.mul (d.mul (d.of_int n) (d.p2 j)) d.sc2rad) (d.p2 j)) d.sc2rad)
        ≡ n
  pub tenths : (n : ℕ) → n < 2 ^ 32 → round d k (d.div (d.mul (d.of_int n) d.e_10) d.e_10) ≡ n
  pub scaled_u :
      (n j : ℕ) → n < 2 ^ 32 → round_u d k (d.div (d.mul (d.of_uint n) (d.p2 j)) (d.p2 j)) ≡ n
  pub root :
      (n j : ℕ)
      → n < 2 ^ 32
      → round_u d k (
          d.div
            (d.sqrt (d.mul (d.mul (d.of_uint n) (d.p2 j)) (d.mul (d.of_uint n) (d.p2 j))))
            (d.p2 j))
        ≡ n
  pub counted :
      (n m : ℕ)
      → n < 2 ^ 31
      → 0 < m
      → m < 2 ^ 20
      → round d k (d.div (d.mul (d.of_uint n) (d.num m)) (d.num m)) ≡ n
  pub zero_lt : d.lt (d.num 0) (d.num 0) ≡ false
  pub four_lt : d.lt (d.num 0) (d.num 4) ≡ true
  pub two_eq : d.eq (d.num 2) (d.num 2) ≡ true
  pub zero_eq : d.eq (d.num 0) (d.num 2) ≡ false
  -- Products below a week are whole, exact and far from 1E9.
  pub product : (n m : ℕ) → n * m < 604800 → d.to_int (d.mul (d.of_uint n) (d.num m)) ≡ n * m
  pub product_above :
      (n m : ℕ)
      → n * m < 604800
      → d.lt (d.mul (d.of_uint n) (d.num m)) (d.sub (d.num 0) (d.num (10 ^ 9))) ≡ false
  pub product_below :
      (n m : ℕ) → n * m < 604800 → d.lt (d.num (10 ^ 9)) (d.mul (d.of_uint n) (d.num m)) ≡ false
  pub product_split :
      (n m : ℕ)
      → n * m < 604800
      → d.add (d.of_int (n * m)) (d.sub (d.mul (d.of_uint n) (d.num m)) (d.of_int (n * m)))
        ≡ d.mul (d.of_uint n) (d.num m)

-- A time of a week survives its conversion, in the weeks below 3550, whose seconds an int holds.
pub record KeepsWeek {D T : Type 0} (d : Doubles D) (k : Clock D T) : Type 0 where
  pub gps_time :
      (week n m : ℕ)
      → week < 3550
      → n * m < 604800
      → k.time2gpst (k.gpst2time week (d.mul (d.of_uint n) (d.num m)))
        ≡ d.mul (d.of_uint n) (d.num m)

-- For a week of 10 bits and a clock not before the first week, which is at least 512, the week
-- adjustment gives a week with the same 10 bits that is less than 512 weeks before the clock's or
-- at most 512 weeks after it.
pub near_week-congruent :
    (first clock week : ℕ)
    → 512 ≤ first
    → first ≤ clock
    → week < 1024
    → (near_week first clock week % 1024 ≡ week)
      × (clock < near_week first clock week + 512)
      × (near_week first clock week ≤ clock + 512)
unfolding near_week
near_week-congruent first clock week early late small = ground arith

pub near_week-mod :
    (first clock week : ℕ) → 512 ≤ first → week < 1024 → near_week first clock week % 1024 ≡ week
unfolding near_week
near_week-mod first clock week early small = ground arith

pub near_week_same :
    (first clock week : ℕ)
    → first ≤ clock
    → clock < week + 512
    → week ≤ clock + 512
    → near_week first clock week ≡ week
unfolding near_week
near_week_same first clock week late low high = ground arith

pub near_week-lt :
    (first clock week : ℕ)
    → 512 ≤ first
    → first < 3038
    → clock < 3038
    → week < 1024
    → near_week first clock week < 3550
unfolding near_week
near_week-lt first clock week early bounded late small = ground arith
