-- ===== src/Tests/Doubles.antt =====
-- Doubles and times as plain numbers, in which every law of `IsExact` holds; the units differ.
use native.Mathlib.Nat.{mul-le-mul, suc-mul, mul-suc, mul-div_cancel, mul_assoc, mul_comm}
use go_ntrip.Base.{
  ℕ, zero, suc, ◌+◌, ◌-◌, ◌*◌, ◌/◌, ◌%◌, ◌≤◌, ◌<◌, ◌≡◌, refl, sym, ap, ◌∙◌, inl, inr, ltb, leb,
  ◌==◌, if◌then◌else◌, arith, Bool-cases, true, false,
}
use go_ntrip.Satellite.{
  System, System.gps, System.glo, System.gal, System.qzs, System.cmp, System.leo, System.sbs,
  System.sys_none, PrnRanges,
}
use go_ntrip.Satellite.Numbers.{IsRange}
use go_ntrip.Ephemeris.{Doubles, Clock, round, round_u}
use go_ntrip.Ephemeris.Exact.{IsExact}

-- The root of `x`, from `i` on.
unfoldable pub root_loop : ℕ → ℕ → ℕ → ℕ
root_loop zero i x = i
root_loop (suc fuel) i x =
    let rest = root_loop fuel (suc i) x in if leb (suc i * suc i) x then rest else i

abbrev pub numbers : Doubles ℕ
numbers = record {
  add = λ a b. a + b;
  sub = λ a b. a - b;
  mul = λ a b. a * b;
  div = λ a b. a / b;
  floor = λ a. a;
  sqrt = λ a. root_loop a 0 a;
  lt = ltb;
  le = leb;
  eq = λ a b. a == b;
  of_int = λ n. n;
  of_uint = λ n. n;
  to_int = λ n. n;
  to_uint = λ n. n;
  num = λ n. n;
  half = 0;
  e_10 = 7;
  e_4 = 1;
  hgt_max = 65535;
  lit = λ n k. n;
  p2 = λ j. suc j;
  clight = 1;
  sc2rad = 3;
}

abbrev pub seconds : Clock ℕ ℕ
seconds = record {
  no_time = 0;
  gpst2time = λ week sec. sec + week * 604800;
  time2gpst = λ t. t % 604800;
  bdt2time = λ week sec. sec + week * 604800;
  time2bdt = λ t. t % 604800;
  gpst2bdt = λ t. t - 14;
  bdt2gpst = λ t. t + 14;
  timediff = λ a b. a - b;
  gps_week = 2100;
  bdt_week = 1950;
}

square_past : (i n : ℕ) → n < i → n * n < i * i
square_past i n h = omega (arith, suc-mul n (suc n), mul-suc n n, mul-le-mul h h)

le→leb : (a b : ℕ) → a ≤ b → leb a b ≡ true
le→leb a b h = ground arith

lt→leb : (a b : ℕ) → b < a → leb a b ≡ false
lt→leb a b h = ground arith

root_loop-square : (fuel i n : ℕ) → i ≤ n → n ≤ i + fuel → root_loop fuel i (n * n) ≡ n
unfolding root_loop
root_loop-square zero i n low high = omega arith
root_loop-square (suc fuel) i n low high = elim (Bool-cases (ltb i n)) [
  | inl more ↦
      let below : i < n = ground arith in
      let again : leb (suc i * suc i) (n * n) ≡ true =
        le→leb (suc i * suc i) (n * n) (mul-le-mul below below) in
      rw again (root_loop-square fuel (suc i) n below (omega arith))
  | inr done ↦
      let same : i ≡ n = ground arith in
      let past : leb (suc i * suc i) (n * n) ≡ false =
        lt→leb (suc i * suc i) (n * n) (square_past (suc i) n (omega arith)) in
      rw past same
]

square-le : (n : ℕ) → n ≤ n * n
square-le zero = omega arith
square-le (suc n) = omega arith

root-square : (n : ℕ) → root_loop (n * n) 0 (n * n) ≡ n
root-square n = root_loop-square (n * n) 0 n (omega arith) (omega (arith, square-le n))

div_self : (n m : ℕ) → 0 < m → n * m / m ≡ n
div_self n m some = mul-div_cancel n some

div_unit : (n m : ℕ) → 0 < m → n * m / m + 0 ≡ n
div_unit n m some = omega (arith, div_self n m some)

swap_factors : (n p s : ℕ) → n * p * s ≡ n * s * p
swap_factors n p s = mul_assoc n p s ∙ ap (λ x. n * x) (mul_comm p s) ∙ sym (mul_assoc n s p)

angle_unit : (n p s : ℕ) → 0 < p → 0 < s → n * p * s / p / s + 0 ≡ n
angle_unit n p s some more =
    let first : n * p * s / p ≡ n * s =
      ap (λ x. x / p) (swap_factors n p s) ∙ div_self (n * s) p some in
    rw first (div_unit n s more)

root_unit : (n p : ℕ) → 0 < p → root_loop ((n * p) * (n * p)) 0 ((n * p) * (n * p)) / p + 0 ≡ n
root_unit n p some = rw (root-square (n * p)) (div_unit n p some)

pub numbers-IsExact : {T : Type 0} (k : Clock ℕ T) → IsExact numbers k
unfolding round round_u
numbers-IsExact k = record {
  scaled = λ n j h. div_unit n (suc j) (omega arith);
  angle = λ n j h. angle_unit n (suc j) 3 (omega arith) (omega arith);
  tenths = λ n h. div_unit n 7 (omega arith);
  scaled_u = λ n j h. div_unit n (suc j) (omega arith);
  root = λ n j h. root_unit n (suc j) (omega arith);
  counted = λ n m h some small. div_unit n m some;
  zero_lt = refl;
  four_lt = refl;
  two_eq = refl;
  zero_eq = refl;
  product = λ n m h. refl;
  product_above = λ n m h. ground arith;
  product_below = λ n m h. ground arith;
  product_split = λ n m h. omega arith;
}

-- The ranges of the systems in use: MINPRN, MAXPRN, NSAT.
abbrev first_prn : System → ℕ
first_prn qzs = 193
first_prn sbs = 120
first_prn sys_none = 0
first_prn _ = 1

abbrev last_prn : System → ℕ
last_prn gps = 32
last_prn glo = 24
last_prn gal = 30
last_prn qzs = 199
last_prn cmp = 35
last_prn leo = 0
last_prn sbs = 142
last_prn sys_none = 0

abbrev sats : System → ℕ
sats gps = 32
sats glo = 24
sats gal = 30
sats qzs = 7
sats cmp = 35
sats leo = 0
sats sbs = 23
sats sys_none = 0

abbrev pub ranges : PrnRanges
ranges = record { minprn = first_prn; maxprn = last_prn; nsat = sats }

pub ranges-IsRange : (sys : System) → IsRange ranges sys
unfolding IsRange
ranges-IsRange gps = inl (omega arith)
ranges-IsRange glo = inl (omega arith)
ranges-IsRange gal = inl (omega arith)
ranges-IsRange qzs = inl (omega arith)
ranges-IsRange cmp = inl (omega arith)
ranges-IsRange sbs = inl (omega arith)
ranges-IsRange leo = inr (omega arith)
ranges-IsRange sys_none = inr (omega arith)
