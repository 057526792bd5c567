-- ===== src/Ephemeris/Qzss/Units.antt =====
-- The units of `decode_type1044` and `encode_type1044` are the same, member by member.
use go_ntrip.Base.{
  ℕ, zero, suc, ◌+◌, ◌-◌, ◌*◌, ◌%◌, ◌^◌, ◌<◌, ◌≡◌, refl, ◌==◌, if◌then◌else◌, arith,
}
use go_ntrip.Bits.Message.{AllFit}
use go_ntrip.Ephemeris.{Doubles, Clock, adjgpsweek}
use go_ntrip.Ephemeris.Exact.{IsExact, KeepsWeek}
use go_ntrip.Ephemeris.Gps.Units.{adjgpsweek-mod, adjgpsweek-lt}
use go_ntrip.Ephemeris.Qzss.{Words1044, fields_1044, words_1044, eph_1044}

fit_flag :
    {D T : Type 0} (d : Doubles D) (k : Clock D T)
    → IsExact d k
    → (bit : ℕ) → bit < 2
    → (if d.eq (if bit == 0 then d.num 2 else d.num 0) (d.num 2) then 0 else 1) ≡ bit
fit_flag d k x zero small = rw x.two_eq refl
fit_flag d k x (suc zero) small = rw x.zero_eq refl
fit_flag d k x (suc (suc n)) small = absurd (omega arith)

-- With exact doubles and a clock that keeps times of a week, the words that fit are those that the
-- encoder rounds the members of the ephemeris decoded from them to, if the clock time lies within a
-- week, and the week is one that gpst2time computes without overflow: both sides use the same unit
-- for each member.
pub words-eph_1044 :
    {D T : Type 0} (d : Doubles D) (k : Clock D T)
    → IsExact d k
    → KeepsWeek d k
    → (w : Words1044) → AllFit (fields_1044 w)
    → w.toc * 16 < 604800
    → k.gps_week < 3038
    → (sat : ℕ) (now : T) → words_1044 d k (eph_1044 d k w sat now) (w.prn + 192) ≡ w
unfolding words_1044 eph_1044 fields_1044
words-eph_1044 d k x keeps w fit in_week soon sat now =
    let offset : (w.prn + 192 + (2 ^ 32 - 192)) % 2 ^ 32 ≡ w.prn = omega (arith, fit.1.0.2) in
    let week : adjgpsweek d k w.week % 1024 ≡ w.week =
      adjgpsweek-mod d k w.week
        (omega (arith, fit.1.1.1.1.1.1.1.1.1.1.1.1.1.1.1.1.1.1.1.1.1.1.1.1.0.2)) in
    let longer : (if d.eq (if w.fit == 0 then d.num 2 else d.num 0) (d.num 2) then 0 else 1)
        ≡ w.fit =
      fit_flag d k x w.fit
        (omega (arith, fit.1.1.1.1.1.1.1.1.1.1.1.1.1.1.1.1.1.1.1.1.1.1.1.1.1.1.1.1.1.0.2)) in
    rw
      (
        offset,
        keeps.gps_time (adjgpsweek d k w.week) w.toc 16
            (adjgpsweek-lt d k w.week soon
              (omega (arith, fit.1.1.1.1.1.1.1.1.1.1.1.1.1.1.1.1.1.1.1.1.1.1.1.1.0.2)))
            in_week,
        x.counted w.toc 16 (omega (arith, fit.1.1.0.2)) (omega arith) (omega arith),
        x.scaled w.af2 55 (omega (arith, fit.1.1.1.0.2)),
        x.scaled w.af1 43 (omega (arith, fit.1.1.1.1.0.2)),
        x.scaled w.af0 31 (omega (arith, fit.1.1.1.1.1.0.2)),
        x.scaled w.crs 5 (omega (arith, fit.1.1.1.1.1.1.1.0.2)),
        x.angle w.deln 43 (omega (arith, fit.1.1.1.1.1.1.1.1.0.2)),
        x.angle w.m0 31 (omega (arith, fit.1.1.1.1.1.1.1.1.1.0.2)),
        x.scaled w.cuc 29 (omega (arith, fit.1.1.1.1.1.1.1.1.1.1.0.2)),
        x.scaled_u w.e 33 (omega (arith, fit.1.1.1.1.1.1.1.1.1.1.1.0.2)),
        x.scaled w.cus 29 (omega (arith, fit.1.1.1.1.1.1.1.1.1.1.1.1.0.2)),
        x.root w.sqrt_a 19 (omega (arith, fit.1.1.1.1.1.1.1.1.1.1.1.1.1.0.2)),
        x.counted w.toe 16 (omega (arith, fit.1.1.1.1.1.1.1.1.1.1.1.1.1.1.0.2)) (omega arith)
            (omega arith),
        x.scaled w.cic 29 (omega (arith, fit.1.1.1.1.1.1.1.1.1.1.1.1.1.1.1.0.2)),
        x.angle w.omg0 31 (omega (arith, fit.1.1.1.1.1.1.1.1.1.1.1.1.1.1.1.1.0.2)),
        x.scaled w.cis 29 (omega (arith, fit.1.1.1.1.1.1.1.1.1.1.1.1.1.1.1.1.1.0.2)),
        x.angle w.i0 31 (omega (arith, fit.1.1.1.1.1.1.1.1.1.1.1.1.1.1.1.1.1.1.0.2)),
        x.scaled w.crc 5 (omega (arith, fit.1.1.1.1.1.1.1.1.1.1.1.1.1.1.1.1.1.1.1.0.2)),
        x.angle w.omg 31 (omega (arith, fit.1.1.1.1.1.1.1.1.1.1.1.1.1.1.1.1.1.1.1.1.0.2)),
        x.angle w.omgd 43 (omega (arith, fit.1.1.1.1.1.1.1.1.1.1.1.1.1.1.1.1.1.1.1.1.1.0.2)),
        x.angle w.idot 43 (omega (arith, fit.1.1.1.1.1.1.1.1.1.1.1.1.1.1.1.1.1.1.1.1.1.1.0.2)),
        week,
        x.scaled w.tgd 31
            (omega (arith, fit.1.1.1.1.1.1.1.1.1.1.1.1.1.1.1.1.1.1.1.1.1.1.1.1.1.1.1.0.2)),
        longer,
      )
      refl
