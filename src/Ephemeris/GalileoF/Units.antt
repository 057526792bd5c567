-- ===== src/Ephemeris/GalileoF/Units.antt =====
-- The units of `decode_type1045` and `encode_type1045` are the same, member by member.
use go_ntrip.Base.{
  ℕ, ◌+◌, ◌-◌, ◌*◌, ◌/◌, ◌%◌, ◌^◌, ◌<◌, ◌≡◌, refl, ◌∙◌, ltb, if◌then◌else◌, arith, bit_and,
  bit_and_mask,
}
use go_ntrip.Bits.Message.{AllFit}
use go_ntrip.Ephemeris.{Doubles, Clock}
use go_ntrip.Ephemeris.Exact.{IsExact, KeepsWeek}
use go_ntrip.Ephemeris.GalileoF.{Words1045, fields_1045, words_1045, eph_1045}

gst_week :
    (week : ℕ)
    → week < 4096
    → (if ltb (week + 1024) 1024
        then 2 ^ 32 + (week + 1024) - 1024
        else (week + 1024 - 1024) % 4096)
      ≡ week
gst_week week small = ground arith

-- With exact doubles and a clock that keeps times of a week, the words that fit are those that the
-- encoder rounds the members of the ephemeris decoded from them to, if the clock time lies within a
-- week, and the week is one that gpst2time computes without overflow: both sides use the same unit
-- for each member.
pub words-eph_1045 :
    {D T : Type 0} (d : Doubles D) (k : Clock D T)
    → IsExact d k
    → KeepsWeek d k
    → (w : Words1045) → AllFit (fields_1045 w)
    → w.toc * 60 < 604800
    → w.week < 2526
    → (sat : ℕ) (now : T) → words_1045 d k (eph_1045 d k w sat now) w.prn ≡ w
unfolding words_1045 eph_1045 fields_1045
words-eph_1045 d k x keeps w fit in_week soon sat now =
    let week : (if ltb (w.week + 1024) 1024
          then 2 ^ 32 + (w.week + 1024) - 1024
          else (w.week + 1024 - 1024) % 4096)
        ≡ w.week =
      gst_week w.week (omega (arith, fit.1.1.0.2)) in
    let health_oshs : bit_and ((w.oshs * 2 ^ 4 + w.osdvs * 2 ^ 3) / 2 ^ 4) 3 ≡ w.oshs =
      bit_and_mask 2 ((w.oshs * 2 ^ 4 + w.osdvs * 2 ^ 3) / 2 ^ 4)
      ∙ omega (
        arith, fit.1.1.1.1.1.1.1.1.1.1.1.1.1.1.1.1.1.1.1.1.1.1.1.1.1.1.0.2,
        fit.1.1.1.1.1.1.1.1.1.1.1.1.1.1.1.1.1.1.1.1.1.1.1.1.1.1.1.0.2,
      ) in
    let health_osdvs : bit_and ((w.oshs * 2 ^ 4 + w.osdvs * 2 ^ 3) / 2 ^ 3) 1 ≡ w.osdvs =
      bit_and_mask 1 ((w.oshs * 2 ^ 4 + w.osdvs * 2 ^ 3) / 2 ^ 3)
      ∙ omega (
        arith, fit.1.1.1.1.1.1.1.1.1.1.1.1.1.1.1.1.1.1.1.1.1.1.1.1.1.1.0.2,
        fit.1.1.1.1.1.1.1.1.1.1.1.1.1.1.1.1.1.1.1.1.1.1.1.1.1.1.1.0.2,
      ) in
    rw
      (
        week,
        x.angle w.idot 43 (omega (arith, fit.1.1.1.1.1.0.2)),
        keeps.gps_time (w.week + 1024) w.toc 60 (omega (arith, soon)) in_week,
        x.counted w.toc 60 (omega (arith, fit.1.1.1.1.1.1.0.2)) (omega arith) (omega arith),
        x.scaled w.af2 59 (omega (arith, fit.1.1.1.1.1.1.1.0.2)),
        x.scaled w.af1 46 (omega (arith, fit.1.1.1.1.1.1.1.1.0.2)),
        x.scaled w.af0 34 (omega (arith, fit.1.1.1.1.1.1.1.1.1.0.2)),
        x.scaled w.crs 5 (omega (arith, fit.1.1.1.1.1.1.1.1.1.1.0.2)),
        x.angle w.deln 43 (omega (arith, fit.1.1.1.1.1.1.1.1.1.1.1.0.2)),
        x.angle w.m0 31 (omega (arith, fit.1.1.1.1.1.1.1.1.1.1.1.1.0.2)),
        x.scaled w.cuc 29 (omega (arith, fit.1.1.1.1.1.1.1.1.1.1.1.1.1.0.2)),
        x.scaled_u w.e 33 (omega (arith, fit.1.1.1.1.1.1.1.1.1.1.1.1.1.1.0.2)),
        x.scaled w.cus 29 (omega (arith, fit.1.1.1.1.1.1.1.1.1.1.1.1.1.1.1.0.2)),
        x.root w.sqrt_a 19 (omega (arith, fit.1.1.1.1.1.1.1.1.1.1.1.1.1.1.1.1.0.2)),
        x.counted w.toe 60 (omega (arith, fit.1.1.1.1.1.1.1.1.1.1.1.1.1.1.1.1.1.0.2)) (omega arith)
            (omega arith),
        x.scaled w.cic 29 (omega (arith, fit.1.1.1.1.1.1.1.1.1.1.1.1.1.1.1.1.1.1.0.2)),
        x.angle w.omg0 31 (omega (arith, fit.1.1.1.1.1.1.1.1.1.1.1.1.1.1.1.1.1.1.1.0.2)),
        x.scaled w.cis 29 (omega (arith, fit.1.1.1.1.1.1.1.1.1.1.1.1.1.1.1.1.1.1.1.1.0.2)),
        x.angle w.i0 31 (omega (arith, fit.1.1.1.1.1.1.1.1.1.1.1.1.1.1.1.1.1.1.1.1.1.0.2)),
        x.scaled w.crc 5 (omega (arith, fit.1.1.1.1.1.1.1.1.1.1.1.1.1.1.1.1.1.1.1.1.1.1.0.2)),
        x.angle w.omg 31 (omega (arith, fit.1.1.1.1.1.1.1.1.1.1.1.1.1.1.1.1.1.1.1.1.1.1.1.0.2)),
        x.angle w.omgd 43 (omega (arith, fit.1.1.1.1.1.1.1.1.1.1.1.1.1.1.1.1.1.1.1.1.1.1.1.1.0.2)),
        x.scaled w.bgd1 32
            (omega (arith, fit.1.1.1.1.1.1.1.1.1.1.1.1.1.1.1.1.1.1.1.1.1.1.1.1.1.0.2)),
        health_oshs,
        health_osdvs,
      )
      refl
