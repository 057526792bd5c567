-- ===== src/Ephemeris/Beidou/Units.antt =====
-- The units of `decode_type1042` and `encode_type1042` are the same, member by member.
use go_ntrip.Base.{ℕ, ◌+◌, ◌%◌, ◌≤◌, ◌<◌, ◌≡◌, refl, arith}
use go_ntrip.Bits.Message.{AllFit}
use go_ntrip.Ephemeris.{Doubles, Clock, adjbdtweek}
use go_ntrip.Ephemeris.Exact.{IsExact, near_week_same}
use go_ntrip.Ephemeris.Beidou.{Words1042, fields_1042, words_1042, eph_1042}

adjbdtweek-mod :
    {D T : Type 0} (d : Doubles D) (k : Clock D T) (week : ℕ)
    → 1 ≤ k.bdt_week
    → k.bdt_week < week + 512
    → week ≤ k.bdt_week + 512
    → week < 8192
    → adjbdtweek d k week % 8192 ≡ week
unfolding adjbdtweek
adjbdtweek-mod d k week started low high small =
    omega (arith, near_week_same 1 k.bdt_week week started low high)

-- With exact doubles, the words that fit a BeiDou message are the words that encode_type1042 rounds
-- the members of the ephemeris decoded from them to, if the week is within 512 weeks of the clock's
-- and the clock time survives its conversion to a time and back: both sides use the same unit for
-- each member.
pub words-eph_1042 :
    {D T : Type 0} (d : Doubles D) (k : Clock D T)
    → IsExact d k
    → (w : Words1042) → AllFit (fields_1042 w)
    → 1 ≤ k.bdt_week
    → k.bdt_week < w.week + 512
    → w.week ≤ k.bdt_week + 512
    → k.time2bdt (
        k.gpst2bdt
          (k.bdt2gpst (k.bdt2time (adjbdtweek d k w.week) (d.mul (d.of_uint w.toc) (d.num 8)))))
      ≡ d.mul (d.of_uint w.toc) (d.num 8)
    → (sat : ℕ) (now : T) → words_1042 d k (eph_1042 d k w sat now) w.prn ≡ w
unfolding words_1042 eph_1042 fields_1042
words-eph_1042 d k x w fit started low high time sat now =
    let week : adjbdtweek d k w.week % 8192 ≡ w.week =
      adjbdtweek-mod d k w.week started low high (omega (arith, fit.1.1.0.2)) in
    rw
      (
        week,
        x.angle w.idot 43 (omega (arith, fit.1.1.1.1.0.2)),
        time,
        x.counted w.toc 8 (omega (arith, fit.1.1.1.1.1.1.0.2)) (omega arith) (omega arith),
        x.scaled w.af2 66 (omega (arith, fit.1.1.1.1.1.1.1.0.2)),
        x.scaled w.af1 50 (omega (arith, fit.1.1.1.1.1.1.1.1.0.2)),
        x.scaled w.af0 33 (omega (arith, fit.1.1.1.1.1.1.1.1.1.0.2)),
        x.scaled w.crs 6 (omega (arith, fit.1.1.1.1.1.1.1.1.1.1.1.0.2)),
        x.angle w.deln 43 (omega (arith, fit.1.1.1.1.1.1.1.1.1.1.1.1.0.2)),
        x.angle w.m0 31 (omega (arith, fit.1.1.1.1.1.1.1.1.1.1.1.1.1.0.2)),
        x.scaled w.cuc 31 (omega (arith, fit.1.1.1.1.1.1.1.1.1.1.1.1.1.1.0.2)),
        x.scaled_u w.e 33 (omega (arith, fit.1.1.1.1.1.1.1.1.1.1.1.1.1.1.1.0.2)),
        x.scaled w.cus 31 (omega (arith, fit.1.1.1.1.1.1.1.1.1.1.1.1.1.1.1.1.0.2)),
        x.root w.sqrt_a 19 (omega (arith, fit.1.1.1.1.1.1.1.1.1.1.1.1.1.1.1.1.1.0.2)),
        x.counted w.toe 8 (omega (arith, fit.1.1.1.1.1.1.1.1.1.1.1.1.1.1.1.1.1.1.0.2)) (omega arith)
            (omega arith),
        x.scaled w.cic 31 (omega (arith, fit.1.1.1.1.1.1.1.1.1.1.1.1.1.1.1.1.1.1.1.0.2)),
        x.angle w.omg0 31 (omega (arith, fit.1.1.1.1.1.1.1.1.1.1.1.1.1.1.1.1.1.1.1.1.0.2)),
        x.scaled w.cis 31 (omega (arith, fit.1.1.1.1.1.1.1.1.1.1.1.1.1.1.1.1.1.1.1.1.1.0.2)),
        x.angle w.i0 31 (omega (arith, fit.1.1.1.1.1.1.1.1.1.1.1.1.1.1.1.1.1.1.1.1.1.1.0.2)),
        x.scaled w.crc 6 (omega (arith, fit.1.1.1.1.1.1.1.1.1.1.1.1.1.1.1.1.1.1.1.1.1.1.1.0.2)),
        x.angle w.omg 31 (omega (arith, fit.1.1.1.1.1.1.1.1.1.1.1.1.1.1.1.1.1.1.1.1.1.1.1.1.0.2)),
        x.angle w.omgd 43
            (omega (arith, fit.1.1.1.1.1.1.1.1.1.1.1.1.1.1.1.1.1.1.1.1.1.1.1.1.1.0.2)),
        x.tenths w.tgd1
            (omega (arith, fit.1.1.1.1.1.1.1.1.1.1.1.1.1.1.1.1.1.1.1.1.1.1.1.1.1.1.0.2)),
        x.tenths w.tgd2
            (omega (arith, fit.1.1.1.1.1.1.1.1.1.1.1.1.1.1.1.1.1.1.1.1.1.1.1.1.1.1.1.0.2)),
      )
      refl
