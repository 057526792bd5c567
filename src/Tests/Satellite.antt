-- ===== src/Tests/Satellite.antt =====
-- Satellite numbers under the ranges of the systems.
use go_ntrip.Base.{◌≡◌, refl, pos, arith}
use go_ntrip.Satellite.{System.qzs, satno, satsys, number_above, maxsat}
use go_ntrip.Satellite.Numbers.{satno-satsys, satsys-satno}
use go_ntrip.Tests.Doubles.{ranges, ranges-IsRange}

qzs_number : satno ranges qzs (pos 195) ≡ 89
unfolding satno number_above
qzs_number = refl

all_satellites : maxsat ranges ≡ 151
unfolding maxsat
all_satellites = refl

satno-satsys_example : satno ranges (satsys ranges 89).0 (pos (satsys ranges 89).1) ≡ 89
satno-satsys_example =
    satno-satsys ranges ranges-IsRange 89 (omega arith) (omega (arith, all_satellites))

satsys-satno_example : satsys ranges (satno ranges qzs (pos 195)) ≡ (qzs, 195)
satsys-satno_example = satsys-satno ranges ranges-IsRange qzs 195 (omega (arith, qzs_number))
