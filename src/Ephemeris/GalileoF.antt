-- ===== src/Ephemeris/GalileoF.antt =====
-- c/rtklib/rtcm3.c, `decode_type1045`, and rtcm3e.c, `encode_type1045`: the ephemeris of Galileo F/NAV. The
-- rounded words of a message stand in a record, `Words1045`, between the doubles and the bits.
pub mod Delivery
pub mod RoundTrip
pub mod Units
use go_ntrip.Base.{
  ℕ, ◌+◌, ◌-◌, ◌*◌, ◌/◌, ◌%◌, ◌^◌, bit_and, List, [], ◌∷◌, Bool, ◌&&◌, ltb, leb, ◌==◌,
  if◌then◌else◌, ℤ, negsuc,
}
use go_ntrip.Bits.{getbitu, getbits}
use go_ntrip.Bits.Message.{Field, Field.u, Field.s}
use go_ntrip.Rtcm.{Rtcm}
use go_ntrip.Satellite.{PrnRanges, System, System.gal, System.sbs, satno}
use go_ntrip.Base.{pos}
use go_ntrip.Ephemeris.{
  Doubles, Clock, Eph, NavState, round, round_u, encode_eph, save_eph, adjgpsweek, adjbdtweek,
}

pub record Words1045 : Type 0 where
  pub prn : ℕ
  pub week : ℕ
  pub iode : ℕ
  pub sva : ℕ
  pub idot : ℕ
  pub toc : ℕ
  pub af2 : ℕ
  pub af1 : ℕ
  pub af0 : ℕ
  pub crs : ℕ
  pub deln : ℕ
  pub m0 : ℕ
  pub cuc : ℕ
  pub e : ℕ
  pub cus : ℕ
  pub sqrt_a : ℕ
  pub toe : ℕ
  pub cic : ℕ
  pub omg0 : ℕ
  pub cis : ℕ
  pub i0 : ℕ
  pub crc : ℕ
  pub omg : ℕ
  pub omgd : ℕ
  pub bgd1 : ℕ
  pub oshs : ℕ
  pub osdvs : ℕ

-- The fields of the message, in order.
unfoldable pub fields_1045 : Words1045 → List Field
fields_1045 w =
    u 12 1045
    ∷ u 6 w.prn
    ∷ u 12 w.week
    ∷ u 10 w.iode
    ∷ u 8 w.sva
    ∷ s 14 w.idot
    ∷ u 14 w.toc
    ∷ s 6 w.af2
    ∷ s 21 w.af1
    ∷ s 31 w.af0
    ∷ s 16 w.crs
    ∷ s 16 w.deln
    ∷ s 32 w.m0
    ∷ s 16 w.cuc
    ∷ u 32 w.e
    ∷ s 16 w.cus
    ∷ u 32 w.sqrt_a
    ∷ u 14 w.toe
    ∷ s 16 w.cic
    ∷ s 32 w.omg0
    ∷ s 16 w.cis
    ∷ s 32 w.i0
    ∷ s 16 w.crc
    ∷ s 32 w.omg
    ∷ s 24 w.omgd
    ∷ s 10 w.bgd1
    ∷ u 2 w.oshs
    ∷ u 1 w.osdvs
    ∷ u 7 0
    ∷ []

-- The words that `decode_type1045` reads, before their scaling.
unfoldable pub read_1045 : List ℕ → Words1045
read_1045 buff = record {
  prn = getbitu buff 36 6;
  week = getbitu buff 42 12;
  iode = getbitu buff 54 10;
  sva = getbitu buff 64 8;
  idot = getbits buff 72 14;
  toc = getbitu buff 86 14;
  af2 = getbits buff 100 6;
  af1 = getbits buff 106 21;
  af0 = getbits buff 127 31;
  crs = getbits buff 158 16;
  deln = getbits buff 174 16;
  m0 = getbits buff 190 32;
  cuc = getbits buff 222 16;
  e = getbitu buff 238 32;
  cus = getbits buff 270 16;
  sqrt_a = getbitu buff 286 32;
  toe = getbitu buff 318 14;
  cic = getbits buff 332 16;
  omg0 = getbits buff 348 32;
  cis = getbits buff 380 16;
  i0 = getbits buff 396 32;
  crc = getbits buff 428 16;
  omg = getbits buff 444 32;
  omgd = getbits buff 476 24;
  bgd1 = getbits buff 500 10;
  oshs = getbitu buff 510 2;
  osdvs = getbitu buff 512 1;
}

module _ {D T : Type 0} (d : Doubles D) (k : Clock D T) where
  -- The words that `encode_type1045` writes for the satellite `prn`.
  unfoldable pub words_1045 : Eph D T → ℕ → Words1045
  words_1045 eph prn = record {
    prn = prn;
    week = if ltb eph.week 1024 then 2 ^ 32 + eph.week - 1024 else (eph.week - 1024) % 4096;
    iode = eph.iode;
    sva = eph.sva;
    idot = round d k (d.div (d.div eph.idot (d.p2 43)) d.sc2rad);
    toc = round d k (d.div (k.time2gpst eph.toc) (d.num 60));
    af2 = round d k (d.div eph.f2 (d.p2 59));
    af1 = round d k (d.div eph.f1 (d.p2 46));
    af0 = round d k (d.div eph.f0 (d.p2 34));
    crs = round d k (d.div eph.crs (d.p2 5));
    deln = round d k (d.div (d.div eph.deln (d.p2 43)) d.sc2rad);
    m0 = round d k (d.div (d.div eph.m0 (d.p2 31)) d.sc2rad);
    cuc = round d k (d.div eph.cuc (d.p2 29));
    e = round_u d k (d.div eph.e (d.p2 33));
    cus = round d k (d.div eph.cus (d.p2 29));
    sqrt_a = round_u d k (d.div (d.sqrt eph.a) (d.p2 19));
    toe = round d k (d.div eph.toes (d.num 60));
    cic = round d k (d.div eph.cic (d.p2 29));
    omg0 = round d k (d.div (d.div eph.omg0 (d.p2 31)) d.sc2rad);
    cis = round d k (d.div eph.cis (d.p2 29));
    i0 = round d k (d.div (d.div eph.i0 (d.p2 31)) d.sc2rad);
    crc = round d k (d.div eph.crc (d.p2 5));
    omg = round d k (d.div (d.div eph.omg (d.p2 31)) d.sc2rad);
    omgd = round d k (d.div (d.div eph.omgd (d.p2 43)) d.sc2rad);
    bgd1 = round d k (d.div eph.tgd0 (d.p2 32));
    oshs = bit_and (eph.svh / 2 ^ 4) 3;
    osdvs = bit_and (eph.svh / 2 ^ 3) 1;
  }

  -- The ephemeris of satellite `sat` that the words stand for, received at `now`.
  unfoldable pub eph_1045 : Words1045 → ℕ → T → Eph D T
  eph_1045 w sat now = record {
    sat = sat;
    iode = w.iode;
    iodc = 0;
    sva = w.sva;
    svh = w.oshs * 2 ^ 4 + w.osdvs * 2 ^ 3;
    week = w.week + 1024;
    code = 1;
    flag = 0;
    toe = k.gpst2time (w.week + 1024) (d.mul (d.of_uint w.toe) (d.num 60));
    toc = k.gpst2time (w.week + 1024) (d.mul (d.of_uint w.toc) (d.num 60));
    ttr = now;
    a = d.mul (d.mul (d.of_uint w.sqrt_a) (d.p2 19)) (d.mul (d.of_uint w.sqrt_a) (d.p2 19));
    e = d.mul (d.of_uint w.e) (d.p2 33);
    i0 = d.mul (d.mul (d.of_int w.i0) (d.p2 31)) d.sc2rad;
    omg0 = d.mul (d.mul (d.of_int w.omg0) (d.p2 31)) d.sc2rad;
    omg = d.mul (d.mul (d.of_int w.omg) (d.p2 31)) d.sc2rad;
    m0 = d.mul (d.mul (d.of_int w.m0) (d.p2 31)) d.sc2rad;
    deln = d.mul (d.mul (d.of_int w.deln) (d.p2 43)) d.sc2rad;
    omgd = d.mul (d.mul (d.of_int w.omgd) (d.p2 43)) d.sc2rad;
    idot = d.mul (d.mul (d.of_int w.idot) (d.p2 43)) d.sc2rad;
    crc = d.mul (d.of_int w.crc) (d.p2 5);
    crs = d.mul (d.of_int w.crs) (d.p2 5);
    cuc = d.mul (d.of_int w.cuc) (d.p2 29);
    cus = d.mul (d.of_int w.cus) (d.p2 29);
    cic = d.mul (d.of_int w.cic) (d.p2 29);
    cis = d.mul (d.of_int w.cis) (d.p2 29);
    toes = d.mul (d.of_uint w.toe) (d.num 60);
    fit = d.num 0;
    f0 = d.mul (d.of_int w.af0) (d.p2 34);
    f1 = d.mul (d.of_int w.af1) (d.p2 46);
    f2 = d.mul (d.of_int w.af2) (d.p2 59);
    tgd0 = d.mul (d.of_int w.bgd1) (d.p2 32);
    tgd1 = d.num 0;
  }

  -- The test for an ephemeris that has not changed.
  unfoldable pub unchanged_1045 : Eph D T → Eph D T → Bool
  unchanged_1045 eph known = eph.iode == known.iode

  module _ (c : PrnRanges) where
    unfoldable pub encode_type1045 : Rtcm (NavState D T) → Rtcm (NavState D T) × Bool
    encode_type1045 = encode_eph d k c gal (λ eph prn. fields_1045 (words_1045 eph prn))

    unfoldable pub sat_1045 : Words1045 → ℕ
    sat_1045 w = satno c gal (pos w.prn)

    unfoldable pub decode_type1045 : Rtcm (NavState D T) → Rtcm (NavState D T) × ℤ
    decode_type1045 r =
        let w = read_1045 r.buff in
        if ltb (r.len * 8) (36 + 484)
        then (r, negsuc 0)
        else save_eph d k unchanged_1045 r (eph_1045 w (sat_1045 w) r.body.time)
