-- ===== src/Ephemeris/Qzss.antt =====
-- c/rtklib/rtcm3.c, `decode_type1044`, and rtcm3e.c, `encode_type1044`: the ephemeris of QZSS. The
-- rounded words of a message stand in a record, `Words1044`, between the doubles and the bits.
pub mod Delivery
pub mod RoundTrip
pub mod Units
use go_ntrip.Base.{
  ℕ, ◌+◌, ◌-◌, ◌*◌, ◌/◌, ◌%◌, ◌^◌, bit_and, List, [], ◌∷◌, Bool, ◌&&◌, ltb, leb, ◌==◌,
  if◌then◌else◌, ℤ, negsuc,
}
use go_ntrip.Bits.{getbitu, getbits}
use go_ntrip.Bits.Message.{Field, Field.u, Field.s}
use go_ntrip.Rtcm.{Rtcm}
use go_ntrip.Satellite.{PrnRanges, System, System.qzs, System.sbs, satno}
use go_ntrip.Base.{pos}
use go_ntrip.Ephemeris.{
  Doubles, Clock, Eph, NavState, round, round_u, encode_eph, save_eph, adjgpsweek, adjbdtweek,
}

pub record Words1044 : Type 0 where
  pub prn : ℕ
  pub toc : ℕ
  pub af2 : ℕ
  pub af1 : ℕ
  pub af0 : ℕ
  pub iode : ℕ
  pub crs : ℕ
  pub deln : ℕ
  pub m0 : ℕ
  pub cuc : ℕ
  pub e : ℕ
  pub cus : ℕ
  pub sqrt_a : ℕ
  pub toe : ℕ
  pub cic : ℕ
  pub omg0 : ℕ
  pub cis : ℕ
  pub i0 : ℕ
  pub crc : ℕ
  pub omg : ℕ
  pub omgd : ℕ
  pub idot : ℕ
  pub code : ℕ
  pub week : ℕ
  pub sva : ℕ
  pub svh : ℕ
  pub tgd : ℕ
  pub iodc : ℕ
  pub fit : ℕ

-- The fields of the message, in order.
unfoldable pub fields_1044 : Words1044 → List Field
fields_1044 w =
    u 12 1044
    ∷ u 4 w.prn
    ∷ u 16 w.toc
    ∷ s 8 w.af2
    ∷ s 16 w.af1
    ∷ s 22 w.af0
    ∷ u 8 w.iode
    ∷ s 16 w.crs
    ∷ s 16 w.deln
    ∷ s 32 w.m0
    ∷ s 16 w.cuc
    ∷ u 32 w.e
    ∷ s 16 w.cus
    ∷ u 32 w.sqrt_a
    ∷ u 16 w.toe
    ∷ s 16 w.cic
    ∷ s 32 w.omg0
    ∷ s 16 w.cis
    ∷ s 32 w.i0
    ∷ s 16 w.crc
    ∷ s 32 w.omg
    ∷ s 24 w.omgd
    ∷ s 14 w.idot
    ∷ u 2 w.code
    ∷ u 10 w.week
    ∷ u 4 w.sva
    ∷ u 6 w.svh
    ∷ s 8 w.tgd
    ∷ u 10 w.iodc
    ∷ u 1 w.fit
    ∷ []

-- The words that `decode_type1044` reads, before their scaling.
unfoldable pub read_1044 : List ℕ → Words1044
read_1044 buff = record {
  prn = getbitu buff 36 4;
  toc = getbitu buff 40 16;
  af2 = getbits buff 56 8;
  af1 = getbits buff 64 16;
  af0 = getbits buff 80 22;
  iode = getbitu buff 102 8;
  crs = getbits buff 110 16;
  deln = getbits buff 126 16;
  m0 = getbits buff 142 32;
  cuc = getbits buff 174 16;
  e = getbitu buff 190 32;
  cus = getbits buff 222 16;
  sqrt_a = getbitu buff 238 32;
  toe = getbitu buff 270 16;
  cic = getbits buff 286 16;
  omg0 = getbits buff 302 32;
  cis = getbits buff 334 16;
  i0 = getbits buff 350 32;
  crc = getbits buff 382 16;
  omg = getbits buff 398 32;
  omgd = getbits buff 430 24;
  idot = getbits buff 454 14;
  code = getbitu buff 468 2;
  week = getbitu buff 470 10;
  sva = getbitu buff 480 4;
  svh = getbitu buff 484 6;
  tgd = getbits buff 490 8;
  iodc = getbitu buff 498 10;
  fit = getbitu buff 508 1;
}

module _ {D T : Type 0} (d : Doubles D) (k : Clock D T) where
  -- The words that `encode_type1044` writes for the satellite `prn`.
  unfoldable pub words_1044 : Eph D T → ℕ → Words1044
  words_1044 eph prn = record {
    prn = (prn + (2 ^ 32 - 192)) % 2 ^ 32;
    toc = round d k (d.div (k.time2gpst eph.toc) (d.num 16));
    af2 = round d k (d.div eph.f2 (d.p2 55));
    af1 = round d k (d.div eph.f1 (d.p2 43));
    af0 = round d k (d.div eph.f0 (d.p2 31));
    iode = eph.iode;
    crs = round d k (d.div eph.crs (d.p2 5));
    deln = round d k (d.div (d.div eph.deln (d.p2 43)) d.sc2rad);
    m0 = round d k (d.div (d.div eph.m0 (d.p2 31)) d.sc2rad);
    cuc = round d k (d.div eph.cuc (d.p2 29));
    e = round_u d k (d.div eph.e (d.p2 33));
    cus = round d k (d.div eph.cus (d.p2 29));
    sqrt_a = round_u d k (d.div (d.sqrt eph.a) (d.p2 19));
    toe = round d k (d.div eph.toes (d.num 16));
    cic = round d k (d.div eph.cic (d.p2 29));
    omg0 = round d k (d.div (d.div eph.omg0 (d.p2 31)) d.sc2rad);
    cis = round d k (d.div eph.cis (d.p2 29));
    i0 = round d k (d.div (d.div eph.i0 (d.p2 31)) d.sc2rad);
    crc = round d k (d.div eph.crc (d.p2 5));
    omg = round d k (d.div (d.div eph.omg (d.p2 31)) d.sc2rad);
    omgd = round d k (d.div (d.div eph.omgd (d.p2 43)) d.sc2rad);
    idot = round d k (d.div (d.div eph.idot (d.p2 43)) d.sc2rad);
    code = eph.code;
    week = eph.week % 1024;
    sva = eph.sva;
    svh = eph.svh;
    tgd = round d k (d.div eph.tgd0 (d.p2 31));
    iodc = eph.iodc;
    fit = if d.eq eph.fit (d.num 2) then 0 else 1;
  }

  -- The ephemeris of satellite `sat` that the words stand for, received at `now`.
  unfoldable pub eph_1044 : Words1044 → ℕ → T → Eph D T
  eph_1044 w sat now = record {
    sat = sat;
    iode = w.iode;
    iodc = w.iodc;
    sva = w.sva;
    svh = w.svh;
    week = adjgpsweek d k w.week;
    code = w.code;
    flag = 0;
    toe = k.gpst2time (adjgpsweek d k w.week) (d.mul (d.of_uint w.toe) (d.num 16));
    toc = k.gpst2time (adjgpsweek d k w.week) (d.mul (d.of_uint w.toc) (d.num 16));
    ttr = now;
    a = d.mul (d.mul (d.of_uint w.sqrt_a) (d.p2 19)) (d.mul (d.of_uint w.sqrt_a) (d.p2 19));
    e = d.mul (d.of_uint w.e) (d.p2 33);
    i0 = d.mul (d.mul (d.of_int w.i0) (d.p2 31)) d.sc2rad;
    omg0 = d.mul (d.mul (d.of_int w.omg0) (d.p2 31)) d.sc2rad;
    omg = d.mul (d.mul (d.of_int w.omg) (d.p2 31)) d.sc2rad;
    m0 = d.mul (d.mul (d.of_int w.m0) (d.p2 31)) d.sc2rad;
    deln = d.mul (d.mul (d.of_int w.deln) (d.p2 43)) d.sc2rad;
    omgd = d.mul (d.mul (d.of_int w.omgd) (d.p2 43)) d.sc2rad;
    idot = d.mul (d.mul (d.of_int w.idot) (d.p2 43)) d.sc2rad;
    crc = d.mul (d.of_int w.crc) (d.p2 5);
    crs = d.mul (d.of_int w.crs) (d.p2 5);
    cuc = d.mul (d.of_int w.cuc) (d.p2 29);
    cus = d.mul (d.of_int w.cus) (d.p2 29);
    cic = d.mul (d.of_int w.cic) (d.p2 29);
    cis = d.mul (d.of_int w.cis) (d.p2 29);
    toes = d.mul (d.of_uint w.toe) (d.num 16);
    fit = if w.fit == 0 then d.num 2 else d.num 0;
    f0 = d.mul (d.of_int w.af0) (d.p2 31);
    f1 = d.mul (d.of_int w.af1) (d.p2 43);
    f2 = d.mul (d.of_int w.af2) (d.p2 55);
    tgd0 = d.mul (d.of_int w.tgd) (d.p2 31);
    tgd1 = d.num 0;
  }

  -- The test for an ephemeris that has not changed.
  unfoldable pub unchanged_1044 : Eph D T → Eph D T → Bool
  unchanged_1044 eph known = (eph.iode == known.iode) && (eph.iodc == known.iodc)

  module _ (c : PrnRanges) where
    unfoldable pub encode_type1044 : Rtcm (NavState D T) → Rtcm (NavState D T) × Bool
    encode_type1044 = encode_eph d k c qzs (λ eph prn. fields_1044 (words_1044 eph prn))

    unfoldable pub sat_1044 : Words1044 → ℕ
    sat_1044 w = satno c qzs (pos (w.prn + 192))

    unfoldable pub decode_type1044 : Rtcm (NavState D T) → Rtcm (NavState D T) × ℤ
    decode_type1044 r =
        let w = read_1044 r.buff in
        if ltb (r.len * 8) (36 + 473)
        then (r, negsuc 0)
        else save_eph d k unchanged_1044 r (eph_1044 w (sat_1044 w) r.body.time)
