-- ===== src/Ephemeris/Beidou.antt =====
-- c/rtklib/rtcm3.c, `decode_type1042`, and rtcm3e.c, `encode_type1042`: the ephemeris of BeiDou, with
-- its draft, `encode_type63`. The rounded words of a message stand in a record, `Words1042`, between
-- the doubles and the bits.
pub mod Draft
pub mod Delivery
pub mod RoundTrip
pub mod Units
use go_ntrip.Base.{
  ℕ, ◌+◌, ◌-◌, ◌*◌, ◌/◌, ◌%◌, ◌^◌, bit_and, List, [], ◌∷◌, Bool, ◌&&◌, ltb, leb, ◌==◌,
  if◌then◌else◌, ℤ, negsuc,
}
use go_ntrip.Bits.{getbitu, getbits}
use go_ntrip.Bits.Message.{Field, Field.u, Field.s}
use go_ntrip.Rtcm.{Rtcm}
use go_ntrip.Satellite.{PrnRanges, System, System.cmp, System.sbs, satno}
use go_ntrip.Base.{pos}
use go_ntrip.Ephemeris.{
  Doubles, Clock, Eph, NavState, round, round_u, encode_eph, save_eph, adjgpsweek, adjbdtweek,
}

pub record Words1042 : Type 0 where
  pub prn : ℕ
  pub week : ℕ
  pub sva : ℕ
  pub idot : ℕ
  pub iode : ℕ
  pub toc : ℕ
  pub af2 : ℕ
  pub af1 : ℕ
  pub af0 : ℕ
  pub iodc : ℕ
  pub crs : ℕ
  pub deln : ℕ
  pub m0 : ℕ
  pub cuc : ℕ
  pub e : ℕ
  pub cus : ℕ
  pub sqrt_a : ℕ
  pub toe : ℕ
  pub cic : ℕ
  pub omg0 : ℕ
  pub cis : ℕ
  pub i0 : ℕ
  pub crc : ℕ
  pub omg : ℕ
  pub omgd : ℕ
  pub tgd1 : ℕ
  pub tgd2 : ℕ
  pub svh : ℕ

-- The fields of the message, in order. Type 63, a draft of 1042, differs in its number only.
unfoldable pub fields_1042 : Words1042 → List Field
fields_1042 w =
    u 12 1042
    ∷ u 6 w.prn
    ∷ u 13 w.week
    ∷ u 4 w.sva
    ∷ s 14 w.idot
    ∷ u 5 w.iode
    ∷ u 17 w.toc
    ∷ s 11 w.af2
    ∷ s 22 w.af1
    ∷ s 24 w.af0
    ∷ u 5 w.iodc
    ∷ s 18 w.crs
    ∷ s 16 w.deln
    ∷ s 32 w.m0
    ∷ s 18 w.cuc
    ∷ u 32 w.e
    ∷ s 18 w.cus
    ∷ u 32 w.sqrt_a
    ∷ u 17 w.toe
    ∷ s 18 w.cic
    ∷ s 32 w.omg0
    ∷ s 18 w.cis
    ∷ s 32 w.i0
    ∷ s 18 w.crc
    ∷ s 32 w.omg
    ∷ s 24 w.omgd
    ∷ s 10 w.tgd1
    ∷ s 10 w.tgd2
    ∷ u 1 w.svh
    ∷ []

unfoldable pub fields_63 : Words1042 → List Field
fields_63 w =
    u 12 63
    ∷ u 6 w.prn
    ∷ u 13 w.week
    ∷ u 4 w.sva
    ∷ s 14 w.idot
    ∷ u 5 w.iode
    ∷ u 17 w.toc
    ∷ s 11 w.af2
    ∷ s 22 w.af1
    ∷ s 24 w.af0
    ∷ u 5 w.iodc
    ∷ s 18 w.crs
    ∷ s 16 w.deln
    ∷ s 32 w.m0
    ∷ s 18 w.cuc
    ∷ u 32 w.e
    ∷ s 18 w.cus
    ∷ u 32 w.sqrt_a
    ∷ u 17 w.toe
    ∷ s 18 w.cic
    ∷ s 32 w.omg0
    ∷ s 18 w.cis
    ∷ s 32 w.i0
    ∷ s 18 w.crc
    ∷ s 32 w.omg
    ∷ s 24 w.omgd
    ∷ s 10 w.tgd1
    ∷ s 10 w.tgd2
    ∷ u 1 w.svh
    ∷ []

-- The words that `decode_type1042` reads, before their scaling.
unfoldable pub read_1042 : List ℕ → Words1042
read_1042 buff = record {
  prn = getbitu buff 36 6;
  week = getbitu buff 42 13;
  sva = getbitu buff 55 4;
  idot = getbits buff 59 14;
  iode = getbitu buff 73 5;
  toc = getbitu buff 78 17;
  af2 = getbits buff 95 11;
  af1 = getbits buff 106 22;
  af0 = getbits buff 128 24;
  iodc = getbitu buff 152 5;
  crs = getbits buff 157 18;
  deln = getbits buff 175 16;
  m0 = getbits buff 191 32;
  cuc = getbits buff 223 18;
  e = getbitu buff 241 32;
  cus = getbits buff 273 18;
  sqrt_a = getbitu buff 291 32;
  toe = getbitu buff 323 17;
  cic = getbits buff 340 18;
  omg0 = getbits buff 358 32;
  cis = getbits buff 390 18;
  i0 = getbits buff 408 32;
  crc = getbits buff 440 18;
  omg = getbits buff 458 32;
  omgd = getbits buff 490 24;
  tgd1 = getbits buff 514 10;
  tgd2 = getbits buff 524 10;
  svh = getbitu buff 534 1;
}

module _ {D T : Type 0} (d : Doubles D) (k : Clock D T) where
  -- The words that `encode_type1042` writes for the satellite `prn`.
  unfoldable pub words_1042 : Eph D T → ℕ → Words1042
  words_1042 eph prn = record {
    prn = prn;
    week = eph.week % 8192;
    sva = eph.sva;
    idot = round d k (d.div (d.div eph.idot (d.p2 43)) d.sc2rad);
    iode = eph.iode;
    toc = round d k (d.div (k.time2bdt (k.gpst2bdt eph.toc)) (d.num 8));
    af2 = round d k (d.div eph.f2 (d.p2 66));
    af1 = round d k (d.div eph.f1 (d.p2 50));
    af0 = round d k (d.div eph.f0 (d.p2 33));
    iodc = eph.iodc;
    crs = round d k (d.div eph.crs (d.p2 6));
    deln = round d k (d.div (d.div eph.deln (d.p2 43)) d.sc2rad);
    m0 = round d k (d.div (d.div eph.m0 (d.p2 31)) d.sc2rad);
    cuc = round d k (d.div eph.cuc (d.p2 31));
    e = round_u d k (d.div eph.e (d.p2 33));
    cus = round d k (d.div eph.cus (d.p2 31));
    sqrt_a = round_u d k (d.div (d.sqrt eph.a) (d.p2 19));
    toe = round d k (d.div eph.toes (d.num 8));
    cic = round d k (d.div eph.cic (d.p2 31));
    omg0 = round d k (d.div (d.div eph.omg0 (d.p2 31)) d.sc2rad);
    cis = round d k (d.div eph.cis (d.p2 31));
    i0 = round d k (d.div (d.div eph.i0 (d.p2 31)) d.sc2rad);
    crc = round d k (d.div eph.crc (d.p2 6));
    omg = round d k (d.div (d.div eph.omg (d.p2 31)) d.sc2rad);
    omgd = round d k (d.div (d.div eph.omgd (d.p2 43)) d.sc2rad);
    tgd1 = round d k (d.div eph.tgd0 d.e_10);
    tgd2 = round d k (d.div eph.tgd1 d.e_10);
    svh = eph.svh;
  }

  -- The ephemeris of satellite `sat` that the words stand for, received at `now`.
  unfoldable pub eph_1042 : Words1042 → ℕ → T → Eph D T
  eph_1042 w sat now = record {
    sat = sat;
    iode = w.iode;
    iodc = w.iodc;
    sva = w.sva;
    svh = w.svh;
    week = adjbdtweek d k w.week;
    code = 0;
    flag = 0;
    toe = k.bdt2gpst (k.bdt2time (adjbdtweek d k w.week) (d.mul (d.of_uint w.toe) (d.num 8)));
    toc = k.bdt2gpst (k.bdt2time (adjbdtweek d k w.week) (d.mul (d.of_uint w.toc) (d.num 8)));
    ttr = now;
    a = d.mul (d.mul (d.of_uint w.sqrt_a) (d.p2 19)) (d.mul (d.of_uint w.sqrt_a) (d.p2 19));
    e = d.mul (d.of_uint w.e) (d.p2 33);
    i0 = d.mul (d.mul (d.of_int w.i0) (d.p2 31)) d.sc2rad;
    omg0 = d.mul (d.mul (d.of_int w.omg0) (d.p2 31)) d.sc2rad;
    omg = d.mul (d.mul (d.of_int w.omg) (d.p2 31)) d.sc2rad;
    m0 = d.mul (d.mul (d.of_int w.m0) (d.p2 31)) d.sc2rad;
    deln = d.mul (d.mul (d.of_int w.deln) (d.p2 43)) d.sc2rad;
    omgd = d.mul (d.mul (d.of_int w.omgd) (d.p2 43)) d.sc2rad;
    idot = d.mul (d.mul (d.of_int w.idot) (d.p2 43)) d.sc2rad;
    crc = d.mul (d.of_int w.crc) (d.p2 6);
    crs = d.mul (d.of_int w.crs) (d.p2 6);
    cuc = d.mul (d.of_int w.cuc) (d.p2 31);
    cus = d.mul (d.of_int w.cus) (d.p2 31);
    cic = d.mul (d.of_int w.cic) (d.p2 31);
    cis = d.mul (d.of_int w.cis) (d.p2 31);
    toes = d.mul (d.of_uint w.toe) (d.num 8);
    fit = d.num 0;
    f0 = d.mul (d.of_int w.af0) (d.p2 33);
    f1 = d.mul (d.of_int w.af1) (d.p2 50);
    f2 = d.mul (d.of_int w.af2) (d.p2 66);
    tgd0 = d.mul (d.of_int w.tgd1) d.e_10;
    tgd1 = d.mul (d.of_int w.tgd2) d.e_10;
  }

  -- The test for an ephemeris that has not changed.
  unfoldable pub unchanged_1042 : Eph D T → Eph D T → Bool
  unchanged_1042 eph known =
      d.eq (k.timediff eph.toe known.toe) (d.num 0)
      && (eph.iode == known.iode)
      && (eph.iodc == known.iodc)

  module _ (c : PrnRanges) where
    unfoldable pub encode_type1042 : Rtcm (NavState D T) → Rtcm (NavState D T) × Bool
    encode_type1042 = encode_eph d k c cmp (λ eph prn. fields_1042 (words_1042 eph prn))

    unfoldable pub encode_type63 : Rtcm (NavState D T) → Rtcm (NavState D T) × Bool
    encode_type63 = encode_eph d k c cmp (λ eph prn. fields_63 (words_1042 eph prn))

    unfoldable pub sat_1042 : Words1042 → ℕ
    sat_1042 w = satno c cmp (pos w.prn)

    unfoldable pub decode_type1042 : Rtcm (NavState D T) → Rtcm (NavState D T) × ℤ
    decode_type1042 r =
        let w = read_1042 r.buff in
        if ltb (r.len * 8) (36 + 499)
        then (r, negsuc 0)
        else save_eph d k unchanged_1042 r (eph_1042 w (sat_1042 w) r.body.time)
