-- ===== src/Ephemeris.antt =====
-- c/rtklib/rtcm3.c and rtcm3e.c: the broadcast ephemerides of GPS (1019), BeiDou (1042), QZSS
-- (1044) and Galileo (1045, 1046). Doubles and calendar times are parameters: `Doubles` has the
-- operations of the language and the unit constants of rtklib.h, `Clock` the conversions of times.
pub mod Gps
pub mod Beidou
pub mod Qzss
pub mod GalileoF
pub mod GalileoI
pub mod Exact
pub mod Link
pub mod RoundTrip
pub mod Unique
pub mod Weeks
use go_ntrip.Base.{
  ℕ, ◌+◌, ◌-◌, ◌*◌, ◌%◌, ◌/◌, List, Bool, true, false, ◌&&◌, not, ltb, ◌==◌, if◌then◌else◌, ℤ, pos,
  negsuc,
}
use go_ntrip.Bits.Message.{Field, write_fields}
use go_ntrip.Rtcm.{Rtcm}
use go_ntrip.Satellite.{
  System, System.gps, System.glo, System.gal, System.qzs, System.cmp, System.leo, System.sbs,
  System.sys_none, PrnRanges, satsys,
}

-- `double`: an `int` is its 32-bit pattern. `num n` is the literal n.0, `e_10` is 1E-10, `e_4` is
-- 0.0001, `hgt_max` is 6.5535, and `lit n k` any other literal with k decimals, n * 10 ^ -k; `p2 k`
-- is P2_k of rtklib.h, 2 ^ -k, `clight` is CLIGHT, and `sc2rad` is SC2RAD.
pub record Doubles (D : Type 0) : Type 0 where
  pub add : D → D → D
  pub sub : D → D → D
  pub mul : D → D → D
  pub div : D → D → D
  pub floor : D → D
  pub sqrt : D → D
  pub lt : D → D → Bool
  pub le : D → D → Bool
  pub eq : D → D → Bool
  pub of_int : ℕ → D
  pub of_uint : ℕ → D
  pub to_int : D → ℕ
  pub to_uint : D → ℕ
  pub num : ℕ → D
  pub half : D
  pub e_10 : D
  pub e_4 : D
  pub hgt_max : D
  pub lit : ℕ → ℕ → D
  pub p2 : ℕ → D
  pub clight : D
  pub sc2rad : D

-- Times (`gtime_t`) and their conversions; `gps_week` and `bdt_week` are the weeks of the computer's
-- clock, which adjgpsweek and adjbdtweek read.
pub record Clock (D T : Type 0) : Type 0 where
  pub no_time : T
  pub gpst2time : ℕ → D → T
  pub time2gpst : T → D
  pub bdt2time : ℕ → D → T
  pub time2bdt : T → D
  pub gpst2bdt : T → T
  pub bdt2gpst : T → T
  pub timediff : T → T → D
  pub gps_week : ℕ
  pub bdt_week : ℕ

-- `eph_t`, with two entries of `tgd`.
pub record Eph (D T : Type 0) : Type 0 where
  pub sat : ℕ
  pub iode : ℕ
  pub iodc : ℕ
  pub sva : ℕ
  pub svh : ℕ
  pub week : ℕ
  pub code : ℕ
  pub flag : ℕ
  pub toe : T
  pub toc : T
  pub ttr : T
  pub a : D
  pub e : D
  pub i0 : D
  pub omg0 : D
  pub omg : D
  pub m0 : D
  pub deln : D
  pub omgd : D
  pub idot : D
  pub crc : D
  pub crs : D
  pub cuc : D
  pub cus : D
  pub cic : D
  pub cis : D
  pub toes : D
  pub fit : D
  pub f0 : D
  pub f1 : D
  pub f2 : D
  pub tgd0 : D
  pub tgd1 : D

-- The members of `rtcm_t` that these messages use: `nav.eph` by its index, and in `ephall` whether
-- the option text holds "-EPHALL".
pub record NavState (D T : Type 0) : Type 0 where
  pub ephs : ℕ → Eph D T
  pub ephsat : ℕ
  pub time : T
  pub ephall : Bool

-- `week+(w-week+512)/1024*1024`, `w` being the week of the clock and at least `first`; the division
-- of C rounds to zero on both sides.
unfoldable pub near_week : ℕ → ℕ → ℕ → ℕ
near_week first clock week =
    let w = if ltb clock first then first else clock in
    if ltb (w + 512) week
    then week - (week - (w + 512)) / 1024 * 1024
    else week + (w + 512 - week) / 1024 * 1024

unfoldable pub sys_id : System → ℕ
sys_id sys_none = 0
sys_id gps = 1
sys_id glo = 2
sys_id gal = 3
sys_id qzs = 4
sys_id cmp = 5
sys_id leo = 6
sys_id sbs = 7

unfoldable pub same_sys : System → System → Bool
same_sys a b = sys_id a == sys_id b

module _ {D T : Type 0} (d : Doubles D) (k : Clock D T) where
  -- ROUND and ROUND_U
  unfoldable pub round : D → ℕ
  round x = d.to_int (d.floor (d.add x d.half))

  unfoldable pub round_u : D → ℕ
  round_u x = d.to_uint (d.floor (d.add x d.half))

  unfoldable pub adjgpsweek : ℕ → ℕ
  adjgpsweek week = near_week 1560 k.gps_week week

  unfoldable pub adjbdtweek : ℕ → ℕ
  adjbdtweek week = near_week 1 k.bdt_week week

  -- The frame of the encoders: the guards on the satellite, then the fields from bit 24 on.
  unfoldable pub encode_eph :
      PrnRanges
      → System
      → (Eph D T → ℕ → List Field)
      → Rtcm (NavState D T)
      → Rtcm (NavState D T) × Bool
  encode_eph c sys fields r =
      let found = satsys c r.body.ephsat in
      let eph = r.body.ephs (r.body.ephsat - 1) in
      let out = write_fields r.buff 24 (fields eph found.1) in
      if same_sys found.0 sys && (eph.sat == r.body.ephsat)
      then (record r { buff = out.0; nbit = out.1 }, true)
      else (r, false)

  -- `rtcm->nav.eph[sat-1]=eph; rtcm->ephsat=sat;`
  unfoldable pub store_eph : NavState D T → Eph D T → NavState D T
  store_eph nav eph = record nav {
    ephs = λ index. if index == eph.sat - 1 then eph else nav.ephs index;
    ephsat = eph.sat;
  }

  -- The end of the decoders: the satellite number, the test for an unchanged ephemeris, the store.
  unfoldable pub save_eph :
      (Eph D T → Eph D T → Bool) → Rtcm (NavState D T) → Eph D T → Rtcm (NavState D T) × ℤ
  save_eph unchanged r eph =
      if eph.sat == 0
      then (r, negsuc 0)
      else if not r.body.ephall && unchanged eph (r.body.ephs (eph.sat - 1))
      then (r, pos 0)
      else (record r { body = store_eph r.body eph }, pos 2)
