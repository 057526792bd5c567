-- ===== src/Satellite.antt =====
-- c/rtklib/rtkcmn.c: satellite numbers, which stand for a system and a prn or slot number, and the
-- test for excluded satellites. The ranges of the systems (MINPRNGPS, MAXPRNGPS, NSATGPS, ...) come
-- from rtklib.h, which the repository does not hold: they are a parameter of the section.
pub mod Numbers
use go_ntrip.Base.{
  ℕ, zero, suc, ◌+◌, ◌-◌, List, Bool, true, false, ◌||◌, ltb, leb, ◌==◌, if◌then◌else◌, ℤ, pos,
  negsuc, bit_and, Option, none, some, get_or,
}

-- SYS_GPS, SYS_GLO, ..., with SYS_NONE for no system.
pub data System : Type 0 where
  gps glo gal qzs cmp leo sbs sys_none : System

-- MINPRN..., MAXPRN... and NSAT... of each system.
pub record PrnRanges : Type 0 where
  pub minprn : System → ℕ
  pub maxprn : System → ℕ
  pub nsat : System → ℕ

module _ (c : PrnRanges) where
  -- `if (prn<MIN||MAX<prn) return 0; return base+prn-MIN+1;`
  unfoldable pub number_above : ℕ → System → ℕ → ℕ
  number_above base sys prn =
      if ltb prn (c.minprn sys) || ltb (c.maxprn sys) prn then 0 else base + prn - c.minprn sys + 1

  unfoldable pub satno : System → ℤ → ℕ
  satno sys (negsuc n) = 0
  satno sys (pos zero) = 0
  satno gps (pos (suc n)) = number_above 0 gps (suc n)
  satno glo (pos (suc n)) = number_above (c.nsat gps) glo (suc n)
  satno gal (pos (suc n)) = number_above (c.nsat gps + c.nsat glo) gal (suc n)
  satno qzs (pos (suc n)) = number_above (c.nsat gps + c.nsat glo + c.nsat gal) qzs (suc n)
  satno cmp (pos (suc n)) =
      number_above (c.nsat gps + c.nsat glo + c.nsat gal + c.nsat qzs) cmp (suc n)
  satno leo (pos (suc n)) =
      number_above (c.nsat gps + c.nsat glo + c.nsat gal + c.nsat qzs + c.nsat cmp) leo (suc n)
  satno sbs (pos (suc n)) =
      number_above (c.nsat gps + c.nsat glo + c.nsat gal + c.nsat qzs + c.nsat cmp + c.nsat leo) sbs
        (suc n)
  satno sys_none (pos (suc n)) = 0

  -- MAXSAT
  unfoldable pub maxsat : ℕ
  maxsat = c.nsat gps + c.nsat glo + c.nsat gal + c.nsat qzs + c.nsat cmp + c.nsat leo + c.nsat sbs

  -- `sat<=NSAT` holds: the system, and `sat+=MINPRN-1`.
  unfoldable pub prn_of : System → ℕ → System × ℕ
  prn_of sys sat = (sys, sat + c.minprn sys - 1)

  -- The chain of `satsys` behind the range test: the systems in order, `sat` reduced by the number
  -- of satellites of each one that it is past.
  unfoldable pub find_sys : ℕ → System × ℕ
  find_sys sat =
      if leb sat (c.nsat gps)
      then prn_of gps sat
      else let sat = sat - c.nsat gps in
        if leb sat (c.nsat glo)
        then prn_of glo sat
        else let sat = sat - c.nsat glo in
          if leb sat (c.nsat gal)
          then prn_of gal sat
          else let sat = sat - c.nsat gal in
            if leb sat (c.nsat qzs)
            then prn_of qzs sat
            else let sat = sat - c.nsat qzs in
              if leb sat (c.nsat cmp)
              then prn_of cmp sat
              else let sat = sat - c.nsat cmp in
                if leb sat (c.nsat leo)
                then prn_of leo sat
                else let sat = sat - c.nsat leo in
                  if leb sat (c.nsat sbs) then prn_of sbs sat else (sys_none, 0)

  -- The system and `*prn`.
  unfoldable pub satsys : ℕ → System × ℕ
  satsys sat = if sat == 0 || ltb maxsat sat then (sys_none, 0) else find_sys sat

-- The members of `prcopt_t` that `satexclude` reads.
pub record Prcopt : Type 0 where
  pub exsats : List ℕ
  pub navsys : ℕ

-- `if (opt) {...}` of `satexclude`: what it returns, if it returns.
unfoldable pub option_excludes : (System → ℕ) → ℕ → System → Option Prcopt → Option ℕ
option_excludes mask sat sys none = none
option_excludes mask sat sys (some opt) =
    let listed = get_or opt.exsats (sat - 1) 0 in
    if listed == 1
    then some 1
    else if listed == 2
    then some 0
    else if bit_and (mask sys) opt.navsys == 0
    then some 1
    else none

-- The health test at the end of `satexclude`; the LEX bit of QZSS is masked out.
unfoldable pub unhealthy : System → ℕ → ℕ
unhealthy qzs svh = if bit_and svh 0xfe == 0 then 0 else 1
unhealthy _ svh = if svh == 0 then 0 else 1

-- `mask` gives the bit of each system in `navsys` (SYS_GPS, ...).
unfoldable pub satexclude : PrnRanges → (System → ℕ) → ℕ → ℤ → Option Prcopt → ℕ
satexclude c mask sat (negsuc n) opt = 1
satexclude c mask sat (pos svh) opt =
    let sys = (satsys c sat).0 in
    elim (option_excludes mask sat sys opt) [ some result ↦ result | none ↦ unhealthy sys svh ]
