-- ===== src/Codes.antt =====
-- c/rtklib/rtkcmn.c: observation codes, `obs2code`, `code2obs` and `getcodepri`; rtcm3.c and
-- rtcm3e.c: the signal ids of multiple signal messages, `to_sigid` and the tables that decode them.
-- The name of a signal is its two characters. The numbers CODE_L1P, CODE_L1Y, ... come from
-- rtklib.h, which the repository does not hold: they are a parameter, and `IsNumbered` says that
-- they number the table of names.
pub mod Tables
pub mod Ids
use go_ntrip.Base.{
  ℕ, zero, suc, ◌+◌, ◌-◌, ◌≡◌, List, [], ◌∷◌, Bool, true, false, ◌&&◌, ◌||◌, not, ltb, ◌==◌,
  if◌then◌else◌, get_or, drop,
}
use go_ntrip.Satellite.{
  System, System.gps, System.glo, System.gal, System.qzs, System.cmp, System.leo, System.sbs,
  System.sys_none,
}
use go_ntrip.Codes.Tables.{
  Name, no_name, obscodes, obsfreqs, msm_sig_gps, msm_sig_glo, msm_sig_gal, msm_sig_qzs,
  msm_sig_sbs, msm_sig_cmp,
}

abbrev pub same_name : Name → Name → Bool
same_name a b = (a.0 == b.0) && (a.1 == b.1)

-- The loop of `obs2code` at entry `i`; it ends at the first empty name.
unfoldable pub search_code : List Name → ℕ → Name → ℕ
search_code [] i obs = 0
search_code (n ∷ ns) i obs =
    let rest = search_code ns (i + 1) obs in
    if same_name n no_name then 0 else if same_name n obs then i else rest

-- The code and `*freq`; 0 for an unknown name.
unfoldable pub obs2code : Name → ℕ × ℕ
obs2code obs =
    let i = search_code (drop 1 obscodes) 1 obs in (i, if i == 0 then 0 else get_or obsfreqs i 0)

-- CODE_... of rtklib.h, with MAXCODE.
pub record CodeNumbers : Type 0 where
  pub l1p : ℕ
  pub l1y : ℕ
  pub l1m : ℕ
  pub l1n : ℕ
  pub l2d : ℕ
  pub l2p : ℕ
  pub l2y : ℕ
  pub l2m : ℕ
  pub l2n : ℕ
  pub maxcode : ℕ

module _ (c : CodeNumbers) where
  -- The name and `*freq`.
  unfoldable pub code2obs : ℕ → Name × ℕ
  code2obs code =
      if code == 0 || ltb c.maxcode code
      then (no_name, 0)
      else (get_or obscodes code no_name, get_or obsfreqs code 0)

  -- `signal conversion for undefined signal by rtcm`
  unfoldable pub defined_code : System → ℕ → ℕ
  defined_code gps code =
      if code == c.l1y
      then c.l1p
      else if code == c.l1m
      then c.l1p
      else if code == c.l1n
      then c.l1p
      else if code == c.l2d
      then c.l2p
      else if code == c.l2y
      then c.l2p
      else if code == c.l2m
      then c.l2p
      else if code == c.l2n
      then c.l2p
      else code
  defined_code _ code = code

-- The table of a system; a system without one has no signals.
unfoldable pub msm_sig : System → List Name
msm_sig gps = msm_sig_gps
msm_sig glo = msm_sig_glo
msm_sig gal = msm_sig_gal
msm_sig qzs = msm_sig_qzs
msm_sig sbs = msm_sig_sbs
msm_sig cmp = msm_sig_cmp
msm_sig leo = []
msm_sig sys_none = []

-- `freqency index for beidou`
unfoldable pub beidou_freq : System → ℕ → ℕ
beidou_freq cmp freq = if freq == 5 then 2 else if freq == 4 then 3 else freq
beidou_freq _ freq = freq

-- `for (i=0;i<32;i++) {if (!strcmp(sig,msm_sig[i])) return i+1;}`
unfoldable pub search_sig : List Name → ℕ → Name → ℕ
search_sig [] i sig = 0
search_sig (n ∷ ns) i sig =
    let rest = search_sig ns (i + 1) sig in if same_name sig n then i + 1 else rest

-- The signal id, 0 for none, and `*freq`.
unfoldable pub to_sigid : CodeNumbers → System → ℕ → ℕ × ℕ
to_sigid c sys code =
    let found = code2obs c (defined_code c sys code) in
    if same_name found.0 no_name
    then (0, found.1)
    else (search_sig (msm_sig sys) 0 found.0, beidou_freq sys found.1)

-- The code and the frequency that `save_msm_obs` finds for the signal id `id`.
unfoldable pub sig_code : System → ℕ → ℕ × ℕ
sig_code sys id =
    let found = obs2code (get_or (msm_sig sys) (id - 1) no_name) in
    (found.0, beidou_freq sys found.1)

-- A priority text `p` and `(p=strchr(pri,c))?14-(p-pri):0`, from the place `at` on.
unfoldable pub priority_in : List ℕ → ℕ → ℕ → ℕ
priority_in [] at c = 0
priority_in (p ∷ ps) at c = let rest = priority_in ps (at + 1) c in if p == c then 14 - at else rest

-- The options of the system, "-GL%2s" and so on, in the order of the text: the first one for the
-- frequency of the code decides.
unfoldable pub option_pri : List Name → Name → ℕ → ℕ
option_pri [] obs otherwise = otherwise
option_pri (o ∷ os) obs otherwise =
    let rest = option_pri os obs otherwise in
    if o.0 == obs.0 then (if o.1 == obs.1 then 15 else 0) else rest

-- `pris` is the row of `codepris` for the system.
unfoldable pub getcodepri : CodeNumbers → List Name → List (List ℕ) → ℕ → ℕ
getcodepri c opts pris code =
    let found = code2obs c code in
    option_pri opts found.0 (priority_in (get_or pris (found.1 - 1) []) 0 found.0.1)
