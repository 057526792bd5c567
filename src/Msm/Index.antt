-- ===== src/Msm/Index.antt =====
-- c/rtklib/rtcm3e.c: `to_satid`, `gen_msm_index`, `gen_msm_sat` and `gen_msm_sig`. All three loops of
-- the last ones run over the satellites and their signals and skip what has no id: `visits` is the
-- list of what is left, in the order of the loops. A local array is the list of its entries.
use go_ntrip.Base.{
  ℕ, zero, suc, ◌+◌, ◌-◌, ◌*◌, ◌%◌, ◌^◌, bit_and, List, [], ◌∷◌, ◌++◌, get_or, set, replicate, Bool,
  ◌&&◌, ◌||◌, not, ltb, leb, ◌==◌, if◌then◌else◌, Option, none, some,
}
use go_ntrip.Satellite.{System, System.glo, System.qzs, System.sbs, PrnRanges, satsys}
use go_ntrip.Ephemeris.{round, same_sys}
use go_ntrip.Codes.{to_sigid}
use go_ntrip.Obs.{Obsd, update₂}
use go_ntrip.Msm.Values.{Setup, int_pred, range_ms, satwavelen}

-- 0 for a satellite of another system.
unfoldable pub to_satid : PrnRanges → System → ℕ → ℕ
to_satid c sys sat =
    let found = satsys c sat in
    if not (same_sys found.0 sys)
    then 0
    else if same_sys sys qzs
    then found.1 - (c.minprn qzs - 1)
    else if same_sys sys sbs
    then found.1 - (c.minprn sbs - 1)
    else found.1

-- One round of the loops: the ids `sat` and `sig`, the frequency `f`, and the entry `j` of `obs`.
pub record Visit (D T : Type 0) : Type 0 where
  pub sat : ℕ
  pub sig : ℕ
  pub f : ℕ
  pub j : ℕ
  pub obs : Obsd D T

module _ {D T : Type 0} (x : Setup D T) (sys : System) where
  -- The loop over `j` from `j` on, with `n` rounds left.
  unfoldable pub visit_signals : ℕ → Obsd D T → ℕ → ℕ → List (Visit D T)
  visit_signals sat obs j zero = []
  visit_signals sat obs j (suc n) =
      let rest = visit_signals sat obs (j + 1) n in
      let id = to_sigid x.codes sys (obs.code j) in
      if id.0 == 0
      then rest
      else record { sat = sat; sig = id.0; f = id.1; j = j; obs = obs } ∷ rest

  unfoldable pub visits : List (Obsd D T) → List (Visit D T)
  visits [] = []
  visits (obs ∷ os) =
      let rest = visits os in
      let sat = to_satid x.prns sys obs.sat in
      if sat == 0 then rest else visit_signals sat obs 0 (x.nfreq + x.nexobs) ++ rest

-- `gen_msm_index`
module _ {D T : Type 0} where
  -- `sat_ind[sat-1]=sig_ind[sig-1]=1;`
  unfoldable pub mark : List (Visit D T) → List ℕ × List ℕ → List ℕ × List ℕ
  mark [] ind = ind
  mark (v ∷ vs) ind = mark vs (set ind.0 (v.sat - 1) 1, set ind.1 (v.sig - 1) 1)

  -- The cell of a satellite and a signal.
  unfoldable pub cell_of : ℕ → List ℕ → List ℕ → Visit D T → ℕ
  cell_of nsig sat_ind sig_ind v =
      get_or sig_ind (v.sig - 1) 0 - 1 + (get_or sat_ind (v.sat - 1) 0 - 1) * nsig

  unfoldable pub mark_cells : ℕ → List ℕ → List ℕ → List (Visit D T) → List ℕ → List ℕ
  mark_cells nsig sat_ind sig_ind [] cell_ind = cell_ind
  mark_cells nsig sat_ind sig_ind (v ∷ vs) cell_ind =
      mark_cells nsig sat_ind sig_ind vs (set cell_ind (cell_of nsig sat_ind sig_ind v) 1)

-- `if (ind[i]) ind[i]=++(*n);`: the array and `*n`.
unfoldable pub number : ℕ → List ℕ → List ℕ × ℕ
number n [] = ([], n)
number n (m ∷ ms) =
    let n' = if m == 0 then n else n + 1 in
    let rest = number n' ms in ((if m == 0 then 0 else n') ∷ rest.0, rest.1)

-- `if (cell_ind[i]&&*ncell<64) cell_ind[i]=++(*ncell);` for the first `rounds` cells.
unfoldable pub number_cells : ℕ → ℕ → List ℕ → List ℕ × ℕ
number_cells rounds ncell [] = ([], ncell)
number_cells zero ncell cells = (cells, ncell)
number_cells (suc rounds) ncell (m ∷ ms) =
    let counts = not (m == 0) && ltb ncell 64 in
    let n' = if counts then ncell + 1 else ncell in
    let rest = number_cells rounds n' ms in ((if counts then n' else m) ∷ rest.0, rest.1)

pub record MsmIndex : Type 0 where
  pub nsat : ℕ
  pub nsig : ℕ
  pub ncell : ℕ
  pub sat_ind : List ℕ
  pub sig_ind : List ℕ
  pub cell_ind : List ℕ

unfoldable pub gen_msm_index : {D T : Type 0} → List (Visit D T) → MsmIndex
gen_msm_index vs =
    let marked = mark vs (replicate 64 0, replicate 32 0) in
    let sats = number 0 marked.0 in
    let sigs = number 0 marked.1 in
    let cells =
      number_cells (sats.1 * sigs.1) 0 (mark_cells sigs.1 sats.0 sigs.0 vs (replicate 2048 0)) in
    record {
      nsat = sats.1;
      nsig = sigs.1;
      ncell = cells.1;
      sat_ind = sats.0;
      sig_ind = sigs.0;
      cell_ind = cells.0;
    }

-- `rrng`, `rrate` and `info` by the number of the satellite.
pub record SatFields (D : Type 0) : Type 0 where
  pub rrng : List D
  pub rrate : List D
  pub info : List ℕ

-- `psrng`, `phrng`, `rate`, `lock`, `half` and `cnr` by the number of the cell, and the members of
-- `rtcm_t` that the loop sets.
pub record SigFields (D T : Type 0) : Type 0 where
  pub psrng : List D
  pub phrng : List D
  pub rate : List D
  pub lock : List D
  pub half : List ℕ
  pub cnr : List D
  pub kept : ℕ → ℕ → D
  pub lltime : ℕ → ℕ → T

module _ {D T : Type 0} (x : Setup D T) where
  abbrev zero_d : D
  zero_d = x.d.num 0

  -- None for -1; the satellite is one of GLONASS whose ephemeris stands at its place.
  unfoldable pub fcn_glo : List (ℕ × ℕ) → ℕ → Option ℕ
  fcn_glo gephs sat =
      let found = satsys x.prns sat in
      let geph = get_or gephs (found.1 - 1) (0, 0) in
      if not (same_sys found.0 glo) || not (geph.0 == sat)
      then none
      else some ((geph.1 + 7) % 2 ^ 32)

  -- `info[k]`, an unsigned char: 15 for a negative number.
  unfoldable pub info_of : System → Option ℕ → ℕ
  info_of sys fcn =
      if not (same_sys sys glo)
      then 0
      else elim fcn [ none ↦ 15 | some n ↦ if ltb n (2 ^ 31) then n % 2 ^ 8 else 15 ]

  -- The body of the loops of `gen_msm_sat`.
  unfoldable pub sat_step : System → List (ℕ × ℕ) → List ℕ → Visit D T → SatFields D → SatFields D
  sat_step sys gephs sat_ind v s =
      let k = get_or sat_ind (v.sat - 1) 0 - 1 in
      let lambda = satwavelen x gephs v.obs.sat (int_pred v.f) in
      let p = v.obs.p v.j in
      let dop = v.obs.dop v.j in
      let rrng_s =
        x.d.mul
          (x.d.mul (x.d.of_int (round x.d x.k (x.d.div (x.d.div p (range_ms x)) (x.d.p2 10))))
            (range_ms x))
          (x.d.p2 10) in
      let rrate_s =
        x.d.mul (x.d.of_int (round x.d x.k (x.d.mul (x.g.neg dop) lambda))) (x.d.num 1) in
      record {
        rrng =
            if x.d.eq (get_or s.rrng k zero_d) zero_d && not (x.d.eq p zero_d)
            then set s.rrng k rrng_s
            else s.rrng;
        rrate =
            if x.d.eq (get_or s.rrate k zero_d) zero_d && not (x.d.eq dop zero_d)
            then set s.rrate k rrate_s
            else s.rrate;
        info = set s.info k (info_of sys (fcn_glo gephs v.obs.sat));
      }

  unfoldable pub sat_loop :
      System → List (ℕ × ℕ) → List ℕ → List (Visit D T) → SatFields D → SatFields D
  sat_loop sys gephs sat_ind [] s = s
  sat_loop sys gephs sat_ind (v ∷ vs) s =
      sat_loop sys gephs sat_ind vs (sat_step sys gephs sat_ind v s)

  -- `info` is not set before the loop; each satellite with a number is visited.
  unfoldable pub gen_msm_sat : System → List (ℕ × ℕ) → List ℕ → List (Visit D T) → SatFields D
  gen_msm_sat sys gephs sat_ind vs =
      sat_loop sys gephs sat_ind vs
        (record { rrng = replicate 64 zero_d; rrate = replicate 64 zero_d; info = replicate 64 0 })

  -- The time of lock, and the time since when it holds.
  unfoldable pub locktime_d : T → T → Bool → D × T
  locktime_d time lltime slip =
      let start = if x.g.is_zero lltime || slip then time else lltime in
      (x.g.timediff time start, start)

  -- `phrng_s/lambda`, rounded, in metres again.
  unfoldable pub whole_cycles : D → D → D
  whole_cycles phrng_s lambda = x.d.mul (x.d.of_int (round x.d x.k (x.d.div phrng_s lambda))) lambda

  -- The body of the loops of `gen_msm_sig`.
  unfoldable pub sig_step :
      List (ℕ × ℕ) → MsmIndex → SatFields D → Visit D T → SigFields D T → SigFields D T
  sig_step gephs m sats v s =
      let k = get_or m.sat_ind (v.sat - 1) 0 - 1 in
      let cell = get_or m.cell_ind (cell_of m.nsig m.sat_ind m.sig_ind v) 0 in
      let lambda = satwavelen x gephs v.obs.sat (int_pred v.f) in
      let place = v.obs.sat - 1 in
      let p = v.obs.p v.j in
      let l = v.obs.l v.j in
      let dop = v.obs.dop v.j in
      let rrng = get_or sats.rrng k zero_d in
      let dark = x.d.le lambda zero_d in
      let psrng_s = if x.d.eq p zero_d then zero_d else x.d.sub p rrng in
      let range = if x.d.eq l zero_d || dark then zero_d else x.d.sub (x.d.mul l lambda) rrng in
      let rate_s =
        if x.d.eq dop zero_d || dark
        then zero_d
        else x.d.sub (x.d.mul (x.g.neg dop) lambda) (get_or sats.rrate k zero_d) in
      let lli = v.obs.lli v.j in
      let jump =
        not (bit_and lli 1 == 0)
        || x.d.lt (x.d.num 1171) (x.g.abs (x.d.sub range (s.kept place v.j))) in
      let kept = if jump then update₂ s.kept place v.j (whole_cycles range lambda) else s.kept in
      let phrng_s = x.d.sub range (kept place v.j) in
      let lt = locktime_d v.obs.time (s.lltime place v.j) jump in
      if leb 64 cell then s else record {
        psrng = if x.d.eq psrng_s zero_d then s.psrng else set s.psrng (cell - 1) psrng_s;
        phrng = if x.d.eq phrng_s zero_d then s.phrng else set s.phrng (cell - 1) phrng_s;
        rate = if x.d.eq rate_s zero_d then s.rate else set s.rate (cell - 1) rate_s;
        lock = set s.lock (cell - 1) lt.0;
        half = set s.half (cell - 1) (if bit_and lli 2 == 0 then 0 else 1);
        cnr =
            set s.cnr (cell - 1) (x.to_float (x.d.mul (x.d.of_int (v.obs.snr v.j)) (x.d.lit 25 2)));
        kept = kept;
        lltime = update₂ s.lltime place v.j lt.1;
      }

  unfoldable pub sig_loop :
      List (ℕ × ℕ) → MsmIndex → SatFields D → List (Visit D T) → SigFields D T → SigFields D T
  sig_loop gephs m sats [] s = s
  sig_loop gephs m sats (v ∷ vs) s = sig_loop gephs m sats vs (sig_step gephs m sats v s)

  -- The code does not set `lock`, `half` and `cnr` before the loop: what they hold is a parameter.
  unfoldable pub gen_msm_sig :
      List (ℕ × ℕ)
      → MsmIndex
      → SatFields D
      → List (Visit D T)
      → (ℕ → ℕ → D)
      → (ℕ → ℕ → T)
      → SigFields D T
  gen_msm_sig gephs m sats vs kept lltime = sig_loop gephs m sats vs (record {
    psrng = replicate 64 zero_d;
    phrng = replicate 64 zero_d;
    rate = replicate 64 zero_d;
    lock = replicate 64 x.unset_lock;
    half = replicate 64 x.unset_half;
    cnr = replicate 64 x.unset_cnr;
    kept = kept;
    lltime = lltime;
  })
