-- ===== src/Msm/Decode.antt =====
-- c/rtklib/rtcm3.c: `decode_msm_head`, `decode_msm0`, `decode_msm4` to `decode_msm7` and
-- `save_msm_obs`.
use go_ntrip.Base.{
  ℕ, ◌+◌, ◌-◌, ◌*◌, ◌%◌, ◌^◌, List, [], ◌∷◌, map, length, get_or, set, Bool, false, ◌&&◌, ◌||◌, not,
  ltb, leb, ◌==◌, if◌then◌else◌, ℤ, pos, negsuc, Option, none, some,
}
use go_ntrip.Bits.{getbitu}
use go_ntrip.Rtcm.{Rtcm}
use go_ntrip.Satellite.{
  System, System.gps, System.glo, System.gal, System.qzs, System.cmp, System.leo, System.sbs,
  System.sys_none, satno,
}
use go_ntrip.Station.{test_staid}
use go_ntrip.Lock.{lossoflock}
use go_ntrip.Codes.{sig_code, getcodepri}
use go_ntrip.Codes.Tables.{Name}
use go_ntrip.Obs.{ObsState, update, new_obs, obsindex, adjweek, adjday_glot}
use go_ntrip.Msm.{FullMsm, MsmHead, read_head, count_cells, read_msm, message_bits}
use go_ntrip.Msm.Values.{Setup, int_pred, satwavelen, glo_wave, MsmValues, values_of}
use go_ntrip.Msm.Signals.{sigindex}

-- The options and the priorities of `getcodepri`, by system.
pub record Priorities : Type 0 where
  pub opts : System → List Name
  pub pris : System → List (List ℕ)

-- What is added to a satellite id for the prn.
unfoldable pub prn_offset : {D T : Type 0} → Setup D T → System → ℕ
prn_offset x qzs = x.prns.minprn qzs - 1
prn_offset x sbs = x.prns.minprn sbs - 1
prn_offset x sys = 0

module _ {D T : Type 0} (x : Setup D T) (sys : System) where
  unfoldable pub head_time : T → List ℕ → T
  head_time before buff =
      let tod = x.d.mul (x.d.of_uint (getbitu buff 51 27)) (x.d.lit 1 3) in
      let tow = x.d.mul (x.d.of_uint (getbitu buff 48 30)) (x.d.lit 1 3) in
      elim sys [
        | glo ↦ adjday_glot x.d x.g before tod
        | cmp ↦ adjweek x.d x.g before (x.d.add tow (x.d.num 14))
        | gps ↦ adjweek x.d x.g before tow
        | gal ↦ adjweek x.d x.g before tow
        | qzs ↦ adjweek x.d x.g before tow
        | sbs ↦ adjweek x.d x.g before tow
        | leo ↦ adjweek x.d x.g before tow
        | sys_none ↦ adjweek x.d x.g before tow
      ]

  -- The state, and the head unless -1 is returned.
  unfoldable pub decode_msm_head : Rtcm (ObsState D T) → Rtcm (ObsState D T) × Option MsmHead
  decode_msm_head r =
      let h = read_head r.buff in
      let timed = record (r.body) { time = head_time r.body.time r.buff } in
      let tested = test_staid timed.station (getbitu r.buff 36 12) in
      let out = record r { body = record timed { station = tested.0 } } in
      let cells = length h.sats * length h.sigs in
      if ltb (r.len * 8) (36 + 157)
      then (r, none)
      else if not tested.1 || ltb 64 cells || ltb (r.len * 8) (193 + cells)
      then (out, none)
      else (out, some h)

  -- `rtcm->obsflag=!sync; return sync?0:1;`
  unfoldable pub finish : ℕ → Rtcm (ObsState D T) → Rtcm (ObsState D T) × ℤ
  finish sync r = (
    record r {
      body = record (r.body) { station = record (r.body.station) { obsflag = sync == 0 } };
    },
    if sync == 0 then pos 1 else pos 0,
  )

  unfoldable pub decode_msm0 : Rtcm (ObsState D T) → Rtcm (ObsState D T) × ℤ
  decode_msm0 r =
      let head = decode_msm_head r in
      elim head.1 [ none ↦ (head.0, negsuc 0) | some h ↦ finish h.sync head.0 ]

  -- The wave length in `save_msm_obs`: the frequency number of GLONASS is taken from `ex[i]`.
  unfoldable pub cell_wave : ObsState D T → ℕ → ℕ → Option (List ℕ) → ℕ → D
  cell_wave st sat freq ex i =
      let usual = satwavelen x st.gephs sat (int_pred freq) in
      elim sys [
        | glo ↦ elim ex [
          | none ↦ usual
          | some infos ↦
              let info = get_or infos i 0 in
              if leb info 13
              then glo_wave x (if freq == 2 then 1 else 0) ((info + (2 ^ 32 - 7)) % 2 ^ 32)
              else usual
        ]
        | gps ↦ usual
        | cmp ↦ usual
        | gal ↦ usual
        | qzs ↦ usual
        | sbs ↦ usual
        | leo ↦ usual
        | sys_none ↦ usual
      ]

  -- `pr[j]>-1E12`
  unfoldable pub given : D → Bool
  given value = x.d.lt (x.g.neg (x.d.num (10 ^ 12))) value

  -- `rr&&rrf&&rrf[j]>-1E12&&wl>0.0` with the sum of the rates.
  unfoldable pub doppler_of : MsmValues D → ℕ → ℕ → D → Option D
  doppler_of v i j wl = elim v.rr [
    | none ↦ none
    | some rr ↦ elim v.rrf [
      | none ↦ none
      | some rrf ↦
          let fine = get_or rrf j (x.d.num 0) in
          if given fine && x.d.lt (x.d.num 0) wl
          then some (x.to_float (x.d.div (x.g.neg (x.d.add (get_or rr i (x.d.num 0)) fine)) wl))
          else none
    ]
  ]

  -- The body of the inner loop of `save_msm_obs`, for the place `ind` in entry `index`.
  unfoldable pub save_cell : MsmValues D → ℕ → ℕ → ℕ → ℕ → ℕ × ℕ → ℕ → ObsState D T → ObsState D T
  save_cell v i j sat index signal ind st =
      let wl = cell_wave st sat signal.1 v.ex i in
      let entry = get_or st.obs index (new_obs x.d st.time sat) in
      let r = get_or v.r i (x.d.num 0) in
      let pr = get_or v.pr j (x.d.num 0) in
      let cp = get_or v.cp j (x.d.num 0) in
      let ranged = not (x.d.eq r (x.d.num 0)) in
      let lost = lossoflock st.lock sat ind (get_or v.lock j 0) in
      let half = if get_or v.half j 0 == 0 then 0 else 3 in
      record st {
        obs = set st.obs index (record entry {
          p = if ranged && given pr then update entry.p ind (x.d.add r pr) else entry.p;
          l =
              if ranged && given cp && x.d.lt (x.d.num 0) wl
              then update entry.l ind (x.d.div (x.d.add r cp) wl)
              else entry.l;
          dop = elim (doppler_of v i j wl) [
            | none ↦ entry.dop
            | some value ↦ update entry.dop ind value
          ];
          lli = update entry.lli ind ((if lost.1 then 1 else 0) + half);
          snr =
              update entry.snr ind
                (x.d.to_uint (x.d.mul (get_or v.cnr j (x.d.num 0)) (x.d.num 4)) % 2 ^ 8);
          code = update entry.code ind signal.0;
        });
        lock = lost.0;
      }

  -- `if (sat&&index>=0&&ind[k]>=0) {...}`
  unfoldable pub save_at :
      MsmValues D → ℕ → ℕ → ℕ → ℕ × ℕ → Option ℕ → Option ℕ → ObsState D T → ObsState D T
  save_at v i j sat signal none ind st = st
  save_at v i j sat signal (some at) none st = st
  save_at v i j sat signal (some at) (some place) st = save_cell v i j sat at signal place st

  -- The inner loop from signal `k` on, with the places of the signals left; the state and `j`.
  unfoldable pub save_cells :
      MsmHead
      → MsmValues D
      → ℕ
      → ℕ
      → Option ℕ
      → ℕ
      → List (ℕ × ℕ)
      → List (Option ℕ)
      → ℕ
      → ObsState D T
      → ObsState D T × ℕ
  save_cells h v i sat index k [] inds j st = (st, j)
  save_cells h v i sat index k (signal ∷ signals) [] j st = (st, j)
  save_cells h v i sat index k (signal ∷ signals) (ind ∷ inds) j st =
      let marked = not (get_or h.cellmask (k + i * length h.sigs) 0 == 0) in
      save_cells h v i sat index (k + 1) signals inds (if marked then j + 1 else j)
        (if marked then save_at v i j sat signal index ind st else st)

  -- `rtcm->obsflag||fabs(tt)>1E-9`; an empty list needs no new start.
  unfoldable pub starts_anew : ObsState D T → Bool
  starts_anew st = st.station.obsflag || elim st.obs [
    | [] ↦ false
    | first ∷ others ↦ x.d.lt (x.d.lit 1 9) (x.g.abs (x.g.timediff first.time st.time))
  ]

  -- The entry of a satellite: the list starts anew behind a complete epoch or at another time.
  unfoldable pub open_obs : ObsState D T → ℕ → ObsState D T × Option ℕ
  open_obs st sat =
      let found = obsindex x.d x.maxobs (if starts_anew st then [] else st.obs) st.time sat in
      if sat == 0
      then (st, none)
      else (record st { station = record (st.station) { obsflag = false }; obs = found.0 }, found.1)

  -- The outer loop, from satellite `i` and cell `j` on.
  unfoldable pub save_sats :
      MsmHead
      → MsmValues D
      → List (ℕ × ℕ)
      → List (Option ℕ)
      → List ℕ
      → ℕ
      → ℕ
      → ObsState D T
      → ObsState D T
  save_sats h v signals inds [] i j st = st
  save_sats h v signals inds (id ∷ ids) i j st =
      let sat = satno x.prns sys (pos (id + prn_offset x sys)) in
      let opened = open_obs st sat in
      let done = save_cells h v i sat opened.1 0 signals inds j opened.0 in
      save_sats h v signals inds ids (i + 1) done.1 done.0

  unfoldable pub save_msm_obs : Priorities → MsmHead → MsmValues D → ObsState D T → ObsState D T
  save_msm_obs pri h v st =
      let signals = map (λ id. sig_code sys id) h.sigs in
      let inds =
        sigindex x.nfreq x.nexobs (getcodepri x.codes (pri.opts sys) (pri.pris sys)) signals in
      save_sats h v signals inds h.sats 0 0 st

  -- The end of the decoders behind the head.
  unfoldable pub decode_cells :
      Priorities → FullMsm → Rtcm (ObsState D T) → MsmHead → Rtcm (ObsState D T) × ℤ
  decode_cells pri kind r h =
      let nsat = length h.sats in
      let ncell = count_cells h.cellmask in
      let i = 193 + nsat * length h.sigs in
      let v = values_of x kind (read_msm kind r.buff i nsat ncell) in
      if ltb (r.len * 8) (i + message_bits kind nsat ncell)
      then (r, negsuc 0)
      else finish h.sync (record r { body = save_msm_obs pri h v r.body })

  unfoldable pub decode_msm : Priorities → FullMsm → Rtcm (ObsState D T) → Rtcm (ObsState D T) × ℤ
  decode_msm pri kind r =
      let head = decode_msm_head r in
      elim head.1 [ none ↦ (head.0, negsuc 0) | some h ↦ decode_cells pri kind head.0 h ]
