-- ===== src/Msm/Invariant.antt =====
-- Whatever a message says, `decode_msm4` to `decode_msm7` leave a table of observations with one
-- entry for each satellite and at most MAXOBS of them.
use go_ntrip.Base.{
  ℕ, zero, suc, ◌+◌, ◌*◌, ◌≤◌, ◌≡◌, refl, sym, ◌∙◌, subst, List, [], ◌∷◌, length, length-set,
  get_or, set, Bool, true, false, ◌||◌, not, ltb, ◌==◌, Bool-cases, if◌then◌else◌, Option, none,
  some, inl, inr, ℤ, pos, negsuc, arith,
}
use go_ntrip.Bits.{getbitu}
use go_ntrip.Rtcm.{Rtcm}
use go_ntrip.Station.{test_staid}
use go_ntrip.Satellite.{System, satno}
use go_ntrip.Obs.{Obsd, ObsState, new_obs}
use go_ntrip.Obs.Table.{IsNew, AreDistinct, obsindex-IsIndexed}
use go_ntrip.Msm.{FullMsm, MsmHead, read_head, count_cells, read_msm, message_bits}
use go_ntrip.Msm.Values.{Setup, MsmValues, values_of}
use go_ntrip.Msm.Decode.{
  Priorities, head_time, decode_msm_head, finish, save_cell, save_at, save_cells, starts_anew,
  open_obs, prn_offset, save_sats, save_msm_obs, decode_cells, decode_msm,
}

module _ {D T : Type 0} where
  set-IsNew :
      (sat i : ℕ) (os : List (Obsd D T)) (default o : Obsd D T)
      → o.sat ≡ (get_or os i default).sat
      → IsNew sat os
      → IsNew sat (set os i o)
  set-IsNew sat i [] default o e h = h
  set-IsNew sat zero (p ∷ ps) default o e h = ((λ q. h.0 (sym e ∙ q)), h.1)
  set-IsNew sat (suc i) (p ∷ ps) default o e h = (h.0, set-IsNew sat i ps default o e h.1)

  -- An entry is replaced by one of the same satellite.
  set-AreDistinct :
      (i : ℕ) (os : List (Obsd D T)) (default o : Obsd D T)
      → o.sat ≡ (get_or os i default).sat
      → AreDistinct os
      → AreDistinct (set os i o)
  set-AreDistinct i [] default o e h = h
  set-AreDistinct zero (p ∷ ps) default o e h = (subst (λ sat. IsNew sat ps) (sym e) h.0, h.1)
  set-AreDistinct (suc i) (p ∷ ps) default o e h =
      (set-IsNew p.sat i ps default o e h.0, set-AreDistinct i ps default o e h.1)

-- The table of a state.
pub record IsTable {D T : Type 0} (maxobs : ℕ) (st : ObsState D T) : Type 0 where
  pub distinct : AreDistinct st.obs
  pub bounded : length st.obs ≤ maxobs

module _ {D T : Type 0} (x : Setup D T) (sys : System) where
  save_cell-IsTable :
      (v : MsmValues D) (i j sat index : ℕ) (signal : ℕ × ℕ) (ind : ℕ) (st : ObsState D T)
      → IsTable x.maxobs st
      → IsTable x.maxobs (save_cell x sys v i j sat index signal ind st)
  unfolding save_cell
  save_cell-IsTable v i j sat index signal ind st h = record {
    distinct = set-AreDistinct index st.obs (new_obs x.d st.time sat) _ refl h.distinct;
    bounded = omega (arith, h.bounded, length-set st.obs index _);
  }

  if_IsTable :
      (b : Bool) (st st' : ObsState D T)
      → IsTable x.maxobs st
      → IsTable x.maxobs st'
      → IsTable x.maxobs (if b then st else st')
  if_IsTable true st st' h h' = h
  if_IsTable false st st' h h' = h'

  save_at-IsTable :
      (v : MsmValues D) (i j sat : ℕ) (signal : ℕ × ℕ) (index ind : Option ℕ) (st : ObsState D T)
      → IsTable x.maxobs st
      → IsTable x.maxobs (save_at x sys v i j sat signal index ind st)
  unfolding save_at
  save_at-IsTable v i j sat signal none ind st h = h
  save_at-IsTable v i j sat signal (some at) none st h = h
  save_at-IsTable v i j sat signal (some at) (some place) st h =
      save_cell-IsTable v i j sat at signal place st h

  save_cells-IsTable :
      (head : MsmHead) (v : MsmValues D) (i sat : ℕ) (index : Option ℕ) (k : ℕ)
      (signals : List (ℕ × ℕ)) (inds : List (Option ℕ)) (j : ℕ) (st : ObsState D T)
      → IsTable x.maxobs st
      → IsTable x.maxobs (save_cells x sys head v i sat index k signals inds j st).0
  unfolding save_cells
  save_cells-IsTable head v i sat index k [] inds j st h = h
  save_cells-IsTable head v i sat index k (signal ∷ signals) [] j st h = h
  save_cells-IsTable head v i sat index k (signal ∷ signals) (ind ∷ inds) j st h =
      save_cells-IsTable head v i sat index (k + 1) signals inds _ _ (
        if_IsTable (not (get_or head.cellmask (k + i * length head.sigs) 0 == 0)) _ st
          (save_at-IsTable v i j sat signal index ind st h) h)

  open_obs-IsTable :
      (st : ObsState D T) (sat : ℕ)
      → IsTable x.maxobs st
      → IsTable x.maxobs (open_obs x sys st sat).0
  unfolding open_obs
  open_obs-IsTable st sat h =
      let obs = if starts_anew x sys st then [] else st.obs in
      let t =
        obsindex-IsIndexed x.d x.maxobs obs st.time sat (kept (starts_anew x sys st)).0
          (kept (starts_anew x sys st)).1 in
      elim (Bool-cases (sat == 0)) [
        | inl unknown ↦ rw unknown h
        | inr known ↦ rw known (record { distinct = t.0; bounded = t.1 })
      ]
    where
      kept :
          (anew : Bool)
          → AreDistinct (if anew then [] else st.obs)
            × (length (if anew then [] else st.obs) ≤ x.maxobs)
      kept true = (tt, omega arith)
      kept false = (h.distinct, h.bounded)

  save_sats-IsTable :
      (head : MsmHead) (v : MsmValues D) (signals : List (ℕ × ℕ)) (inds : List (Option ℕ))
      (ids : List ℕ) (i j : ℕ) (st : ObsState D T)
      → IsTable x.maxobs st
      → IsTable x.maxobs (save_sats x sys head v signals inds ids i j st)
  unfolding save_sats
  save_sats-IsTable head v signals inds [] i j st h = h
  save_sats-IsTable head v signals inds (id ∷ ids) i j st h =
      let sat = satno x.prns sys (pos (id + prn_offset x sys)) in
      let opened = open_obs x sys st sat in
      let table = open_obs-IsTable st sat h in
      save_sats-IsTable head v signals inds ids (i + 1) _ _
        (save_cells-IsTable head v i sat opened.1 0 signals inds j opened.0 table)

  -- The guards of `decode_msm_head`.
  abbrev guarded :
      (b c : Bool) (r out : Rtcm (ObsState D T)) (head : MsmHead)
      → Rtcm (ObsState D T) × Option MsmHead
  guarded b c r out head = if b then (r, none) else if c then (out, none) else (out, some head)

  guarded-IsTable :
      (b c : Bool) (r out : Rtcm (ObsState D T)) (head : MsmHead)
      → IsTable x.maxobs r.body
      → IsTable x.maxobs out.body
      → IsTable x.maxobs (guarded b c r out head).0.body
  guarded-IsTable true c r out head h h' = h
  guarded-IsTable false true r out head h h' = h'
  guarded-IsTable false false r out head h h' = h'

  decode_msm_head-IsTable :
      (r : Rtcm (ObsState D T))
      → IsTable x.maxobs r.body
      → IsTable x.maxobs (decode_msm_head x sys r).0.body
  unfolding decode_msm_head
  decode_msm_head-IsTable r h =
      let head = read_head r.buff in
      let cells = length head.sats * length head.sigs in
      let tested = test_staid r.body.station (getbitu r.buff 36 12) in
      guarded-IsTable (ltb (r.len * 8) (36 + 157))
        (not tested.1 || ltb 64 cells || ltb (r.len * 8) (193 + cells)) r
        (record r {
          body = record (r.body) { time = head_time x sys r.body.time r.buff; station = tested.0 };
        })
        head h (record { distinct = h.distinct; bounded = h.bounded })

  save_msm_obs-IsTable :
      (pri : Priorities) (head : MsmHead) (v : MsmValues D) (st : ObsState D T)
      → IsTable x.maxobs st
      → IsTable x.maxobs (save_msm_obs x sys pri head v st)
  unfolding save_msm_obs
  save_msm_obs-IsTable pri head v st h = save_sats-IsTable head v _ _ head.sats 0 0 st h

  decode_cells-IsTable :
      (pri : Priorities) (kind : FullMsm) (r : Rtcm (ObsState D T)) (head : MsmHead)
      → IsTable x.maxobs r.body
      → IsTable x.maxobs (decode_cells x sys pri kind r head).0.body
  unfolding decode_cells finish
  decode_cells-IsTable pri kind r head h =
      let nsat = length head.sats in
      let ncell = count_cells head.cellmask in
      let i = 193 + nsat * length head.sigs in
      let saved =
        save_msm_obs-IsTable pri head (values_of x kind (read_msm kind r.buff i nsat ncell)) r.body
          h in
      elim (Bool-cases (ltb (r.len * 8) (i + message_bits kind nsat ncell))) [
        | inl short ↦ rw short h
        | inr whole ↦ rw whole (record { distinct = saved.distinct; bounded = saved.bounded })
      ]

  -- Whatever bytes a buffer holds, the decoders of MSM4 to MSM7 leave the table of observations
  -- with one entry for each satellite and at most MAXOBS of them, if it was so before.
  pub decode_msm-IsTable :
      (pri : Priorities) (kind : FullMsm) (r : Rtcm (ObsState D T))
      → IsTable x.maxobs r.body
      → IsTable x.maxobs (decode_msm x sys pri kind r).0.body
  unfolding decode_msm
  decode_msm-IsTable pri kind r h =
      continued (decode_msm_head x sys r).1 (decode_msm_head x sys r).0
        (decode_msm_head-IsTable r h)
    where
      continued :
          (head : Option MsmHead) (r : Rtcm (ObsState D T))
          → IsTable x.maxobs r.body
          → IsTable x.maxobs
              (elim head as (λ o. Rtcm (ObsState D T) × ℤ) [
                | none ↦ (r, negsuc 0)
                | some h ↦ decode_cells x sys pri kind r h
              ]).0.body
      continued none r h = h
      continued (some head) r h = decode_cells-IsTable pri kind r head h
