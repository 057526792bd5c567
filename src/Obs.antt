-- ===== src/Obs.antt =====
-- c/rtklib/rtcm3.c: what the decoders of observations share: the table of observations with
-- `obsindex`, the carrier phase and the receiver's time (`adjcp`, `adjweek`, `adjday_glot`), and
-- `snratio`. MAXOBS and the number of signals of an observation, NFREQ+NEXOBS, come from rtklib.h
-- and are parameters.
pub mod Table
use go_ntrip.Base.{
  ℕ, zero, suc, ◌+◌, ◌-◌, ◌%◌, ◌^◌, List, [], ◌∷◌, ◌++◌, length, Bool, true, false, ◌&&◌, ◌||◌, not,
  leb, ◌==◌, if◌then◌else◌, Option, none, some, get_or, Option-cases,
}
use go_ntrip.Ephemeris.{Doubles}
use go_ntrip.Glonass.{Calendar}
use go_ntrip.Station.{StaState}
use go_ntrip.Lock.{Locks}

-- `obsd_t`: the signals by their index.
pub record Obsd (D T : Type 0) : Type 0 where
  pub sat : ℕ
  pub time : T
  pub p : ℕ → D
  pub l : ℕ → D
  pub dop : ℕ → D
  pub snr : ℕ → ℕ
  pub lli : ℕ → ℕ
  pub code : ℕ → ℕ

-- The members of `rtcm_t` that the observation messages use: `obs` holds the first `obs.n` entries
-- of `obs.data`; the station id and `obsflag` stand in `station`; `cp`, `lock` and `lltime` are
-- indexed by satellite and signal; `gephs` has the satellite and the frequency number
-- of each of the `nav.ng` entries of `nav.geph`.
pub record ObsState (D T : Type 0) : Type 0 where
  pub station : StaState D
  pub seqno : ℕ
  pub time : T
  pub obs : List (Obsd D T)
  pub cp : ℕ → ℕ → D
  pub lock : Locks
  pub lltime : ℕ → ℕ → T
  pub gephs : List (ℕ × ℕ)

-- An entry at two indices replaced.
abbrev pub update₂ : {A : Type 0} → (ℕ → ℕ → A) → ℕ → ℕ → A → ℕ → ℕ → A
update₂ f i j v s k = if (s == i) && (k == j) then v else f s k

abbrev pub update : {A : Type 0} → (ℕ → A) → ℕ → A → ℕ → A
update f i v k = if k == i then v else f k

module _ {D T : Type 0} (d : Doubles D) where
  -- A new entry of the table.
  unfoldable pub new_obs : T → ℕ → Obsd D T
  new_obs time sat = record {
    sat = sat;
    time = time;
    p = λ j. d.num 0;
    l = λ j. d.num 0;
    dop = λ j. d.num 0;
    snr = λ j. 0;
    lli = λ j. 0;
    code = λ j. 0;
  }

  -- The search of `obsindex`, from entry `i` on.
  unfoldable pub find_obs : List (Obsd D T) → ℕ → ℕ → Option ℕ
  find_obs [] i sat = none
  find_obs (o ∷ os) i sat =
      let rest = find_obs os (i + 1) sat in if o.sat == sat then some i else rest

  -- The table and the index; there is no index when the table is full.
  unfoldable pub obsindex : ℕ → List (Obsd D T) → T → ℕ → List (Obsd D T) × Option ℕ
  obsindex maxobs obs time sat = elim (find_obs obs 0 sat) [
    | some i ↦ (obs, some i)
    | none ↦
        if leb maxobs (length obs)
        then (obs, none)
        else (obs ++ (new_obs time sat ∷ []), some (length obs))
  ]

module _ {D : Type 0} (d : Doubles D) where
  -- The phase that continues the last one, and the phases kept.
  unfoldable pub adjcp : (ℕ → ℕ → D) → ℕ → ℕ → D → D × (ℕ → ℕ → D)
  adjcp kept sat freq cp =
      let last = kept (sat - 1) freq in
      let next =
        if d.eq last (d.num 0)
        then cp
        else if d.lt cp (d.sub last (d.num 750))
        then d.add cp (d.num 1500)
        else if d.lt (d.add last (d.num 750)) cp
        then d.sub cp (d.num 1500)
        else cp in
      (next, update₂ kept (sat - 1) freq next)

  -- The ratio in quarters, an unsigned char.
  unfoldable pub snratio : D → ℕ
  snratio snr =
      (if d.le snr (d.num 0) || d.le (d.lit 2555 1) snr
        then d.to_uint (d.num 0)
        else d.to_uint (d.add (d.mul snr (d.num 4)) d.half))
      % 2 ^ 8

module _ {D T : Type 0} (d : Doubles D) (g : Calendar D T) where
  unfoldable pub started : T → T
  started time = if g.is_zero time then g.utc2gpst g.now else time

  -- The receiver's time after `adjweek`, from its time before.
  unfoldable pub adjweek : T → D → T
  adjweek before tow =
      let time = started before in
      let tow_p = g.tow time in
      g.gpst2time (g.week time) (
        if d.lt tow (d.sub tow_p (d.num 302400))
        then d.add tow (d.num 604800)
        else if d.lt (d.add tow_p (d.num 302400)) tow
        then d.sub tow (d.num 604800)
        else tow)

  unfoldable pub adjday_glot : T → D → T
  adjday_glot before tod =
      let time = g.timeadd (g.gpst2utc (started before)) (d.num 10800) in
      let tod_p = g.fmod (g.tow time) (d.num 86400) in
      let near =
        if d.lt tod (d.sub tod_p (d.num 43200))
        then d.add tod (d.num 86400)
        else if d.lt (d.add tod_p (d.num 43200)) tod
        then d.sub tod (d.num 86400)
        else tod in
      g.utc2gpst (
        g.timeadd (g.gpst2time (g.week time) (d.add (d.sub (g.tow time) tod_p) near))
          (g.neg (d.num 10800)))
