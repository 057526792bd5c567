-- ===== src/Msm/Values.antt =====
-- c/rtklib/rtcm3e.c and rtcm3.c: from the values of a multiple signal message to the words that are
-- sent (the loop bodies of `encode_msm_int_rrng` and the other encoders of a column) and back (those
-- of `decode_msm4` to `decode_msm7`); rtkcmn.c: `satwavelen`.
use go_ntrip.Base.{
  ℕ, zero, suc, ◌-◌, ◌/◌, ◌%◌, ◌^◌, List, [], ◌∷◌, map, ◌||◌, ltb, leb, ◌==◌, if◌then◌else◌, length,
  get_or, ℤ, pos, negsuc, Option, none, some,
}
use go_ntrip.Satellite.{
  System.gps, System.glo, System.gal, System.qzs, System.cmp, System.leo, System.sbs,
  System.sys_none, PrnRanges, satsys,
}
use go_ntrip.Ephemeris.{Doubles, Clock, round, round_u}
use go_ntrip.Glonass.{Calendar}
use go_ntrip.Codes.{CodeNumbers}
use go_ntrip.Lock.{to_msm_lock, to_msm_lock_ex}
use go_ntrip.Msm.{FullMsm, FullMsm.msm4, FullMsm.msm5, FullMsm.msm6, FullMsm.msm7, MsmWords}

-- The carrier frequencies of rtklib.h: FREQ1_GLO, FREQ2_GLO, FREQ3_GLO and the steps DFRQ..., 0.0
-- for the third; FREQ1_CMP, ...; FREQ1, FREQ2, FREQ5, FREQ6, FREQ7, FREQ8.
pub record Bands (D : Type 0) : Type 0 where
  pub glo : List D
  pub glo_step : List D
  pub cmp : List D
  pub other : List D

-- What the messages take from outside: the operations on doubles and times, the constants of
-- rtklib.h (NFREQ, NEXOBS and MAXOBS among them), `(float)` as an operation on doubles, and
-- what stands in the arrays `lock`, `half` and `cnr` before gen_msm_sig sets their entries.
pub record Setup (D T : Type 0) : Type 0 where
  pub d : Doubles D
  pub k : Clock D T
  pub g : Calendar D T
  pub prns : PrnRanges
  pub codes : CodeNumbers
  pub bands : Bands D
  pub nfreq : ℕ
  pub nexobs : ℕ
  pub maxobs : ℕ
  pub to_float : D → D
  pub unset_lock : D
  pub unset_half : ℕ
  pub unset_cnr : D

-- `-1` as an index, and the index one below a count.
abbrev pub int_pred : ℕ → ℤ
int_pred zero = negsuc 0
int_pred (suc n) = pos n

-- The loop over `nav->geph`: the frequency number of the satellite.
unfoldable pub find_frq : List (ℕ × ℕ) → ℕ → Option ℕ
find_frq [] sat = none
find_frq (e ∷ es) sat = let rest = find_frq es sat in if e.0 == sat then some e.1 else rest

module _ {D T : Type 0} (x : Setup D T) where
  -- `RANGE_MS`
  unfoldable pub range_ms : D
  range_ms = x.d.mul x.d.clight (x.d.lit 1 3)

  unfoldable pub band_wave : List D → ℕ → D
  band_wave freqs frq =
      if ltb frq (length freqs)
      then x.d.div x.d.clight (get_or freqs frq (x.d.num 0))
      else x.d.num 0

  -- The wave length of the frequency of GLONASS `frq` for the frequency number `fn`.
  unfoldable pub glo_wave : ℕ → ℕ → D
  glo_wave frq fn = x.d.div x.d.clight (
      x.d.add (get_or x.bands.glo frq (x.d.num 0))
        (x.d.mul (get_or x.bands.glo_step frq (x.d.num 0)) (x.d.of_int fn)))

  unfoldable pub satwavelen : List (ℕ × ℕ) → ℕ → ℤ → D
  satwavelen gephs sat (negsuc n) = x.d.num 0
  satwavelen gephs sat (pos frq) = elim (satsys x.prns sat).0 [
    | glo ↦ elim (find_frq gephs sat) [
      | some fn ↦ if leb frq 2 then glo_wave frq fn else x.d.num 0
      | none ↦ x.d.num 0
    ]
    | cmp ↦ band_wave x.bands.cmp frq
    | gps ↦ band_wave x.bands.other frq
    | gal ↦ band_wave x.bands.other frq
    | qzs ↦ band_wave x.bands.other frq
    | leo ↦ band_wave x.bands.other frq
    | sbs ↦ band_wave x.bands.other frq
    | sys_none ↦ band_wave x.bands.other frq
  ]

  -- `rrng/RANGE_MS/P2_10`, rounded.
  unfoldable pub rough_units : D → ℕ
  rough_units rrng = round_u x.d x.k (x.d.div (x.d.div rrng range_ms) (x.d.p2 10))

  unfoldable pub int_rrng : D → ℕ
  int_rrng rrng =
      if x.d.eq rrng (x.d.num 0)
      then 255
      else if x.d.lt rrng (x.d.num 0) || x.d.lt (x.d.mul range_ms (x.d.num 255)) rrng
      then 255
      else rough_units rrng / 2 ^ 10

  unfoldable pub mod_rrng : D → ℕ
  mod_rrng rrng =
      if x.d.le rrng (x.d.num 0) || x.d.lt (x.d.mul range_ms (x.d.num 255)) rrng
      then 0
      else rough_units rrng % 2 ^ 10

  unfoldable pub rrate : D → ℕ
  rrate value =
      if x.d.lt (x.d.num 8191) (x.g.abs value)
      then 2 ^ 32 - 8192
      else round x.d x.k (x.d.div value (x.d.num 1))

  -- A fine value in units of `unit`; `missing` for 0 and for one beyond `limit`.
  unfoldable pub fine : D → D → ℕ → D → ℕ
  fine limit unit missing value =
      if x.d.eq value (x.d.num 0)
      then missing
      else if x.d.lt limit (x.g.abs value)
      then missing
      else round x.d x.k (x.d.div (x.d.div value range_ms) unit)

  unfoldable pub psrng : D → ℕ
  psrng = fine (x.d.lit 2927 1) (x.d.p2 24) (2 ^ 32 - 16384)

  unfoldable pub psrng_ex : D → ℕ
  psrng_ex = fine (x.d.lit 2927 1) (x.d.p2 29) (2 ^ 32 - 524288)

  unfoldable pub phrng : D → ℕ
  phrng = fine (x.d.num 1171) (x.d.p2 29) (2 ^ 32 - 2097152)

  unfoldable pub phrng_ex : D → ℕ
  phrng_ex = fine (x.d.num 1171) (x.d.p2 31) (2 ^ 32 - 8388608)

  unfoldable pub lock_word : D → ℕ
  lock_word lock = to_msm_lock x.d lock

  unfoldable pub lock_word_ex : D → ℕ
  lock_word_ex lock = to_msm_lock_ex x.d lock

  unfoldable pub cnr_word : D → ℕ
  cnr_word cnr = round x.d x.k (x.d.div cnr (x.d.num 1))

  unfoldable pub cnr_word_ex : D → ℕ
  cnr_word_ex cnr = round x.d x.k (x.d.div cnr (x.d.lit 625 4))

  unfoldable pub rate_word : D → ℕ
  rate_word rate =
      if x.d.eq rate (x.d.num 0)
      then 2 ^ 32 - 16384
      else if x.d.lt (x.d.lit 16384 4) (x.g.abs rate)
      then 2 ^ 32 - 16384
      else round x.d x.k (x.d.div rate x.d.e_4)

  -- `r[j]` after both loops over the ranges.
  unfoldable pub range_of : List ℕ → List ℕ → List D
  range_of [] rng_ms = []
  range_of (rng ∷ rngs) [] = []
  range_of (rng ∷ rngs) (rng_m ∷ rng_ms) =
      let whole = if rng == 255 then x.d.num 0 else x.d.mul (x.d.of_int rng) range_ms in
      let r =
        if x.d.eq whole (x.d.num 0)
        then whole
        else x.d.add whole (x.d.mul (x.d.mul (x.d.of_int rng_m) (x.d.p2 10)) range_ms) in
      r ∷ range_of rngs rng_ms

  -- -1E16, of a cell without a value.
  unfoldable pub no_value : D
  no_value = x.g.neg (x.d.num (10 ^ 16))

  unfoldable pub fine_of : D → ℕ → ℕ → D
  fine_of unit missing word =
      if word == missing then no_value else x.d.mul (x.d.mul (x.d.of_int word) unit) range_ms

  unfoldable pub rate_of : ℕ → D
  rate_of word = if word == 2 ^ 32 - 8192 then x.d.num 0 else x.d.mul (x.d.of_int word) (x.d.num 1)

  unfoldable pub rrf_of : ℕ → D
  rrf_of word = if word == 2 ^ 32 - 16384 then no_value else x.d.mul (x.d.of_int word) x.d.e_4

-- The arrays that the decoders hand to `save_msm_obs`; `rr`, `rrf` and `ex` are NULL in MSM4 and 6.
pub record MsmValues (D : Type 0) : Type 0 where
  pub r : List D
  pub pr : List D
  pub cp : List D
  pub rr : Option (List D)
  pub rrf : Option (List D)
  pub cnr : List D
  pub lock : List ℕ
  pub ex : Option (List ℕ)
  pub half : List ℕ

module _ {D T : Type 0} (x : Setup D T) where
  unfoldable pub values_of : FullMsm → MsmWords → MsmValues D
  values_of msm4 w = record {
    r = range_of x w.rng w.rng_m;
    pr = map (fine_of x (x.d.p2 24) (2 ^ 32 - 16384)) w.pr;
    cp = map (fine_of x (x.d.p2 29) (2 ^ 32 - 2097152)) w.cp;
    rr = none;
    rrf = none;
    cnr = map (λ v. x.d.mul (x.d.of_uint v) (x.d.num 1)) w.cnr;
    lock = w.lock;
    ex = none;
    half = w.half;
  }
  values_of msm5 w = record {
    r = range_of x w.rng w.rng_m;
    pr = map (fine_of x (x.d.p2 24) (2 ^ 32 - 16384)) w.pr;
    cp = map (fine_of x (x.d.p2 29) (2 ^ 32 - 2097152)) w.cp;
    rr = some (map (rate_of x) w.rate);
    rrf = some (map (rrf_of x) w.rrf);
    cnr = map (λ v. x.d.mul (x.d.of_uint v) (x.d.num 1)) w.cnr;
    lock = w.lock;
    ex = some w.info;
    half = w.half;
  }
  values_of msm6 w = record {
    r = range_of x w.rng w.rng_m;
    pr = map (fine_of x (x.d.p2 29) (2 ^ 32 - 524288)) w.pr;
    cp = map (fine_of x (x.d.p2 31) (2 ^ 32 - 8388608)) w.cp;
    rr = none;
    rrf = none;
    cnr = map (λ v. x.d.mul (x.d.of_uint v) (x.d.lit 625 4)) w.cnr;
    lock = w.lock;
    ex = none;
    half = w.half;
  }
  values_of msm7 w = record {
    r = range_of x w.rng w.rng_m;
    pr = map (fine_of x (x.d.p2 29) (2 ^ 32 - 524288)) w.pr;
    cp = map (fine_of x (x.d.p2 31) (2 ^ 32 - 8388608)) w.cp;
    rr = some (map (rate_of x) w.rate);
    rrf = some (map (rrf_of x) w.rrf);
    cnr = map (λ v. x.d.mul (x.d.of_uint v) (x.d.lit 625 4)) w.cnr;
    lock = w.lock;
    ex = some w.info;
    half = w.half;
  }
