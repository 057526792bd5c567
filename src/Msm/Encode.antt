-- ===== src/Msm/Encode.antt =====
-- c/rtklib/rtcm3e.c: `encode_msm_head` and `encode_msm1` to `encode_msm7`.
use go_ntrip.Base.{
  ℕ, ◌+◌, ◌*◌, ◌%◌, ◌^◌, List, [], ◌++◌, map, take, min, Bool, true, false, ◌==◌, if◌then◌else◌,
}
use go_ntrip.Bits.Message.{Field, write_fields}
use go_ntrip.Rtcm.{Rtcm}
use go_ntrip.Satellite.{
  System, System.gps, System.glo, System.gal, System.qzs, System.cmp, System.leo, System.sbs,
  System.sys_none,
}
use go_ntrip.Ephemeris.{round_u}
use go_ntrip.Obs.{ObsState}
use go_ntrip.Msm.{
  CompactMsm, FullMsm, FullMsm.msm4, FullMsm.msm5, FullMsm.msm6, FullMsm.msm7, compact_number,
  full_number, MsmWords, HeadWords, compact_fields, full_fields, head_fields,
}
use go_ntrip.Msm.Values.{
  Setup, int_rrng, mod_rrng, rrate, psrng, psrng_ex, phrng, phrng_ex, lock_word, lock_word_ex,
  cnr_word, cnr_word_ex, rate_word,
}
use go_ntrip.Msm.Index.{
  visits, MsmIndex, gen_msm_index, SatFields, gen_msm_sat, SigFields, gen_msm_sig,
}

-- What is added to the kind for the message number; 0 for a system without these messages.
unfoldable pub first_number : System → ℕ
first_number gps = 1070
first_number glo = 1080
first_number gal = 1090
first_number qzs = 1110
first_number sbs = 1100
first_number cmp = 1120
first_number leo = 0
first_number sys_none = 0

-- `ind[j]?1:0`
unfoldable pub mask_of : List ℕ → List ℕ
mask_of ind = map (λ m. if m == 0 then 0 else 1) ind

-- The message number, the head and the arrays that `encode_msm_head` fills.
pub record MsmBody (D T : Type 0) : Type 0 where
  pub head : HeadWords
  pub index : MsmIndex
  pub sats : SatFields D
  pub sigs : SigFields D T

module _ {D T : Type 0} (x : Setup D T) where
  unfoldable pub epoch_word : System → T → ℕ
  epoch_word glo time =
      let tow = x.g.tow (x.g.timeadd (x.g.gpst2utc time) (x.d.num 10800)) in
      let dow = x.d.to_uint (x.d.div tow (x.d.num 86400)) in
      (dow * 2 ^ 27 + round_u x.d x.k (x.d.mul (x.g.fmod tow (x.d.num 86400)) (x.d.num 1000)))
      % 2 ^ 32
  epoch_word cmp time = round_u x.d x.k (x.d.mul (x.k.time2gpst (x.k.gpst2bdt time)) (x.d.num 1000))
  epoch_word sys time = round_u x.d x.k (x.d.mul (x.k.time2gpst time) (x.d.num 1000))

  -- What `encode_msm_head` computes for kind number `kind`; a message has at most 64 cells.
  unfoldable pub msm_body : ℕ → System → ℕ → ObsState D T → MsmBody D T
  msm_body kind sys sync st =
      let vs = visits x sys st.obs in
      let m = gen_msm_index vs in
      let sats = gen_msm_sat x sys st.gephs m.sat_ind vs in
      record {
        head = record {
          number = first_number sys + kind;
          staid = st.station.staid;
          epoch = epoch_word sys st.time;
          sync = sync;
          seqno = st.seqno;
          sat_mask = mask_of m.sat_ind;
          sig_mask = mask_of m.sig_ind;
          cell_mask = mask_of (take (min (m.nsat * m.nsig) 64) m.cell_ind);
        };
        index = m;
        sats = sats;
        sigs = gen_msm_sig x st.gephs m sats vs st.cp st.lltime;
      }

  -- The words of MSM1 to MSM3: all of them, though each kind sends only some.
  unfoldable pub compact_words : MsmBody D T → MsmWords
  compact_words b = record {
    rng = [];
    info = [];
    rng_m = map (mod_rrng x) (take b.index.nsat b.sats.rrng);
    rate = [];
    pr = map (psrng x) (take b.index.ncell b.sigs.psrng);
    cp = map (phrng x) (take b.index.ncell b.sigs.phrng);
    lock = map (lock_word x) (take b.index.ncell b.sigs.lock);
    half = take b.index.ncell b.sigs.half;
    cnr = [];
    rrf = [];
  }

  -- The words of MSM4; the extended kinds change or add some.
  unfoldable pub full_words : FullMsm → MsmBody D T → MsmWords
  full_words msm4 b = record (compact_words b) {
    rng = map (int_rrng x) (take b.index.nsat b.sats.rrng);
    cnr = map (cnr_word x) (take b.index.ncell b.sigs.cnr);
  }
  full_words msm5 b = record (compact_words b) {
    rng = map (int_rrng x) (take b.index.nsat b.sats.rrng);
    info = take b.index.nsat b.sats.info;
    rate = map (rrate x) (take b.index.nsat b.sats.rrate);
    cnr = map (cnr_word x) (take b.index.ncell b.sigs.cnr);
    rrf = map (rate_word x) (take b.index.ncell b.sigs.rate);
  }
  full_words msm6 b = record (compact_words b) {
    rng = map (int_rrng x) (take b.index.nsat b.sats.rrng);
    pr = map (psrng_ex x) (take b.index.ncell b.sigs.psrng);
    cp = map (phrng_ex x) (take b.index.ncell b.sigs.phrng);
    lock = map (lock_word_ex x) (take b.index.ncell b.sigs.lock);
    cnr = map (cnr_word_ex x) (take b.index.ncell b.sigs.cnr);
  }
  full_words msm7 b = record (compact_words b) {
    rng = map (int_rrng x) (take b.index.nsat b.sats.rrng);
    info = take b.index.nsat b.sats.info;
    rate = map (rrate x) (take b.index.nsat b.sats.rrate);
    pr = map (psrng_ex x) (take b.index.ncell b.sigs.psrng);
    cp = map (phrng_ex x) (take b.index.ncell b.sigs.phrng);
    lock = map (lock_word_ex x) (take b.index.ncell b.sigs.lock);
    cnr = map (cnr_word_ex x) (take b.index.ncell b.sigs.cnr);
    rrf = map (rate_word x) (take b.index.ncell b.sigs.rate);
  }

  -- The head and then the columns, from bit 24 on; `sync` is 0 or 1.
  unfoldable pub encode_msm :
      (MsmBody D T → List Field) → ℕ → System → ℕ → Rtcm (ObsState D T) → Rtcm (ObsState D T) × Bool
  encode_msm columns kind sys sync r =
      let b = msm_body kind sys sync r.body in
      let out = write_fields r.buff 24 (head_fields b.head ++ columns b) in
      if first_number sys == 0 then (r, false) else (
        record r {
          buff = out.0;
          nbit = out.1;
          body = record (r.body) { cp = b.sigs.kept; lltime = b.sigs.lltime };
        },
        true,
      )

  unfoldable pub encode_compact :
      CompactMsm → System → ℕ → Rtcm (ObsState D T) → Rtcm (ObsState D T) × Bool
  encode_compact kind =
      encode_msm (λ b. compact_fields kind (compact_words b)) (compact_number kind)

  unfoldable pub encode_full :
      FullMsm → System → ℕ → Rtcm (ObsState D T) → Rtcm (ObsState D T) × Bool
  encode_full kind = encode_msm (λ b. full_fields kind (full_words kind b)) (full_number kind)
