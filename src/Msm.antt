-- ===== src/Msm.antt =====
-- c/rtklib/rtcm3e.c and rtcm3.c: multiple signal messages. A message is a head, with the masks of
-- its satellites, signals and cells, and then columns: one field for each satellite or each cell.
-- Here are the words of a message; the children have the values (Values), the numbering of
-- satellites, signals and cells (Index), the encoders and the decoders.
pub mod Values
pub mod Index
pub mod Signals
pub mod Places
pub mod Encode
pub mod Decode
pub mod Masks
pub mod Numbering
pub mod Head
pub mod Arrays
pub mod RoundTrip
pub mod Sent
pub mod Delivery
pub mod Invariant
pub mod Columns
use go_ntrip.Base.{
  ℕ, zero, suc, ◌+◌, ◌*◌, List, [], ◌∷◌, ◌++◌, length, Bool, true, false, ◌==◌, if◌then◌else◌,
}
use go_ntrip.Bits.{getbitu}
use go_ntrip.Bits.Message.{Field, Field.u}
use go_ntrip.Bits.Column.{read_column, read_signed, column, signed_column, unsigned_column}

-- MSM1, MSM2 and MSM3, which are encoded but not decoded.
pub data CompactMsm : Type 0 where
  msm1 msm2 msm3 : CompactMsm

pub data FullMsm : Type 0 where
  msm4 msm5 msm6 msm7 : FullMsm

abbrev pub compact_number : CompactMsm → ℕ
compact_number msm1 = 1
compact_number msm2 = 2
compact_number msm3 = 3

abbrev pub full_number : FullMsm → ℕ
full_number msm4 = 4
full_number msm5 = 5
full_number msm6 = 6
full_number msm7 = 7

-- The columns: `rng`, `info`, `rng_m` and `rate` of the satellites, the others of the cells. A
-- column that a message does not have is empty.
pub record MsmWords : Type 0 where
  pub rng : List ℕ
  pub info : List ℕ
  pub rng_m : List ℕ
  pub rate : List ℕ
  pub pr : List ℕ
  pub cp : List ℕ
  pub lock : List ℕ
  pub half : List ℕ
  pub cnr : List ℕ
  pub rrf : List ℕ

unfoldable pub compact_fields : CompactMsm → MsmWords → List Field
compact_fields msm1 w = column 10 w.rng_m ++ signed_column 15 w.pr
compact_fields msm2 w =
    column 10 w.rng_m ++ (signed_column 22 w.cp ++ (column 4 w.lock ++ column 1 w.half))
compact_fields msm3 w =
    column 10 w.rng_m
    ++ (signed_column 15 w.pr ++ (signed_column 22 w.cp ++ (column 4 w.lock ++ column 1 w.half)))

unfoldable pub full_fields : FullMsm → MsmWords → List Field
full_fields msm4 w =
    column 8 w.rng
    ++ (column 10 w.rng_m
        ++ (signed_column 15 w.pr
            ++ (signed_column 22 w.cp ++ (column 4 w.lock ++ (column 1 w.half ++ column 6 w.cnr)))))
full_fields msm5 w =
    column 8 w.rng
    ++ (column 4 w.info
        ++ (column 10 w.rng_m
            ++ (signed_column 14 w.rate
                ++ (signed_column 15 w.pr
                    ++ (signed_column 22 w.cp
                        ++ (column 4 w.lock
                            ++ (column 1 w.half
                                ++ (column 6 w.cnr ++ unsigned_column 15 w.rrf))))))))
full_fields msm6 w =
    column 8 w.rng
    ++ (column 10 w.rng_m
        ++ (signed_column 20 w.pr
            ++ (signed_column 24 w.cp
                ++ (column 10 w.lock ++ (column 1 w.half ++ column 10 w.cnr)))))
full_fields msm7 w =
    column 8 w.rng
    ++ (column 4 w.info
        ++ (column 10 w.rng_m
            ++ (signed_column 14 w.rate
                ++ (signed_column 20 w.pr
                    ++ (signed_column 24 w.cp
                        ++ (column 10 w.lock
                            ++ (column 1 w.half
                                ++ (column 10 w.cnr ++ unsigned_column 15 w.rrf))))))))

-- The lengths in the length tests of the decoders.
unfoldable pub message_bits : FullMsm → ℕ → ℕ → ℕ
message_bits msm4 nsat ncell = nsat * 18 + ncell * 48
message_bits msm5 nsat ncell = nsat * 36 + ncell * 63
message_bits msm6 nsat ncell = nsat * 18 + ncell * 65
message_bits msm7 nsat ncell = nsat * 36 + ncell * 80

-- The loops of `decode_msm4` to `decode_msm7` behind the length test.
unfoldable pub read_msm : FullMsm → List ℕ → ℕ → ℕ → ℕ → MsmWords
read_msm msm4 buff i0 nsat ncell =
    let i1 = i0 + nsat * 8 in
    let i2 = i1 + nsat * 10 in
    let i3 = i2 + ncell * 15 in
    let i4 = i3 + ncell * 22 in
    let i5 = i4 + ncell * 4 in
    let i6 = i5 + ncell * 1 in
    record {
      rng = read_column buff i0 8 nsat;
      info = [];
      rng_m = read_column buff i1 10 nsat;
      rate = [];
      pr = read_signed buff i2 15 ncell;
      cp = read_signed buff i3 22 ncell;
      lock = read_column buff i4 4 ncell;
      half = read_column buff i5 1 ncell;
      cnr = read_column buff i6 6 ncell;
      rrf = [];
    }
read_msm msm5 buff i0 nsat ncell =
    let i1 = i0 + nsat * 8 in
    let i2 = i1 + nsat * 4 in
    let i3 = i2 + nsat * 10 in
    let i4 = i3 + nsat * 14 in
    let i5 = i4 + ncell * 15 in
    let i6 = i5 + ncell * 22 in
    let i7 = i6 + ncell * 4 in
    let i8 = i7 + ncell * 1 in
    let i9 = i8 + ncell * 6 in
    record {
      rng = read_column buff i0 8 nsat;
      info = read_column buff i1 4 nsat;
      rng_m = read_column buff i2 10 nsat;
      rate = read_signed buff i3 14 nsat;
      pr = read_signed buff i4 15 ncell;
      cp = read_signed buff i5 22 ncell;
      lock = read_column buff i6 4 ncell;
      half = read_column buff i7 1 ncell;
      cnr = read_column buff i8 6 ncell;
      rrf = read_signed buff i9 15 ncell;
    }
read_msm msm6 buff i0 nsat ncell =
    let i1 = i0 + nsat * 8 in
    let i2 = i1 + nsat * 10 in
    let i3 = i2 + ncell * 20 in
    let i4 = i3 + ncell * 24 in
    let i5 = i4 + ncell * 10 in
    let i6 = i5 + ncell * 1 in
    record {
      rng = read_column buff i0 8 nsat;
      info = [];
      rng_m = read_column buff i1 10 nsat;
      rate = [];
      pr = read_signed buff i2 20 ncell;
      cp = read_signed buff i3 24 ncell;
      lock = read_column buff i4 10 ncell;
      half = read_column buff i5 1 ncell;
      cnr = read_column buff i6 10 ncell;
      rrf = [];
    }
read_msm msm7 buff i0 nsat ncell =
    let i1 = i0 + nsat * 8 in
    let i2 = i1 + nsat * 4 in
    let i3 = i2 + nsat * 10 in
    let i4 = i3 + nsat * 14 in
    let i5 = i4 + ncell * 20 in
    let i6 = i5 + ncell * 24 in
    let i7 = i6 + ncell * 10 in
    let i8 = i7 + ncell * 1 in
    let i9 = i8 + ncell * 10 in
    record {
      rng = read_column buff i0 8 nsat;
      info = read_column buff i1 4 nsat;
      rng_m = read_column buff i2 10 nsat;
      rate = read_signed buff i3 14 nsat;
      pr = read_signed buff i4 20 ncell;
      cp = read_signed buff i5 24 ncell;
      lock = read_column buff i6 10 ncell;
      half = read_column buff i7 1 ncell;
      cnr = read_column buff i8 10 ncell;
      rrf = read_signed buff i9 15 ncell;
    }

-- What the head says: the three masks are lists of 0 and 1.
pub record HeadWords : Type 0 where
  pub number : ℕ
  pub staid : ℕ
  pub epoch : ℕ
  pub sync : ℕ
  pub seqno : ℕ
  pub sat_mask : List ℕ
  pub sig_mask : List ℕ
  pub cell_mask : List ℕ

unfoldable pub head_fields : HeadWords → List Field
head_fields w =
    u 12 w.number
    ∷ u 12 w.staid
    ∷ u 30 w.epoch
    ∷ u 1 w.sync
    ∷ u 3 w.seqno
    ∷ u 7 0
    ∷ u 2 0
    ∷ u 2 0
    ∷ u 1 0
    ∷ u 3 0
    ∷ (column 1 w.sat_mask ++ (column 1 w.sig_mask ++ column 1 w.cell_mask))

-- `msm_h_t`, with the values of `*sync` and `*iod`.
pub record MsmHead : Type 0 where
  pub sync : ℕ
  pub iod : ℕ
  pub time_s : ℕ
  pub clk_str : ℕ
  pub clk_ext : ℕ
  pub smooth : ℕ
  pub tint_s : ℕ
  pub sats : List ℕ
  pub sigs : List ℕ
  pub cellmask : List ℕ

-- `for (j=1;...;j++) {mask=getbitu(rtcm->buff,i,1); i+=1; if (mask) ids[n++]=j;}`
unfoldable pub ids_of : ℕ → List ℕ → List ℕ
ids_of j [] = []
ids_of j (mask ∷ masks) = let rest = ids_of (j + 1) masks in if mask == 0 then rest else j ∷ rest

-- `if (h->cellmask[j]) ncell++;`
unfoldable pub count_cells : List ℕ → ℕ
count_cells [] = 0
count_cells (mask ∷ masks) = let rest = count_cells masks in if mask == 0 then rest else suc rest

unfoldable pub read_head : List ℕ → MsmHead
read_head buff =
    let sats = ids_of 1 (read_column buff 97 1 64) in
    let sigs = ids_of 1 (read_column buff 161 1 32) in
    record {
      sync = getbitu buff 78 1;
      iod = getbitu buff 79 3;
      time_s = getbitu buff 82 7;
      clk_str = getbitu buff 89 2;
      clk_ext = getbitu buff 91 2;
      smooth = getbitu buff 93 1;
      tint_s = getbitu buff 94 3;
      sats = sats;
      sigs = sigs;
      cellmask = read_column buff 193 1 (length sats * length sigs);
    }
