-- ===== src/Msm/Head.antt =====
-- `decode_msm_head` reads the head that `encode_msm_head` writes.
use go_ntrip.Base.{ℕ, ◌+◌, ◌*◌, ◌≡◌, subst, List, ◌++◌, length, arith}
use go_ntrip.Bits.{getbitu}
use go_ntrip.Bits.Message.{Field, Reads, total}
use go_ntrip.Bits.Column.{column, Reads-append, total-append, total-column}
use go_ntrip.Msm.{HeadWords, head_fields, MsmHead, ids_of, read_head}
use go_ntrip.Msm.Columns.{first_column, last_column}

-- The head that the words say.
abbrev pub head_of : HeadWords → MsmHead
head_of w = record {
  sync = w.sync;
  iod = w.seqno;
  time_s = 0;
  clk_str = 0;
  clk_ext = 0;
  smooth = 0;
  tint_s = 0;
  sats = ids_of 1 w.sat_mask;
  sigs = ids_of 1 w.sig_mask;
  cellmask = w.cell_mask;
}

-- 64 satellites, 32 signals, and a bit for each cell of those that are marked.
pub record IsHead (w : HeadWords) : Type 0 where
  pub sats : length w.sat_mask ≡ 64
  pub sigs : length w.sig_mask ≡ 32
  pub cells : length w.cell_mask ≡ length (ids_of 1 w.sat_mask) * length (ids_of 1 w.sig_mask)

-- What a buffer says that reads as the head and `gs`.
pub record IsReadHead (buff : List ℕ) (w : HeadWords) (gs : List Field) : Type 0 where
  pub head : read_head buff ≡ head_of w
  pub staid : getbitu buff 36 12 ≡ w.staid
  pub epoch : getbitu buff 48 30 ≡ w.epoch
  pub rest : Reads buff (193 + length w.cell_mask) gs

pub total-head_fields :
    (w : HeadWords) → IsHead w → total (head_fields w) ≡ 169 + length w.cell_mask
unfolding head_fields
total-head_fields w h =
    let a = total-column 1 w.sat_mask in
    let b = total-column 1 w.sig_mask in
    let c = total-column 1 w.cell_mask in
    let bc = total-append (column 1 w.sig_mask) (column 1 w.cell_mask) in
    let abc = total-append (column 1 w.sat_mask) (column 1 w.sig_mask ++ column 1 w.cell_mask) in
    omega (arith, h.sats, h.sigs)

pub IsReadHead-Reads :
    (w : HeadWords) (gs : List Field) (buff : List ℕ)
    → IsHead w
    → Reads buff 24 (head_fields w ++ gs)
    → IsReadHead buff w gs
unfolding head_fields read_head
IsReadHead-Reads w gs buff h reads =
    let parts = Reads-append (head_fields w) gs buff 24 reads in
    let sats = first_column buff 1 64 w.sat_mask h.sats 97 _ parts.0.1.1.1.1.1.1.1.1.1.1 in
    let sigs = first_column buff 1 32 w.sig_mask h.sigs 161 _ sats.1 in
    let cells = last_column buff 1 _ w.cell_mask h.cells 193 sigs.1 in
    let e0 = sats.0 in
    let e1 = sigs.0 in
    record {
      head = cc;
      staid = parts.0.1.0;
      epoch = parts.0.1.1.0;
      rest = subst (λ i. Reads buff i gs) (omega (arith, total-head_fields w h)) parts.1;
    }
