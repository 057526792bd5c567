-- ===== src/Msm/RoundTrip.antt =====
-- `decode_msm4` to `decode_msm7` after `encode_msm4` to `encode_msm7`.
use go_ntrip.Base.{
  ℕ, ◌+◌, ◌*◌, ◌%◌, ◌^◌, ◌≤◌, ◌≡◌, refl, ap, subst, List, ◌++◌, length, true, le→ltb, ℤ, some,
  arith,
}
use go_ntrip.Bits.{getbitu}
use go_ntrip.Bits.Tail.{getbitu_tail}
use go_ntrip.Bits.Message.{Field, Reads, total}
use go_ntrip.Bits.Column.{total-append}
use go_ntrip.Rtcm.{Rtcm}
use go_ntrip.Satellite.{
  System, System.gps, System.glo, System.gal, System.qzs, System.cmp, System.leo, System.sbs,
  System.sys_none,
}
use go_ntrip.Station.{test_staid}
use go_ntrip.Obs.{ObsState, adjweek, adjday_glot}
use go_ntrip.Msm.{
  FullMsm, MsmWords, HeadWords, head_fields, full_fields, message_bits, ids_of, count_cells,
}
use go_ntrip.Msm.Values.{Setup, values_of}
use go_ntrip.Msm.Columns.{IsShaped, read_msm-Reads, total-full_fields}
use go_ntrip.Msm.Head.{head_of, IsHead, IsReadHead-Reads, total-head_fields}
use go_ntrip.Msm.Decode.{
  Priorities, head_time, decode_msm_head, finish, save_msm_obs, decode_cells, decode_msm,
}

-- The time of the receiver from the epoch word of a message, after `adjweek` or `adjday_glot`.
unfoldable pub epoch_time : {D T : Type 0} → Setup D T → System → T → ℕ → T
epoch_time x glo before epoch =
    adjday_glot x.d x.g before (x.d.mul (x.d.of_uint (epoch % 2 ^ 27)) (x.d.lit 1 3))
epoch_time x cmp before epoch =
    adjweek x.d x.g before (x.d.add (x.d.mul (x.d.of_uint epoch) (x.d.lit 1 3)) (x.d.num 14))
epoch_time x sys before epoch = adjweek x.d x.g before (x.d.mul (x.d.of_uint epoch) (x.d.lit 1 3))

module _ {D T : Type 0} (x : Setup D T) where
  head_time_lem :
      (sys : System) (before : T) (buff : List ℕ)
      → head_time x sys before buff ≡ epoch_time x sys before (getbitu buff 48 30)
  unfolding head_time epoch_time
  head_time_lem glo before buff =
      ap (λ tod. adjday_glot x.d x.g before (x.d.mul (x.d.of_uint tod) (x.d.lit 1 3)))
        (getbitu_tail buff 48 3 27 (omega arith))
  head_time_lem cmp before buff = refl
  head_time_lem gps before buff = refl
  head_time_lem gal before buff = refl
  head_time_lem qzs before buff = refl
  head_time_lem leo before buff = refl
  head_time_lem sbs before buff = refl
  head_time_lem sys_none before buff = refl

-- The receiver's state behind the head.
abbrev pub with_head :
    {D T : Type 0} → Setup D T → System → HeadWords → Rtcm (ObsState D T) → Rtcm (ObsState D T)
with_head x sys w t = record t {
  body = record (t.body) {
    time = epoch_time x sys t.body.time w.epoch;
    station = (test_staid t.body.station w.staid).0;
  };
}

module _ {D T : Type 0} (x : Setup D T) (sys : System) (w : HeadWords)
    (t : Rtcm (ObsState D T)) where
  pub decode_msm_head-Reads :
      (gs : List Field)
      → IsHead w
      → Reads t.buff 24 (head_fields w ++ gs)
      → 193 + length w.cell_mask ≤ t.len * 8
      → length w.cell_mask ≤ 64
      → (test_staid t.body.station w.staid).1 ≡ true
      → decode_msm_head x sys t ≡ (with_head x sys w t, some (head_of w))
  unfolding decode_msm_head
  decode_msm_head-Reads gs h reads long few accepted =
      let read = IsReadHead-Reads w gs t.buff h reads in
      let time = head_time_lem x sys t.body.time t.buff in
      let e0 = le→ltb (t.len * 8) (36 + 157) (omega arith) in
      let e1 =
        le→ltb 64 (length (ids_of 1 w.sat_mask) * length (ids_of 1 w.sig_mask))
          (omega (arith, h.cells)) in
      let e2 =
        le→ltb (t.len * 8) (193 + length (ids_of 1 w.sat_mask) * length (ids_of 1 w.sig_mask))
          (omega (arith, h.cells)) in
      rw (time, read.head, read.staid, read.epoch, e0, e1, e2, accepted) refl

  -- The state and the status behind the columns.
  abbrev pub with_cells : Priorities → FullMsm → MsmWords → Rtcm (ObsState D T) × ℤ
  with_cells pri kind words =
      let r = with_head x sys w t in
      finish x sys w.sync
        (record r { body = save_msm_obs x sys pri (head_of w) (values_of x kind words) r.body })

  pub decode_msm-Reads :
      (pri : Priorities) (kind : FullMsm) (words : MsmWords)
      → IsHead w
      → IsShaped kind words (length (ids_of 1 w.sat_mask)) (count_cells w.cell_mask)
      → Reads t.buff 24 (head_fields w ++ full_fields kind words)
      → 24 + total (head_fields w ++ full_fields kind words) ≤ t.len * 8
      → length w.cell_mask ≤ 64
      → (test_staid t.body.station w.staid).1 ≡ true
      → decode_msm x sys pri kind t ≡ with_cells pri kind words
  unfolding decode_msm decode_cells
  decode_msm-Reads pri kind words h shape reads long few accepted =
      let nsat = length (ids_of 1 w.sat_mask) in
      let ncell = count_cells w.cell_mask in
      let bits = total-append (head_fields w) (full_fields kind words) in
      let head_bits = total-head_fields w h in
      let column_bits = total-full_fields kind words nsat ncell shape in
      let read = IsReadHead-Reads w (full_fields kind words) t.buff h reads in
      let columns =
        read_msm-Reads kind words nsat ncell t.buff (193 + nsat * length (ids_of 1 w.sig_mask))
          shape
          (subst (λ i. Reads t.buff i (full_fields kind words)) (ap (λ i. 193 + i) h.cells)
            read.rest) in
      let enough =
        le→ltb (t.len * 8)
          (193 + nsat * length (ids_of 1 w.sig_mask) + message_bits kind nsat ncell)
          (omega (arith, h.cells)) in
      let e = decode_msm_head-Reads (full_fields kind words) h reads (omega arith) few accepted in
      let e0 = ap (λ o. o.0) e in
      let e1 = ap (λ o. o.1) e in rw (decode_msm, e1, e0, decode_cells, columns, enough) refl
