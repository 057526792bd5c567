-- ===== src/Msm/Sent.antt =====
-- What `encode_msm4` to `encode_msm7` send has the form that the decoders want, and is decoded.
use go_ntrip.Base.{
  ℕ, ◌+◌, ◌*◌, ◌≤◌, ◌≡◌, refl, sym, ap, ap₂, ◌∙◌, subst, List, [], ◌∷◌, ◌++◌, length, map, take,
  min, replicate, length-take, true, ◌==◌, Bool-cases, inl, inr, arith,
}
use go_ntrip.Bits.Cell.{IsBytes}
use go_ntrip.Bits.Message.{
  Field, AllFit, Reads, Agrees, Reads-agree, Reads-write_fields, write_fields, total,
  write_fields_end,
}
use go_ntrip.Rtcm.{Rtcm}
use go_ntrip.Satellite.{System}
use go_ntrip.Station.{test_staid}
use go_ntrip.Obs.{ObsState}
use go_ntrip.Msm.{
  FullMsm, FullMsm.msm4, FullMsm.msm5, FullMsm.msm6, FullMsm.msm7, full_number, head_fields,
  full_fields, ids_of, count_cells, message_bits,
}
use go_ntrip.Msm.Values.{Setup}
use go_ntrip.Msm.Index.{Visit, visits, mark, mark_cells, number, MsmIndex, gen_msm_index}
use go_ntrip.Msm.Encode.{
  mask_of, MsmBody, msm_body, first_number, compact_words, full_words, encode_msm, encode_full,
}
use go_ntrip.Msm.Decode.{Priorities, decode_msm}
use go_ntrip.Msm.Masks.{
  length-mask_of, length-number, ids_of-number, length-number_cells, number-le, number_cells-le,
  length-mark, length-mark_cells, count_cells-number_cells,
}
use go_ntrip.Msm.Arrays.{length-map, AreSats, AreSigs, gen_msm_sat-AreSats, gen_msm_sig-AreSigs}
use go_ntrip.Msm.Columns.{IsShaped, total-full_fields}
use go_ntrip.Msm.Head.{IsHead, total-head_fields}
use go_ntrip.Bits.Column.{total-append}
use go_ntrip.Msm.RoundTrip.{with_cells, decode_msm-Reads}

-- The lengths and counts of an index with `cells` cells.
pub record IsIndex (m : MsmIndex) : Type 0 where
  pub sats : length m.sat_ind ≡ 64
  pub sigs : length m.sig_ind ≡ 32
  pub cells : length m.cell_ind ≡ 2048
  pub nsat_low : m.nsat ≤ 64
  pub nsat : length (ids_of 1 (mask_of m.sat_ind)) ≡ m.nsat
  pub nsig : length (ids_of 1 (mask_of m.sig_ind)) ≡ m.nsig

pub gen_msm_index-IsIndex : {D T : Type 0} (vs : List (Visit D T)) → IsIndex (gen_msm_index vs)
unfolding gen_msm_index
gen_msm_index-IsIndex vs =
    let marked = mark vs (replicate 64 0, replicate 32 0) in
    let long = length-mark vs (replicate 64 0, replicate 32 0) in
    let sats = number 0 marked.0 in
    let sigs = number 0 marked.1 in
    let many : length marked.0 ≡ 64 = long.0 in
    record {
      sats = length-number marked.0 0 ∙ long.0;
      sigs = length-number marked.1 0 ∙ long.1;
      cells =
          length-number_cells (sats.1 * sigs.1) 0 _
          ∙ length-mark_cells sigs.1 sats.0 sigs.0 vs (replicate 2048 0);
      nsat_low = omega (arith, number-le 0 marked.0, many);
      nsat = omega (arith, ids_of-number 1 0 marked.0);
      nsig = omega (arith, ids_of-number 1 0 marked.1);
    }

-- In a message of at most 64 cells each marked cell is counted.
pub gen_msm_index_cells :
    {D T : Type 0} (vs : List (Visit D T))
    → (gen_msm_index vs).nsat * (gen_msm_index vs).nsig ≤ 64
    → (count_cells (
          mask_of
            (take ((gen_msm_index vs).nsat * (gen_msm_index vs).nsig) (gen_msm_index vs).cell_ind))
        ≡ (gen_msm_index vs).ncell)
      × (gen_msm_index vs).ncell ≤ 64
unfolding gen_msm_index
gen_msm_index_cells vs small =
    let marked = mark vs (replicate 64 0, replicate 32 0) in
    let sats = number 0 marked.0 in
    let sigs = number 0 marked.1 in
    let cells = mark_cells sigs.1 sats.0 sigs.0 vs (replicate 2048 0) in
    let few : sats.1 * sigs.1 ≤ 64 = small in
    let long : length cells ≡ 2048 = length-mark_cells sigs.1 sats.0 sigs.0 vs (replicate 2048 0) in
    let count =
      count_cells-number_cells (sats.1 * sigs.1) 0 cells (omega (arith, few))
        (omega (arith, few, long)) in
    (omega (arith, count), omega (arith, number_cells-le (sats.1 * sigs.1) 0 cells, few))

-- The entries that are sent.
sent_length {ℓ} :
    {A : Type ℓ} (f : A → ℕ) (n : ℕ) (xs : List A)
    → length xs ≡ 64
    → n ≤ 64
    → length (map f (take n xs)) ≡ n
sent_length f n xs long small = length-map f (take n xs) ∙ length-take n xs (omega arith)

module _ {D T : Type 0} (x : Setup D T) (b : MsmBody D T) (sats : AreSats 64 b.sats)
    (sigs : AreSigs 64 b.sigs) (few_sats : b.index.nsat ≤ 64) (few_cells : b.index.ncell ≤ 64) where
  full_words-IsShaped :
      (kind : FullMsm) → IsShaped kind (full_words x kind b) b.index.nsat b.index.ncell
  unfolding full_words compact_words
  full_words-IsShaped msm4 = record {
    rng = sent_length _ _ b.sats.rrng sats.rrng few_sats;
    info = refl;
    rng_m = sent_length _ _ b.sats.rrng sats.rrng few_sats;
    rate = refl;
    pr = sent_length _ _ b.sigs.psrng sigs.psrng few_cells;
    cp = sent_length _ _ b.sigs.phrng sigs.phrng few_cells;
    lock = sent_length _ _ b.sigs.lock sigs.lock few_cells;
    half = length-take _ b.sigs.half (omega (arith, sigs.half, few_cells));
    cnr = sent_length _ _ b.sigs.cnr sigs.cnr few_cells;
    rrf = refl;
  }
  full_words-IsShaped msm5 = record {
    rng = sent_length _ _ b.sats.rrng sats.rrng few_sats;
    info = length-take _ b.sats.info (omega (arith, sats.info, few_sats));
    rng_m = sent_length _ _ b.sats.rrng sats.rrng few_sats;
    rate = sent_length _ _ b.sats.rrate sats.rrate few_sats;
    pr = sent_length _ _ b.sigs.psrng sigs.psrng few_cells;
    cp = sent_length _ _ b.sigs.phrng sigs.phrng few_cells;
    lock = sent_length _ _ b.sigs.lock sigs.lock few_cells;
    half = length-take _ b.sigs.half (omega (arith, sigs.half, few_cells));
    cnr = sent_length _ _ b.sigs.cnr sigs.cnr few_cells;
    rrf = sent_length _ _ b.sigs.rate sigs.rate few_cells;
  }
  full_words-IsShaped msm6 = record {
    rng = sent_length _ _ b.sats.rrng sats.rrng few_sats;
    info = refl;
    rng_m = sent_length _ _ b.sats.rrng sats.rrng few_sats;
    rate = refl;
    pr = sent_length _ _ b.sigs.psrng sigs.psrng few_cells;
    cp = sent_length _ _ b.sigs.phrng sigs.phrng few_cells;
    lock = sent_length _ _ b.sigs.lock sigs.lock few_cells;
    half = length-take _ b.sigs.half (omega (arith, sigs.half, few_cells));
    cnr = sent_length _ _ b.sigs.cnr sigs.cnr few_cells;
    rrf = refl;
  }
  full_words-IsShaped msm7 = record {
    rng = sent_length _ _ b.sats.rrng sats.rrng few_sats;
    info = length-take _ b.sats.info (omega (arith, sats.info, few_sats));
    rng_m = sent_length _ _ b.sats.rrng sats.rrng few_sats;
    rate = sent_length _ _ b.sats.rrate sats.rrate few_sats;
    pr = sent_length _ _ b.sigs.psrng sigs.psrng few_cells;
    cp = sent_length _ _ b.sigs.phrng sigs.phrng few_cells;
    lock = sent_length _ _ b.sigs.lock sigs.lock few_cells;
    half = length-take _ b.sigs.half (omega (arith, sigs.half, few_cells));
    cnr = sent_length _ _ b.sigs.cnr sigs.cnr few_cells;
    rrf = sent_length _ _ b.sigs.rate sigs.rate few_cells;
  }

message_bits-le :
    (kind : FullMsm) (nsat ncell : ℕ) → nsat ≤ 64 → ncell ≤ 64 → message_bits kind nsat ncell ≤ 7424
unfolding message_bits
message_bits-le msm4 nsat ncell few small = omega arith
message_bits-le msm5 nsat ncell few small = omega arith
message_bits-le msm6 nsat ncell few small = omega arith
message_bits-le msm7 nsat ncell few small = omega arith

count_cells-le : (mask : List ℕ) → count_cells mask ≤ length mask
unfolding count_cells
count_cells-le [] = omega arith
count_cells-le (m ∷ ms) = let rest = count_cells-le ms in ground arith

module _ {D T : Type 0} (x : Setup D T) (sys : System) (kind : FullMsm) (sync : ℕ)
    (r : Rtcm (ObsState D T)) where
  -- What the encoder sends.
  abbrev pub sent_body : MsmBody D T
  sent_body = msm_body x (full_number kind) sys sync r.body

  abbrev pub sent_fields : List Field
  sent_fields = head_fields sent_body.head ++ full_fields kind (full_words x kind sent_body)

  sent_head : sent_body.index.nsat * sent_body.index.nsig ≤ 64 → IsHead sent_body.head
  unfolding msm_body
  sent_head small =
      let m = gen_msm_index (visits x sys r.body.obs) in
      let h = gen_msm_index-IsIndex (visits x sys r.body.obs) in
      let few : m.nsat * m.nsig ≤ 64 = small in
      let all : min (m.nsat * m.nsig) 64 ≡ m.nsat * m.nsig = omega (arith, few) in
      record {
        sats = length-mask_of m.sat_ind ∙ h.sats;
        sigs = length-mask_of m.sig_ind ∙ h.sigs;
        cells =
            length-mask_of (take (min (m.nsat * m.nsig) 64) m.cell_ind)
            ∙ length-take (min (m.nsat * m.nsig) 64) m.cell_ind (omega (arith, few, h.cells))
            ∙ all
            ∙ sym (ap₂ ◌*◌ h.nsat h.nsig);
      }

  sent_shape :
      sent_body.index.nsat * sent_body.index.nsig ≤ 64
      → IsShaped kind
          (full_words x kind sent_body)
          (length (ids_of 1 sent_body.head.sat_mask))
          (count_cells sent_body.head.cell_mask)
  unfolding msm_body
  sent_shape small =
      let vs = visits x sys r.body.obs in
      let m = gen_msm_index vs in
      let h = gen_msm_index-IsIndex vs in
      let c = gen_msm_index_cells vs small in
      let few : m.nsat * m.nsig ≤ 64 = small in
      let all : min (m.nsat * m.nsig) 64 ≡ m.nsat * m.nsig = omega (arith, few) in
      let counted = ap (λ n. count_cells (mask_of (take n m.cell_ind))) all ∙ c.0 in
      rw (h.nsat, counted)
        (full_words-IsShaped x sent_body (gen_msm_sat-AreSats x sys r.body.gephs m.sat_ind vs)
          (gen_msm_sig-AreSigs x r.body.gephs m _ vs r.body.cp r.body.lltime) h.nsat_low c.1 kind)

  pub encode_full_out :
      (encode_full x kind sys sync r).1 ≡ true
      → ((encode_full x kind sys sync r).0.buff ≡ (write_fields r.buff 24 sent_fields).0)
        × ((encode_full x kind sys sync r).0.nbit ≡ 24 + total sent_fields)
  unfolding encode_full encode_msm
  encode_full_out sent = elim (Bool-cases (first_number sys == 0)) [
    | inl no_number ↦ absurd (ground arith)
    | inr numbered ↦ rw numbered (refl, write_fields_end sent_fields r.buff 24)
  ]

  -- A receiver's buffer that agrees reads as what was sent.
  pub received :
      (t : Rtcm (ObsState D T))
      → IsBytes r.buff
      → (encode_full x kind sys sync r).1 ≡ true
      → AllFit sent_fields
      → 24 + total sent_fields ≤ 8 * length r.buff
      → Agrees t.buff
          (encode_full x kind sys sync r).0.buff
          24
          (encode_full x kind sys sync r).0.nbit
      → Reads t.buff 24 sent_fields
  received t bytes sent fit room same =
      let fs = sent_fields in
      let out = encode_full_out sent in
      let written = Reads-write_fields fs r.buff 24 bytes fit room in
      Reads-agree fs t.buff (encode_full x kind sys sync r).0.buff 24 24
        (encode_full x kind sys sync r).0.nbit fit (omega arith) (omega (arith, out.1)) same
        (subst (λ buff. Reads buff 24 fs) (sym out.0) written)

  -- When an encoder of MSM4 to MSM7 accepts its system, the observations give at most 64 cells, the
  -- words fit their fields, the buffer has room, and a receiver's buffer agrees on the bits of the
  -- message, the decoder saves what the words say, if its test accepts the station id.
  pub decode_msm-encode_full :
      (pri : Priorities) (t : Rtcm (ObsState D T))
      → IsBytes r.buff
      → (encode_full x kind sys sync r).1 ≡ true
      → sent_body.index.nsat * sent_body.index.nsig ≤ 64
      → AllFit sent_fields
      → 24 + total sent_fields ≤ 8 * length r.buff
      → 24 + total sent_fields ≤ t.len * 8
      → Agrees t.buff
          (encode_full x kind sys sync r).0.buff
          24
          (encode_full x kind sys sync r).0.nbit
      → (test_staid t.body.station r.body.station.staid).1 ≡ true
      → decode_msm x sys pri kind t
        ≡ with_cells x sys sent_body.head t pri kind (full_words x kind sent_body)
  unfolding msm_body
  decode_msm-encode_full pri t bytes sent small fit room long same accepted =
      let reads = received t bytes sent fit room same in
      let head = sent_head small in
      let index = gen_msm_index-IsIndex (visits x sys r.body.obs) in
      let few : sent_body.index.nsat * sent_body.index.nsig ≤ 64 = small in
      decode_msm-Reads x sys sent_body.head t pri kind (full_words x kind sent_body) head
        (sent_shape small) reads long
        (omega (arith, head.cells, ap₂ ◌*◌ index.nsat index.nsig, few)) accepted

  -- A multiple signal message of at most 64 cells, MSM4 to MSM7, ends within the 1026 bytes of
  -- header and message that gen_rtcm3 allows.
  pub total-sent_fields :
      sent_body.index.nsat * sent_body.index.nsig ≤ 64 → 24 + total sent_fields ≤ 8 * 1026
  unfolding msm_body
  total-sent_fields small =
      let w = sent_body.head in
      let head = sent_head small in
      let index = gen_msm_index-IsIndex (visits x sys r.body.obs) in
      let few : sent_body.index.nsat * sent_body.index.nsig ≤ 64 = small in
      let cells : length w.cell_mask ≤ 64 =
        omega (arith, head.cells, ap₂ ◌*◌ index.nsat index.nsig, few) in
      let sats : length (ids_of 1 w.sat_mask) ≤ 64 = omega (arith, index.nsat, index.nsat_low) in
      let counted : count_cells w.cell_mask ≤ 64 =
        omega (arith, cells, count_cells-le w.cell_mask) in
      omega (
        arith,
        total-append (head_fields w) (full_fields kind (full_words x kind sent_body)),
        total-head_fields w head,
        total-full_fields kind _ _ _ (sent_shape small),
        message_bits-le kind _ _ sats counted,
        cells,
      )
