-- ===== src/Msm/Numbering.antt =====
-- What `gen_msm_index` numbers is what `decode_msm_head` counts: the columns of a satellite and of a
-- cell stand at the positions at which the decoder expects them.
use native.Mathlib.Nat.{mul-le-mul_right, suc-mul}
use go_ntrip.Base.{
  ℕ, zero, suc, ◌+◌, ◌-◌, ◌*◌, ◌≤◌, ◌<◌, ◌≡◌, ◌∙◌, List, [], ◌∷◌, ◌++◌, length, take, replicate,
  get_or, arith,
}
use go_ntrip.Msm.{ids_of, count_cells}
use go_ntrip.Msm.Index.{
  Visit, mark, mark_cells, cell_of, number, number_cells, MsmIndex, gen_msm_index,
}
use go_ntrip.Msm.Encode.{mask_of}
use go_ntrip.Msm.Masks.{
  ids_of-number, get_or-ids_of, count_cells-number_cells, get_or-number_cells, mark_visited,
  length-mark_cells, mark_cells_visited,
}

-- A number is at most the count.
get_or-number_le :
    (n k : ℕ) (ms : List ℕ) → n ≤ (number n ms).1 × get_or (number n ms).0 k 0 ≤ (number n ms).1
unfolding number
get_or-number_le n k [] = (omega arith, omega arith)
get_or-number_le n zero (m ∷ ms) =
    let skip = get_or-number_le n 0 ms in let count = get_or-number_le (n + 1) 0 ms in ground arith
get_or-number_le n (suc k) (m ∷ ms) =
    let skip = get_or-number_le n k ms in let count = get_or-number_le (n + 1) k ms in ground arith

cell_bound : (a b nsat nsig : ℕ) → a < nsig → b < nsat → a + b * nsig < nsat * nsig
cell_bound a b zero nsig low high = absurd (omega arith)
cell_bound a b (suc nsat) nsig low high =
    let rows : b * nsig ≤ nsat * nsig = mul-le-mul_right nsig (omega arith) in
    omega (arith, suc-mul nsat nsig)

-- The ids that the masks of `m` give a decoder.
abbrev pub sat_ids : MsmIndex → List ℕ
sat_ids m = ids_of 1 (mask_of m.sat_ind)

abbrev pub sig_ids : MsmIndex → List ℕ
sig_ids m = ids_of 1 (mask_of m.sig_ind)

-- The counts agree, and the visit `v` is found at its numbers.
pub record IsFound {D T : Type 0} (m : MsmIndex) (v : Visit D T) : Type 0 where
  pub nsat : length (sat_ids m) ≡ m.nsat
  pub nsig : length (sig_ids m) ≡ m.nsig
  pub ncell : count_cells (mask_of (take (m.nsat * m.nsig) m.cell_ind)) ≡ m.ncell
  pub sat : get_or (sat_ids m) (get_or m.sat_ind (v.sat - 1) 0 - 1) 0 ≡ v.sat
  pub sig : get_or (sig_ids m) (get_or m.sig_ind (v.sig - 1) 0 - 1) 0 ≡ v.sig
  pub cell :
      let c = cell_of m.nsig m.sat_ind m.sig_ind v in
      get_or m.cell_ind c 0 ≡ suc (count_cells (mask_of (take c m.cell_ind)))

-- The numbering of marked satellites, signals and cells.
abbrev numbering : List ℕ → List ℕ → List ℕ → MsmIndex
numbering sat_marks sig_marks cell_marks =
    let sats = number 0 sat_marks in
    let sigs = number 0 sig_marks in
    let cells = number_cells (sats.1 * sigs.1) 0 cell_marks in
    record {
      nsat = sats.1;
      nsig = sigs.1;
      ncell = cells.1;
      sat_ind = sats.0;
      sig_ind = sigs.0;
      cell_ind = cells.0;
    }

module _ {D T : Type 0} (v : Visit D T) where
  -- The cell of a marked satellite and a marked signal is one of the message.
  cell_inside :
      (ms gs : List ℕ)
      → 0 < get_or ms (v.sat - 1) 0
      → 0 < get_or gs (v.sig - 1) 0
      → cell_of (number 0 gs).1 (number 0 ms).0 (number 0 gs).0 v
        < (number 0 ms).1 * (number 0 gs).1
  unfolding cell_of
  cell_inside ms gs sat sig =
      let in_sat = get_or-ids_of 1 0 (v.sat - 1) ms sat in
      let in_sig = get_or-ids_of 1 0 (v.sig - 1) gs sig in
      let low_sat = get_or-number_le 0 (v.sat - 1) ms in
      let low_sig = get_or-number_le 0 (v.sig - 1) gs in
      cell_bound _ _ (number 0 ms).1 (number 0 gs).1 (omega (arith, in_sig.0, low_sig.1))
        (omega (arith, in_sat.0, low_sat.1))

  numbering-IsFound :
      (ms gs cells : List ℕ)
      → 0 < v.sat
      → 0 < v.sig
      → 0 < get_or ms (v.sat - 1) 0
      → 0 < get_or gs (v.sig - 1) 0
      → let m = numbering ms gs cells in
        0 < get_or cells (cell_of m.nsig m.sat_ind m.sig_ind v) 0
        → 64 ≤ length cells
        → m.nsat * m.nsig ≤ 64
        → IsFound m v
  numbering-IsFound ms gs cells sat_low sig_low sat sig marked long small =
      let in_sat = get_or-ids_of 1 0 (v.sat - 1) ms sat in
      let in_sig = get_or-ids_of 1 0 (v.sig - 1) gs sig in
      let rounds = (number 0 ms).1 * (number 0 gs).1 in
      record {
        nsat = omega (arith, ids_of-number 1 0 ms);
        nsig = omega (arith, ids_of-number 1 0 gs);
        ncell = omega (arith, count_cells-number_cells rounds 0 cells (omega arith) (omega arith));
        sat = in_sat.1 ∙ omega arith;
        sig = in_sig.1 ∙ omega arith;
        cell =
            get_or-number_cells rounds 0 _ cells (omega arith) (cell_inside ms gs sat sig) marked
            ∙ omega arith;
      }

  -- For observations with at most 64 cells, the numbers that gen_msm_index gives a satellite, a
  -- signal and a cell are the positions at which decode_msm_head finds them: as many ids and cells
  -- are counted as were numbered, the id at a satellite's or a signal's number is its own, and the
  -- number of a cell is one more than the marked cells before it.
  pub gen_msm_index-IsFound :
      (before after : List (Visit D T))
      → 0 < v.sat
      → v.sat ≤ 64
      → 0 < v.sig
      → v.sig ≤ 32
      → (gen_msm_index (before ++ (v ∷ after))).nsat * (gen_msm_index (before ++ (v ∷ after))).nsig
        ≤ 64
      → IsFound (gen_msm_index (before ++ (v ∷ after))) v
  unfolding gen_msm_index
  gen_msm_index-IsFound before after sat_low sat_high sig_low sig_high small =
      let vs = before ++ (v ∷ after) in
      let marked = mark vs (replicate 64 0, replicate 32 0) in
      let seen =
        mark_visited before after v (replicate 64 0, replicate 32 0) (omega arith) (omega arith) in
      let sats = number 0 marked.0 in
      let sigs = number 0 marked.1 in
      let cells = mark_cells sigs.1 sats.0 sigs.0 vs (replicate 2048 0) in
      let long = length-mark_cells sigs.1 sats.0 sigs.0 vs (replicate 2048 0) in
      let few : sats.1 * sigs.1 ≤ 64 = small in
      let inside : cell_of sigs.1 sats.0 sigs.0 v < sats.1 * sigs.1 =
        cell_inside marked.0 marked.1 seen.0 seen.1 in
      let held =
        mark_cells_visited sigs.1 sats.0 sigs.0 before after v (replicate 2048 0)
          (omega (arith, few, inside)) in
      numbering-IsFound marked.0 marked.1 cells sat_low sig_low seen.0 seen.1 held
        (omega (arith, long)) few
