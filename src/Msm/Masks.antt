-- ===== src/Msm/Masks.antt =====
-- The masks of a message: what `decode_msm_head` reads from the numbering of `gen_msm_index`.
use go_ntrip.Base.{
  ℕ, zero, suc, ◌+◌, ◌-◌, ◌≤◌, ◌<◌, ◌≡◌, refl, ap, ◌∙◌, List, [], ◌∷◌, ◌++◌, length, take, set,
  get_or, length-set, get_or-set_self, false, ◌==◌, if◌then◌else◌, arith,
}
use go_ntrip.Msm.{ids_of, count_cells}
use go_ntrip.Msm.Index.{Visit, mark, mark_cells, cell_of, number, number_cells}
use go_ntrip.Msm.Encode.{mask_of}

pub length-mask_of : (ind : List ℕ) → length (mask_of ind) ≡ length ind
unfolding mask_of
length-mask_of [] = refl
length-mask_of (m ∷ ms) = ap suc (length-mask_of ms)

pub length-number : (ms : List ℕ) (n : ℕ) → length (number n ms).0 ≡ length ms
unfolding number
length-number [] n = refl
length-number (m ∷ ms) n = ap suc (length-number ms (if m == 0 then n else n + 1))

-- As many ids are read as satellites or signals are numbered.
pub ids_of-number :
    (j n : ℕ) (ms : List ℕ) → length (ids_of j (mask_of (number n ms).0)) + n ≡ (number n ms).1
unfolding number mask_of ids_of
ids_of-number j n [] = omega arith
ids_of-number j n (m ∷ ms) =
    let skip = ids_of-number (j + 1) n ms in
    let count = ids_of-number (j + 1) (n + 1) ms in ground arith

-- The numbers are positions among the ids.
pub get_or-ids_of :
    (j n k : ℕ) (ms : List ℕ)
    → 0 < get_or ms k 0
    → let number_k = get_or (number n ms).0 k 0 in
      (n < number_k) × (get_or (ids_of j (mask_of (number n ms).0)) (number_k - suc n) 0 ≡ j + k)
unfolding number mask_of ids_of
get_or-ids_of j n k [] marked = absurd (omega arith)
get_or-ids_of j n zero (zero ∷ ms) marked = absurd (omega arith)
get_or-ids_of j n (suc k) (zero ∷ ms) marked =
    let rest = get_or-ids_of (j + 1) n k ms marked in (rest.0, rest.1 ∙ omega arith)
get_or-ids_of j n zero (suc m ∷ ms) marked =
    let one : (suc m == 0) ≡ false = ground arith in
    let some_number : (n + 1 == 0) ≡ false = ground arith in
    let first : n + 1 - suc n ≡ 0 = omega arith in
    rw (one, some_number, first) (omega arith, omega arith)
get_or-ids_of j n (suc k) (suc m ∷ ms) marked =
    let one : (suc m == 0) ≡ false = ground arith in
    let some_number : (n + 1 == 0) ≡ false = ground arith in
    let rest = get_or-ids_of (j + 1) (n + 1) k ms marked in
    let place = get_or (number (n + 1) ms).0 k 0 in
    let next : place - suc n ≡ suc (place - suc (n + 1)) = omega (arith, rest.0) in
    rw (one, some_number, next) (omega (arith, rest.0), rest.1 ∙ omega arith)

-- As many cells are counted as are numbered.
pub count_cells-number_cells :
    (rounds n : ℕ) (cells : List ℕ)
    → n + rounds ≤ 64
    → rounds ≤ length cells
    → count_cells (mask_of (take rounds (number_cells rounds n cells).0)) + n
      ≡ (number_cells rounds n cells).1
unfolding number_cells mask_of count_cells
count_cells-number_cells zero n [] small long = omega arith
count_cells-number_cells (suc rounds) n [] small long = absurd (omega arith)
count_cells-number_cells zero n (m ∷ ms) small long = omega arith
count_cells-number_cells (suc rounds) n (m ∷ ms) small long =
    let skip = count_cells-number_cells rounds n ms (omega arith) (omega arith) in
    let count = count_cells-number_cells rounds (n + 1) ms (omega arith) (omega arith) in
    ground arith

pub length-number_cells :
    (rounds n : ℕ) (cells : List ℕ) → length (number_cells rounds n cells).0 ≡ length cells
unfolding number_cells
length-number_cells rounds n [] = refl
length-number_cells zero n (m ∷ ms) = refl
length-number_cells (suc rounds) n (m ∷ ms) = ap suc (length-number_cells rounds _ ms)

pub number-le : (n : ℕ) (ms : List ℕ) → (number n ms).1 ≤ n + length ms
unfolding number
number-le n [] = omega arith
number-le n (m ∷ ms) = let skip = number-le n ms in let count = number-le (n + 1) ms in ground arith

pub number_cells-le : (rounds n : ℕ) (cells : List ℕ) → (number_cells rounds n cells).1 ≤ n + rounds
unfolding number_cells
number_cells-le rounds n [] = omega arith
number_cells-le zero n (m ∷ ms) = omega arith
number_cells-le (suc rounds) n (m ∷ ms) =
    let skip = number_cells-le rounds n ms in
    let count = number_cells-le rounds (n + 1) ms in ground arith

-- The number of a marked cell is one more than the marked cells before it.
pub get_or-number_cells :
    (rounds n c : ℕ) (cells : List ℕ)
    → n + rounds ≤ 64
    → c < rounds
    → 0 < get_or cells c 0
    → get_or (number_cells rounds n cells).0 c 0
      ≡ suc (n + count_cells (mask_of (take c (number_cells rounds n cells).0)))
unfolding number_cells mask_of count_cells
get_or-number_cells rounds n c [] small inside marked = absurd (omega arith)
get_or-number_cells zero n c (m ∷ ms) small inside marked = absurd (omega arith)
get_or-number_cells (suc rounds) n zero (m ∷ ms) small inside marked = ground arith
get_or-number_cells (suc rounds) n (suc c) (m ∷ ms) small inside marked =
    let skip = get_or-number_cells rounds n c ms (omega arith) (omega arith) marked in
    let count = get_or-number_cells rounds (n + 1) c ms (omega arith) (omega arith) marked in
    ground arith

-- A mark stays, and is set.
set_keep : (xs : List ℕ) (i k : ℕ) → 0 < get_or xs k 0 → 0 < get_or (set xs i 1) k 0
set_keep [] i k h = h
set_keep (x ∷ xs) zero zero h = omega arith
set_keep (x ∷ xs) zero (suc k) h = h
set_keep (x ∷ xs) (suc i) zero h = h
set_keep (x ∷ xs) (suc i) (suc k) h = set_keep xs i k h

set_marks : (xs : List ℕ) (k : ℕ) → k < length xs → 0 < get_or (set xs k 1) k 0
set_marks xs k h = omega (arith, get_or-set_self xs k 1 0 h)

module _ {D T : Type 0} where
  pub length-mark :
      (vs : List (Visit D T)) (ind : List ℕ × List ℕ)
      → (length (mark vs ind).0 ≡ length ind.0) × (length (mark vs ind).1 ≡ length ind.1)
  unfolding mark
  length-mark [] ind = (refl, refl)
  length-mark (v ∷ vs) ind =
      let rest = length-mark vs (set ind.0 (v.sat - 1) 1, set ind.1 (v.sig - 1) 1) in
      (rest.0 ∙ length-set ind.0 (v.sat - 1) 1, rest.1 ∙ length-set ind.1 (v.sig - 1) 1)

  mark_keep :
      (vs : List (Visit D T)) (ind : List ℕ × List ℕ) (k l : ℕ)
      → 0 < get_or ind.0 k 0
      → 0 < get_or ind.1 l 0
      → (0 < get_or (mark vs ind).0 k 0) × (0 < get_or (mark vs ind).1 l 0)
  unfolding mark
  mark_keep [] ind k l a b = (a, b)
  mark_keep (v ∷ vs) ind k l a b =
      mark_keep vs _ k l (set_keep ind.0 (v.sat - 1) k a) (set_keep ind.1 (v.sig - 1) l b)

  pub mark_visited :
      (before after : List (Visit D T)) (v : Visit D T) (ind : List ℕ × List ℕ)
      → v.sat - 1 < length ind.0
      → v.sig - 1 < length ind.1
      → let marked = mark (before ++ (v ∷ after)) ind in
        (0 < get_or marked.0 (v.sat - 1) 0) × (0 < get_or marked.1 (v.sig - 1) 0)
  unfolding mark
  mark_visited [] after v ind a b =
      mark_keep after _ (v.sat - 1) (v.sig - 1) (set_marks ind.0 (v.sat - 1) a)
        (set_marks ind.1 (v.sig - 1) b)
  mark_visited (w ∷ before) after v ind a b =
      mark_visited before after v _ (omega (arith, length-set ind.0 (w.sat - 1) 1))
        (omega (arith, length-set ind.1 (w.sig - 1) 1))

  module _ (nsig : ℕ) (sats sigs : List ℕ) where
    pub length-mark_cells :
        (vs : List (Visit D T)) (cells : List ℕ)
        → length (mark_cells nsig sats sigs vs cells) ≡ length cells
    unfolding mark_cells
    length-mark_cells [] cells = refl
    length-mark_cells (v ∷ vs) cells =
        length-mark_cells vs _ ∙ length-set cells (cell_of nsig sats sigs v) 1

    mark_cells_keep :
        (vs : List (Visit D T)) (cells : List ℕ) (c : ℕ)
        → 0 < get_or cells c 0
        → 0 < get_or (mark_cells nsig sats sigs vs cells) c 0
    unfolding mark_cells
    mark_cells_keep [] cells c h = h
    mark_cells_keep (v ∷ vs) cells c h =
        mark_cells_keep vs _ c (set_keep cells (cell_of nsig sats sigs v) c h)

    pub mark_cells_visited :
        (before after : List (Visit D T)) (v : Visit D T) (cells : List ℕ)
        → cell_of nsig sats sigs v < length cells
        → 0
          < get_or
              (mark_cells nsig sats sigs (before ++ (v ∷ after)) cells)
              (cell_of nsig sats sigs v)
              0
    unfolding mark_cells
    mark_cells_visited [] after v cells h =
        mark_cells_keep after _ _ (set_marks cells (cell_of nsig sats sigs v) h)
    mark_cells_visited (w ∷ before) after v cells h =
        mark_cells_visited before after v _
          (omega (arith, length-set cells (cell_of nsig sats sigs w) 1))
