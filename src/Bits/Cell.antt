-- ===== src/Bits/Cell.antt =====
-- One bit of a byte, and one bit of a buffer, written and read.
use go_ntrip.Base.{
  ℕ, zero, suc, [], ◌∷◌, ◌-◌, ◌*◌, ◌/◌, ◌%◌, ◌^◌, ◌<◌, bit_and, bit_or, ◌≡◌, refl, List, Bool, true,
  false, ◌&&◌, length, ltb, ◌==◌, ==_iff, if◌then◌else◌, arith, passes_below, passes_below_at,
  Bool-cases, inl, inr, length-set, get_or-set_self, get_or-set_ne,
}
use go_ntrip.Bits.{byte_at, write_bit}

-- Bit `i` of the buffer, counted from the most significant bit of its first byte.
abbrev pub bit_at : List ℕ → ℕ → ℕ
bit_at buff i = byte_at buff (i / 8) / 2 ^ (7 - i % 8) % 2

abbrev pub IsBytes : List ℕ → Type 0
IsBytes buff = (k : ℕ) → byte_at buff k < 256

abbrev pub AllBytes : List ℕ → Type 0
AllBytes [] = Unit {0}
AllBytes (d ∷ ds) = (d < 256) × AllBytes ds

pub AllBytes-IsBytes : (ds : List ℕ) → AllBytes ds → IsBytes ds
AllBytes-IsBytes [] h k = omega arith
AllBytes-IsBytes (d ∷ ds) h zero = h.0
AllBytes-IsBytes (d ∷ ds) h (suc k) = AllBytes-IsBytes ds h.1 k

abbrev pub digit : Bool → ℕ
digit b = if b then 1 else 0

abbrev stored : Bool → ℕ → ℕ → ℕ
stored b v m = if b then bit_or v m else bit_and v (2 ^ 32 - 1 - m)

cell_ok : Bool → ℕ → ℕ → ℕ → Bool
cell_ok b v k j =
    ltb (stored b v (2 ^ k)) 256
    && (stored b v (2 ^ k) / 2 ^ j % 2 == (if k == j then digit b else v / 2 ^ j % 2))

abbrev row_ok : Bool → ℕ → ℕ → Bool
row_ok b v k = passes_below (cell_ok b v k) 8

abbrev byte_ok : Bool → ℕ → Bool
byte_ok b v = passes_below (row_ok b v) 8

table : (b : Bool) → passes_below (byte_ok b) 256 ≡ true
unfolding passes_below cell_ok
table true = refl
table false = refl

cell : (b : Bool) (v k j : ℕ) → v < 256 → k < 8 → j < 8 → cell_ok b v k j ≡ true
cell b v k j hv hk hj =
    passes_below_at (cell_ok b v k) 8 j hj
      (passes_below_at (row_ok b v) 8 k hk (passes_below_at (byte_ok b) 256 v hv (table b)))

stored-lt : (b : Bool) (v k : ℕ) → v < 256 → k < 8 → stored b v (2 ^ k) < 256
unfolding cell_ok
stored-lt b v k hv hk = ground (arith, cell b v k 0 hv hk (omega arith))

stored_bit :
    (b : Bool) (v k j : ℕ)
    → v < 256
    → k < 8
    → j < 8
    → stored b v (2 ^ k) / 2 ^ j % 2 ≡ (if k == j then digit b else v / 2 ^ j % 2)
unfolding cell_ok
stored_bit b v k j hv hk hj = ground (arith, cell b v k j hv hk hj)

module _ (buff : List ℕ) (bytes : IsBytes buff) (i : ℕ) (b : Bool) where
  pub length-write_bit : length (write_bit buff i b) ≡ length buff
  unfolding write_bit
  length-write_bit = length-set buff (i / 8) _

  byte_at-write_bit :
      (k : ℕ)
      → i < 8 * length buff
      → byte_at (write_bit buff i b) k
        ≡ (if i / 8 == k then stored b (byte_at buff k) (2 ^ (7 - i % 8)) else byte_at buff k)
  unfolding write_bit
  byte_at-write_bit k h = elim (Bool-cases (i / 8 == k)) [
    | inl e ↦
        let p : i / 8 ≡ k = (==_iff _ _).0 e in
        rw (e, ← p) (get_or-set_self buff (i / 8) _ 0 (omega arith))
    | inr e ↦ rw e (get_or-set_ne buff (i / 8) k _ 0 (ground arith))
  ]

  pub write_bit-IsBytes : i < 8 * length buff → IsBytes (write_bit buff i b)
  write_bit-IsBytes h k =
      rw (byte_at-write_bit k h)
        (ground (arith, bytes k, stored-lt b (byte_at buff k) (7 - i % 8) (bytes k) (omega arith)))

  -- Writing bit `i` sets that bit and leaves every other as it was.
  pub bit_at-write_bit :
      (j : ℕ)
      → i < 8 * length buff
      → bit_at (write_bit buff i b) j ≡ (if i == j then digit b else bit_at buff j)
  bit_at-write_bit j h = rw (byte_at-write_bit (j / 8) h) (
      ground (
        arith,
        stored_bit b (byte_at buff (j / 8)) (7 - i % 8) (7 - j % 8) (bytes (j / 8)) (omega arith)
            (omega arith),
      ))
