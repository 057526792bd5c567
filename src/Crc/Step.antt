-- ===== src/Crc/Step.antt =====
-- One byte of the CRC-24Q: the table step is eight shifts of the polynomial division.
use native.Mathlib.Nat.{pow-suc, one-le-pow, mul-le-mul_left}
use go_ntrip.Base.{
  Bool, ℕ, zero, suc, ◌*◌, ◌/◌, ◌%◌, ◌^◌, ◌≤◌, ◌<◌, bit_and, bit_xor, ◌≡◌, refl, sym, ap, ap₂, ◌∙◌,
  true, ltb, ◌==◌, ==_iff, if◌then◌else◌, get_or, arith, inl, inr, Bool-cases, passes_below,
  passes_below_at, xor-digit, xor_comm, xor_assoc, xor-injective, xor_exchange, xor-double,
  xor-shift, xor-div, xor-lt, xor_fields, xor-zero, zero-xor, bit_and_mask, xor_self, ltb→lt,
}
use go_ntrip.Crc.{poly_crc24q, crc24q_step}
use go_ntrip.Crc.Tables.{tbl_crc24q}

-- The register times x, reduced by the polynomial of degree 24.
pub shift : ℕ → ℕ
shift x = if ltb (x * 2) (2 ^ 24) then x * 2 else bit_xor (x * 2) poly_crc24q

pub shifts : ℕ → ℕ → ℕ
shifts zero x = x
shifts (suc n) x = shifts n (shift x)

abbrev row_ok : ℕ → Bool
row_ok t = shifts 8 (t * 2 ^ 16) == get_or tbl_crc24q t 0

table_rows : passes_below row_ok 256 ≡ true
unfolding passes_below shifts shift
table_rows = refl

row : (t : ℕ) → t < 256 → shifts 8 (t * 2 ^ 16) ≡ get_or tbl_crc24q t 0
row t h = (==_iff _ _).0 (passes_below_at row_ok 256 t h table_rows)

shift_small : (x : ℕ) → x * 2 < 2 ^ 24 → shift x ≡ x * 2
unfolding shift
shift_small x h = ground arith

shift-xor_top : (x : ℕ) → x < 2 ^ 24 → shift x ≡ bit_xor (x * 2) (x / 2 ^ 23 * poly_crc24q)
unfolding shift
shift-xor_top x h = elim (Bool-cases (ltb (x * 2) (2 ^ 24))) [
  | inl lo ↦
      let top : x / 2 ^ 23 * poly_crc24q ≡ 0 = ground arith in rw (lo, top) (sym (xor-zero (x * 2)))
  | inr hi ↦ let top : x / 2 ^ 23 * poly_crc24q ≡ poly_crc24q = ground arith in rw (hi, top) refl
]

top_digit : (s t p : ℕ) → s < 2 → t < 2 → bit_xor s t * p ≡ bit_xor (s * p) (t * p)
top_digit zero t p h k =
    ap (λ (r : ℕ). r * p) (zero-xor t)
    ∙ sym (ap (λ r. bit_xor r (t * p)) (omega arith) ∙ zero-xor (t * p))
top_digit (suc zero) zero p h k = sym (ap (bit_xor (1 * p)) (omega arith) ∙ xor-zero (1 * p))
top_digit (suc zero) (suc zero) p h k = omega (arith, xor_self (1 * p))
top_digit (suc zero) (suc (suc t)) p h k = absurd (omega arith)
top_digit (suc (suc s)) t p h k = absurd (omega arith)

shift-lt : (x : ℕ) → x < 2 ^ 24 → shift x < 2 ^ 24
unfolding shift
shift-lt x h = elim (Bool-cases (ltb (x * 2) (2 ^ 24))) [
  | inl lo ↦ rw lo (ltb→lt _ _ lo)
  | inr hi ↦
      let top : x * 2 / 2 ^ 24 ≡ 1 = ground arith in
      let cut : bit_xor (x * 2) poly_crc24q / 2 ^ 24 ≡ 0 =
        xor-div 24 (x * 2) poly_crc24q ∙ ap (λ t. bit_xor t 1) top in
      rw hi (omega arith)
]

shift-xor : (x y : ℕ) → x < 2 ^ 24 → y < 2 ^ 24 → shift (bit_xor x y) ≡ bit_xor (shift x) (shift y)
shift-xor x y h k =
    shift-xor_top (bit_xor x y) (xor-lt 24 x y h k)
    ∙ ap₂ bit_xor (sym (xor-double x y)) (
        ap (λ (t : ℕ). t * poly_crc24q) (xor-div 23 x y)
        ∙ top_digit (x / 2 ^ 23) (y / 2 ^ 23) poly_crc24q (omega arith) (omega arith))
    ∙ xor_exchange (x * 2) (y * 2) (x / 2 ^ 23 * poly_crc24q) (y / 2 ^ 23 * poly_crc24q)
    ∙ sym (ap₂ bit_xor (shift-xor_top x h) (shift-xor_top y k))

pub shifts-lt : (n x : ℕ) → x < 2 ^ 24 → shifts n x < 2 ^ 24
unfolding shifts
shifts-lt zero x h = h
shifts-lt (suc n) x h = shifts-lt n (shift x) (shift-lt x h)

shifts-xor :
    (n x y : ℕ)
    → x < 2 ^ 24
    → y < 2 ^ 24
    → shifts n (bit_xor x y) ≡ bit_xor (shifts n x) (shifts n y)
unfolding shifts
shifts-xor zero x y h k = refl
shifts-xor (suc n) x y h k =
    ap (shifts n) (shift-xor x y h k)
    ∙ shifts-xor n (shift x) (shift y) (shift-lt x h) (shift-lt y k)

shifts_small : (n x : ℕ) → x * 2 ^ n < 2 ^ 24 → shifts n x ≡ x * 2 ^ n
unfolding shifts
shifts_small zero x h = omega arith
shifts_small (suc n) x h =
    let e : x * 2 ^ suc n ≡ x * 2 * 2 ^ n = omega (arith, ap (λ (t : ℕ). x * t) (pow-suc 2 n)) in
    let one : x * 2 * 1 ≤ x * 2 * 2 ^ n = mul-le-mul_left (x * 2) (one-le-pow n 2 (omega arith)) in
    ap (shifts n) (shift_small x (omega arith)) ∙ shifts_small n (x * 2) (omega arith) ∙ sym e

-- The register with the byte added to its top, as the table index and what is below.
indexed :
    (x byte : ℕ)
    → bit_xor x (byte * 2 ^ 16) ≡ bit_xor (bit_xor (x / 2 ^ 16) byte * 2 ^ 16) (x % 2 ^ 16)
indexed x byte =
    let hi = x / 2 ^ 16 * 2 ^ 16 in
    let lo = x % 2 ^ 16 in
    let split : x ≡ bit_xor hi lo = omega (arith, xor_fields 16 (x / 2 ^ 16) lo (omega arith)) in
    ap (λ t. bit_xor t (byte * 2 ^ 16)) split
    ∙ xor_assoc hi lo (byte * 2 ^ 16)
    ∙ ap (bit_xor hi) (xor_comm lo (byte * 2 ^ 16))
    ∙ sym (xor_assoc hi (byte * 2 ^ 16) lo)
    ∙ ap (λ t. bit_xor t lo) (xor-shift 16 (x / 2 ^ 16) byte)

pub crc24q_step-shifts :
    (x byte : ℕ)
    → x < 2 ^ 24
    → byte < 256
    → crc24q_step x byte ≡ shifts 8 (bit_xor x (byte * 2 ^ 16))
unfolding crc24q_step
crc24q_step-shifts x byte h k =
    let index = bit_xor (x / 2 ^ 16) byte in
    let small : index < 256 = xor-lt 8 (x / 2 ^ 16) byte (omega arith) k in
    let low : bit_and (x * 2 ^ 8 % 2 ^ 32) 0xffffff ≡ x % 2 ^ 16 * 2 ^ 8 =
      bit_and_mask 24 (x * 2 ^ 8 % 2 ^ 32) ∙ omega arith in
    ap₂ bit_xor low (sym (row index small))
    ∙ xor_comm _ (shifts 8 (index * 2 ^ 16))
    ∙ sym (ap (bit_xor (shifts 8 (index * 2 ^ 16))) (shifts_small 8 (x % 2 ^ 16) (omega arith)))
    ∙ sym (shifts-xor 8 (index * 2 ^ 16) (x % 2 ^ 16) (omega arith) (omega arith))
    ∙ ap (shifts 8) (sym (indexed x byte))

shift-injective : (x y : ℕ) → x < 2 ^ 24 → y < 2 ^ 24 → shift x ≡ shift y → x ≡ y
shift-injective x y h k e =
    let s = x / 2 ^ 23 in
    let t = y / 2 ^ 23 in
    let same : bit_xor (x * 2) (s * poly_crc24q) ≡ bit_xor (y * 2) (t * poly_crc24q) =
      sym (shift-xor_top x h) ∙ e ∙ shift-xor_top y k in
    let tops : s ≡ t = omega (
      arith,
      ap (λ (r : ℕ). r % 2) same,
      xor-digit (x * 2) (s * poly_crc24q),
      xor-digit (y * 2) (t * poly_crc24q),
    ) in
    let doubles : x * 2 ≡ y * 2 =
      xor-injective (x * 2) (y * 2) (s * poly_crc24q)
        (same ∙ ap (λ r. bit_xor (y * 2) (r * poly_crc24q)) (sym tops)) in
    omega arith

pub shifts-injective : (n x y : ℕ) → x < 2 ^ 24 → y < 2 ^ 24 → shifts n x ≡ shifts n y → x ≡ y
unfolding shifts
shifts-injective zero x y h k e = e
shifts-injective (suc n) x y h k e =
    shift-injective x y h k (shifts-injective n (shift x) (shift y) (shift-lt x h) (shift-lt y k) e)
