-- ===== src/Base/Masks.antt =====
-- `&` and `|` with the masks of the bit fields, as arithmetic at every width.
use Prim.Native.Nat.{
  ℕ, zero, suc, ◌+◌, ◌-◌, ◌*◌, ◌/◌, ◌%◌, ◌^◌, ◌≤◌, ◌<◌, bit_and, bit_or, bit_or-bitwise,
}
use mathlib.Core.Path.{◌≡◌, refl, ap, sym, ◌∙◌}
use native.Mathlib.Nat.{
  mod-lt, mod-eq_of_lt, add-mul-mod_self_right, le_refl, add-zero, add-suc, pow-suc, one-le-pow,
  div-div-eq-div-mul, pow-le-pow_right, mul-le-mul_right, div-add-mod,
}
use native.Mathlib.Omega.{arith}
use go_ntrip.Base.Binary.{and_last_digit, or_last_digit, bit_and-zero, zero-bit_and, bit_and-double}

pub bit_or-zero : (k a : ℕ) → a ≤ k → bit_or a 0 ≡ a
bit_or-zero k zero h = refl
bit_or-zero zero (suc a) h = absurd (omega arith)
bit_or-zero (suc k) (suc a) h =
    omega (arith, or_last_digit (suc a) 0, bit_or-zero k (suc a / 2) (omega arith))

-- Setting one bit.
pub bit_or-two_pow : (k a : ℕ) → bit_or a (2 ^ k) ≡ a + (1 - a / 2 ^ k % 2) * 2 ^ k
bit_or-two_pow zero a = omega (arith, or_last_digit a 1, bit_or-zero (a / 2) (a / 2) (le_refl _))
bit_or-two_pow (suc k) a =
    let e : 2 ^ suc k ≡ 2 * 2 ^ k = omega (arith, pow-suc 2 k) in
    let half : 2 * 2 ^ k / 2 ≡ 2 ^ k = omega arith in
    rw (e, ← div-div-eq-div-mul a 2 (2 ^ k))
      (omega (
        arith,
        or_last_digit a (2 * 2 ^ k),
        ap (bit_or (a / 2)) half,
        bit_or-two_pow k (a / 2),
        ap (λ (t : ℕ). (1 - a / 2 / 2 ^ k % 2) * t) e,
      ))

-- All ones.
pub bit_and_ones : (n a : ℕ) → a < 2 ^ n → bit_and a (2 ^ n - 1) ≡ a
bit_and_ones zero zero h = zero-bit_and 0
bit_and_ones zero (suc a) h = absurd (omega arith)
bit_and_ones (suc n) a h =
    let e : 2 ^ suc n ≡ 2 * 2 ^ n = omega (arith, pow-suc 2 n) in
    let half : (2 ^ suc n - 1) / 2 ≡ 2 ^ n - 1 = omega arith in
    omega (
      arith,
      one-le-pow n 2,
      and_last_digit a (2 ^ suc n - 1),
      ap (bit_and (a / 2)) half,
      bit_and_ones n (a / 2) (omega arith),
    )

digit-le : (a p : ℕ) → a / p % 2 * p ≤ a
digit-le a p =
    let low : a / p % 2 ≤ a / p = omega arith in
    omega (arith, mul-le-mul_right p low, div-add-mod a p)

-- Clearing one bit of an `n`-bit word.
pub bit_and_clear :
    (n k a : ℕ) → k < n → a < 2 ^ n → bit_and a (2 ^ n - 1 - 2 ^ k) ≡ a - a / 2 ^ k % 2 * 2 ^ k
bit_and_clear zero k a h small = absurd (omega arith)
bit_and_clear (suc n) zero a h small =
    let e : 2 ^ suc n ≡ 2 * 2 ^ n = omega (arith, pow-suc 2 n) in
    let even : 2 ^ suc n - 1 - 1 ≡ 2 * (2 ^ n - 1) = omega arith in
    ap (bit_and a) even
    ∙ omega (arith, bit_and-double a (2 ^ n - 1), bit_and_ones n (a / 2) (omega arith))
bit_and_clear (suc n) (suc k) a h small =
    let e : 2 ^ suc n ≡ 2 * 2 ^ n = omega (arith, pow-suc 2 n) in
    let e' : 2 ^ suc k ≡ 2 * 2 ^ k = omega (arith, pow-suc 2 k) in
    let lt : 2 ^ suc k ≤ 2 ^ n = pow-le-pow_right (omega arith) (omega arith) in
    let half : (2 ^ suc n - 1 - 2 ^ suc k) / 2 ≡ 2 ^ n - 1 - 2 ^ k = omega arith in
    let q : a / 2 ^ suc k ≡ a / 2 / 2 ^ k =
      ap (λ (t : ℕ). a / t) e' ∙ sym (div-div-eq-div-mul a 2 (2 ^ k)) in
    let cleared : a / 2 ^ suc k % 2 * 2 ^ suc k ≡ 2 * (a / 2 / 2 ^ k % 2 * 2 ^ k) =
      ap (λ (t : ℕ). t % 2 * 2 ^ suc k) q
      ∙ omega (arith, ap (λ (t : ℕ). a / 2 / 2 ^ k % 2 * t) e') in
    omega (
      arith,
      one-le-pow k 2,
      and_last_digit a (2 ^ suc n - 1 - 2 ^ suc k),
      ap (bit_and (a / 2)) half,
      bit_and_clear n k (a / 2) (omega arith) (omega arith),
      cleared,
      digit-le (a / 2) (2 ^ k),
    )

pub two_pow-add : (a b : ℕ) → 2 ^ (a + b) ≡ 2 ^ a * 2 ^ b
two_pow-add a zero = rw add-zero (omega arith)
two_pow-add a (suc b) = rw (add-suc, pow-suc 2 (a + b), pow-suc 2 b, two_pow-add a b) (omega arith)

-- Setting every bit from `k` up to `n`, above a number of `k` bits.
pub bit_or_high : (k n a : ℕ) → a < 2 ^ k → k ≤ n → bit_or a (2 ^ n - 2 ^ k) ≡ a + (2 ^ n - 2 ^ k)
bit_or_high zero n zero small h = omega (arith, bit_or-bitwise 0 (2 ^ n - 1))
bit_or_high zero n (suc a) small h = absurd (omega arith)
bit_or_high (suc k) zero a small h = absurd (omega arith)
bit_or_high (suc k) (suc n) a small h =
    let e : 2 ^ suc n ≡ 2 * 2 ^ n = omega (arith, pow-suc 2 n) in
    let e' : 2 ^ suc k ≡ 2 * 2 ^ k = omega (arith, pow-suc 2 k) in
    let half : (2 ^ suc n - 2 ^ suc k) / 2 ≡ 2 ^ n - 2 ^ k = omega arith in
    omega (
      arith,
      or_last_digit a (2 ^ suc n - 2 ^ suc k),
      ap (bit_or (a / 2)) half,
      bit_or_high k n (a / 2) (omega arith) (omega arith),
    )

mod_double : (a p : ℕ) → 0 < p → a % (2 * p) ≡ a / 2 % p * 2 + a % 2
mod_double a p some =
    let s = a / 2 % p in
    let bound : s < p = mod-lt (a / 2) some in
    let split : a ≡ s * 2 + a % 2 + a / 2 / p * (2 * p) = omega (arith, div-add-mod (a / 2) p) in
    ap (λ (t : ℕ). t % (2 * p)) split
    ∙ add-mul-mod_self_right (s * 2 + a % 2) (a / 2 / p) (2 * p)
    ∙ mod-eq_of_lt (omega arith)

-- A mask of `n` low bits is the remainder by `2 ^ n`.
pub bit_and_mask : (n a : ℕ) → bit_and a (2 ^ n - 1) ≡ a % 2 ^ n
bit_and_mask zero a = bit_and-zero a a (le_refl a) ∙ omega arith
bit_and_mask (suc n) a =
    let e : 2 ^ suc n ≡ 2 * 2 ^ n = omega (arith, pow-suc 2 n) in
    let half : (2 ^ suc n - 1) / 2 ≡ 2 ^ n - 1 = omega arith in
    omega (
      arith,
      one-le-pow n 2,
      and_last_digit a (2 ^ suc n - 1),
      ap (bit_and (a / 2)) half,
      bit_and_mask n (a / 2),
      mod_double a (2 ^ n) (one-le-pow n 2 (omega arith)),
      ap (λ (t : ℕ). a % t) e,
    )
