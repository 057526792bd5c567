-- ===== src/Base/Binary.antt =====
-- Laws of the native bit operations at variables, from the recursion on binary digits.
use Prim.Native.Nat.{
  ℕ, zero, suc, ◌+◌, ◌*◌, ◌/◌, ◌%◌, ◌^◌, ◌≤◌, ◌<◌, min, max, bit_and, bit_or, bit_xor, digits,
  bitwise, bit_and-bitwise, bit_or-bitwise, bit_xor-bitwise, differ,
}
use mathlib.Core.Path.{◌≡◌, refl, sym, ap, ap₂, ◌∙◌}
use native.Mathlib.Nat.{le_refl, pow-suc, div-div-eq-div-mul}
use native.Mathlib.Omega.{arith}

-- What the native operations stand for, with `z` and `f` for the case of no digits and for one
-- digit of each number. The count of digits to go is dropped here.
module _ (z : ℕ → ℕ) (f : ℕ → ℕ → ℕ) where
  run_out : (count b : ℕ) → digits z f count zero b ≡ z b
  run_out zero b = refl
  run_out (suc count) b = refl

  count_irrelevant :
      (least more a b : ℕ) → a ≤ least → least ≤ more → digits z f more a b ≡ digits z f least a b
  count_irrelevant least more zero b p q = run_out more b ∙ sym (run_out least b)
  count_irrelevant zero more (suc a) b p q = absurd (omega arith)
  count_irrelevant (suc least) zero (suc a) b p q = absurd (omega arith)
  count_irrelevant (suc least) (suc more) (suc a) b p q =
      ap (λ t. t * 2 + f (suc a % 2) (b % 2))
        (count_irrelevant least more (suc a / 2) (b / 2) (omega arith) (omega arith))

  -- The lowest digit split off; at 0 that is a law of `z`.
  bitwise_step :
      (a b : ℕ)
      → z b ≡ f 0 (b % 2) + 2 * z (b / 2)
      → bitwise z f a b ≡ f (a % 2) (b % 2) + 2 * bitwise z f (a / 2) (b / 2)
  bitwise_step zero b law = law
  bitwise_step (suc a) b law = omega (
    arith,
    count_irrelevant (suc a / 2) a (suc a / 2) (b / 2) (le_refl (suc a / 2)) (omega arith),
  )

pub and_last_digit : (a b : ℕ) → bit_and a b ≡ min (a % 2) (b % 2) + 2 * bit_and (a / 2) (b / 2)
and_last_digit a b =
    bit_and-bitwise a b
    ∙ bitwise_step (λ y. 0) min a b (omega arith)
    ∙ ap (λ t. min (a % 2) (b % 2) + 2 * t) (sym (bit_and-bitwise (a / 2) (b / 2)))

pub or_last_digit : (a b : ℕ) → bit_or a b ≡ max (a % 2) (b % 2) + 2 * bit_or (a / 2) (b / 2)
or_last_digit a b =
    bit_or-bitwise a b
    ∙ bitwise_step (λ y. y) max a b (omega arith)
    ∙ ap (λ t. max (a % 2) (b % 2) + 2 * t) (sym (bit_or-bitwise (a / 2) (b / 2)))

differ_bits : (x y : ℕ) → x < 2 → y < 2 → differ x y ≡ (x + y) % 2
differ_bits zero y p q = omega arith
differ_bits (suc zero) zero p q = refl
differ_bits (suc zero) (suc zero) p q = refl
differ_bits (suc zero) (suc (suc y)) p q = absurd (omega arith)
differ_bits (suc (suc x)) y p q = absurd (omega arith)

differ-mod : (a b : ℕ) → differ (a % 2) (b % 2) ≡ (a + b) % 2
differ-mod a b = omega (arith, differ_bits (a % 2) (b % 2) (omega arith) (omega arith))

pub xor_last_digit : (a b : ℕ) → bit_xor a b ≡ (a + b) % 2 + 2 * bit_xor (a / 2) (b / 2)
xor_last_digit a b =
    bit_xor-bitwise a b
    ∙ bitwise_step (λ y. y) differ a b (zero_case b)
    ∙ ap₂ (λ t d. d + 2 * t) (sym (bit_xor-bitwise (a / 2) (b / 2))) (differ-mod a b)
  where
    zero_case : (b : ℕ) → b ≡ differ 0 (b % 2) + 2 * (b / 2)
    zero_case b = omega arith

pub zero-bit_and : (b : ℕ) → bit_and 0 b ≡ 0
zero-bit_and b = bit_and-bitwise 0 b

pub bit_and-zero : (k a : ℕ) → a ≤ k → bit_and a 0 ≡ 0
bit_and-zero k zero h = zero-bit_and 0
bit_and-zero zero (suc a) h = absurd (omega arith)
bit_and-zero (suc k) (suc a) h =
    omega (arith, and_last_digit (suc a) 0, bit_and-zero k (suc a / 2) (omega arith))

pub bit_and-double : (a p : ℕ) → bit_and a (2 * p) ≡ bit_and (a / 2) p * 2
bit_and-double a p =
    let e : 2 * p / 2 ≡ p = omega arith in
    omega (arith, and_last_digit a (2 * p), ap (bit_and (a / 2)) e)

-- A test of one bit, as `data & mask` makes it.
-- A test of one bit, as `data & mask` makes it.
pub bit_and-two_pow : (k a : ℕ) → bit_and a (2 ^ k) ≡ a / 2 ^ k % 2 * 2 ^ k
bit_and-two_pow zero a = omega (arith, and_last_digit a 1, bit_and-zero (a / 2) (a / 2) (le_refl _))
bit_and-two_pow (suc k) a =
    let e : 2 ^ suc k ≡ 2 * 2 ^ k = omega (arith, pow-suc 2 k) in
    rw (e, ← div-div-eq-div-mul a 2 (2 ^ k))
      (omega (arith, bit_and-double a (2 ^ k), bit_and-two_pow k (a / 2)))
