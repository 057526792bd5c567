-- ===== src/Base/Xor.antt =====
-- Laws of the exclusive or of two numbers, digit by digit.
use Prim.Native.Nat.{ℕ, zero, suc, ◌+◌, ◌*◌, ◌/◌, ◌%◌, ◌^◌, ◌≤◌, ◌<◌, bit_xor}
use mathlib.Core.Path.{◌≡◌, refl, sym, ap, ap₂, ◌∙◌}
use native.Mathlib.Nat.{le_refl, pow-suc, div-div-eq-div-mul}
use native.Mathlib.Omega.{arith}
use go_ntrip.Base.Binary.{xor_last_digit}

pub xor-half : (a b : ℕ) → bit_xor a b / 2 ≡ bit_xor (a / 2) (b / 2)
xor-half a b = omega (arith, xor_last_digit a b)

pub xor-digit : (a b : ℕ) → bit_xor a b % 2 ≡ (a + b) % 2
xor-digit a b = omega (arith, xor_last_digit a b)

xor_comm_fuel : (k a b : ℕ) → a + b ≤ k → bit_xor a b ≡ bit_xor b a
xor_comm_fuel k zero zero h = refl
xor_comm_fuel zero (suc a) b h = absurd (omega arith)
xor_comm_fuel zero zero (suc b) h = absurd (omega arith)
xor_comm_fuel (suc k) zero (suc b) h = omega (
  arith,
  xor_last_digit 0 (suc b),
  xor_last_digit (suc b) 0,
  xor_comm_fuel k (0 / 2) (suc b / 2) (omega arith),
)
xor_comm_fuel (suc k) (suc a) b h = omega (
  arith,
  xor_last_digit (suc a) b,
  xor_last_digit b (suc a),
  xor_comm_fuel k (suc a / 2) (b / 2) (omega arith),
)

pub xor_comm : (a b : ℕ) → bit_xor a b ≡ bit_xor b a
xor_comm a b = xor_comm_fuel (a + b) a b (le_refl _)

-- One step of the fuelled proofs about three numbers, not all of them 0.
xor_assoc_step :
    (a b c : ℕ)
    → bit_xor (bit_xor (a / 2) (b / 2)) (c / 2) ≡ bit_xor (a / 2) (bit_xor (b / 2) (c / 2))
    → bit_xor (bit_xor a b) c ≡ bit_xor a (bit_xor b c)
xor_assoc_step a b c h = omega (
  arith,
  xor_last_digit (bit_xor a b) c,
  xor_last_digit a (bit_xor b c),
  xor-digit a b,
  xor-digit b c,
  ap (λ t. bit_xor t (c / 2)) (xor-half a b),
  ap (bit_xor (a / 2)) (xor-half b c),
  h,
)

xor_assoc_fuel : (k a b c : ℕ) → a + b + c ≤ k → bit_xor (bit_xor a b) c ≡ bit_xor a (bit_xor b c)
xor_assoc_fuel k zero zero zero h = refl
xor_assoc_fuel zero (suc a) b c h = absurd (omega arith)
xor_assoc_fuel zero zero (suc b) c h = absurd (omega arith)
xor_assoc_fuel zero zero zero (suc c) h = absurd (omega arith)
xor_assoc_fuel (suc k) zero zero (suc c) h =
    xor_assoc_step zero zero (suc c) (xor_assoc_fuel k (0 / 2) (0 / 2) (suc c / 2) (omega arith))
xor_assoc_fuel (suc k) zero (suc b) c h =
    xor_assoc_step zero (suc b) c (xor_assoc_fuel k (0 / 2) (suc b / 2) (c / 2) (omega arith))
xor_assoc_fuel (suc k) (suc a) b c h =
    xor_assoc_step (suc a) b c (xor_assoc_fuel k (suc a / 2) (b / 2) (c / 2) (omega arith))

pub xor_assoc : (a b c : ℕ) → bit_xor (bit_xor a b) c ≡ bit_xor a (bit_xor b c)
xor_assoc a b c = xor_assoc_fuel (a + b + c) a b c (le_refl _)

xor_self_fuel : (k a : ℕ) → a ≤ k → bit_xor a a ≡ 0
xor_self_fuel k zero h = refl
xor_self_fuel zero (suc a) h = absurd (omega arith)
xor_self_fuel (suc k) (suc a) h =
    omega (arith, xor_last_digit (suc a) (suc a), xor_self_fuel k (suc a / 2) (omega arith))

pub xor_self : (a : ℕ) → bit_xor a a ≡ 0
xor_self a = xor_self_fuel a a (le_refl a)

zero-xor_fuel : (k a : ℕ) → a ≤ k → bit_xor 0 a ≡ a
zero-xor_fuel k zero h = refl
zero-xor_fuel zero (suc a) h = absurd (omega arith)
zero-xor_fuel (suc k) (suc a) h =
    omega (arith, xor_last_digit 0 (suc a), zero-xor_fuel k (suc a / 2) (omega arith))

pub zero-xor : (a : ℕ) → bit_xor 0 a ≡ a
zero-xor a = zero-xor_fuel a a (le_refl a)

pub xor-zero : (a : ℕ) → bit_xor a 0 ≡ a
xor-zero a = xor_comm a 0 ∙ zero-xor a

pub xor_cancel : (a b : ℕ) → bit_xor (bit_xor a b) b ≡ a
xor_cancel a b = xor_assoc a b b ∙ ap (bit_xor a) (xor_self b) ∙ xor-zero a

pub xor-injective : (a b c : ℕ) → bit_xor a c ≡ bit_xor b c → a ≡ b
xor-injective a b c h = sym (xor_cancel a c) ∙ ap (λ t. bit_xor t c) h ∙ xor_cancel b c

-- Four terms exchanged in the middle.
pub xor_exchange :
    (a b c d : ℕ) → bit_xor (bit_xor a b) (bit_xor c d) ≡ bit_xor (bit_xor a c) (bit_xor b d)
xor_exchange a b c d =
    xor_assoc a b (bit_xor c d)
    ∙ ap (bit_xor a)
        (sym (xor_assoc b c d) ∙ ap (λ t. bit_xor t d) (xor_comm b c) ∙ xor_assoc c b d)
    ∙ sym (xor_assoc a c (bit_xor b d))

pub xor-double : (a b : ℕ) → bit_xor (a * 2) (b * 2) ≡ bit_xor a b * 2
xor-double a b =
    let p : a * 2 / 2 ≡ a = omega arith in
    let q : b * 2 / 2 ≡ b = omega arith in
    omega (arith, xor_last_digit (a * 2) (b * 2), ap₂ bit_xor p q)

pub xor-shift : (k a b : ℕ) → bit_xor (a * 2 ^ k) (b * 2 ^ k) ≡ bit_xor a b * 2 ^ k
xor-shift zero a b =
    let p : a * 1 ≡ a = omega arith in
    let q : b * 1 ≡ b = omega arith in omega (arith, ap₂ bit_xor p q)
xor-shift (suc k) a b =
    let p : a * 2 ^ suc k ≡ a * 2 ^ k * 2 = omega (arith, ap (λ (t : ℕ). a * t) (pow-suc 2 k)) in
    let q : b * 2 ^ suc k ≡ b * 2 ^ k * 2 = omega (arith, ap (λ (t : ℕ). b * t) (pow-suc 2 k)) in
    ap₂ bit_xor p q
    ∙ xor-double _ _
    ∙ omega (arith, xor-shift k a b, ap (λ (t : ℕ). bit_xor a b * t) (pow-suc 2 k))

pub xor-div : (k a b : ℕ) → bit_xor a b / 2 ^ k ≡ bit_xor (a / 2 ^ k) (b / 2 ^ k)
xor-div zero a b =
    let p : a / 1 ≡ a = omega arith in
    let q : b / 1 ≡ b = omega arith in omega (arith, ap₂ bit_xor p q)
xor-div (suc k) a b =
    let halve : (t : ℕ) → t / 2 ^ suc k ≡ t / 2 / 2 ^ k = λ t.
      ap (λ (s : ℕ). t / s) (pow-suc 2 k ∙ omega arith) ∙ sym (div-div-eq-div-mul t 2 (2 ^ k)) in
    halve (bit_xor a b)
    ∙ ap (λ (t : ℕ). t / 2 ^ k) (xor-half a b)
    ∙ xor-div k (a / 2) (b / 2)
    ∙ ap₂ bit_xor (sym (halve a)) (sym (halve b))

pub xor-lt : (k a b : ℕ) → a < 2 ^ k → b < 2 ^ k → bit_xor a b < 2 ^ k
xor-lt zero zero zero h l = omega arith
xor-lt zero (suc a) b h l = absurd (omega arith)
xor-lt zero zero (suc b) h l = absurd (omega arith)
xor-lt (suc k) a b h l = omega (
  arith,
  xor_last_digit a b,
  pow-suc 2 k,
  xor-lt k (a / 2) (b / 2) (omega (arith, pow-suc 2 k)) (omega (arith, pow-suc 2 k)),
)

-- Disjoint digits: the exclusive or is the sum.
pub xor_fields : (k q r : ℕ) → r < 2 ^ k → bit_xor (q * 2 ^ k) r ≡ q * 2 ^ k + r
xor_fields zero q zero h = xor-zero (q * 1) ∙ omega arith
xor_fields zero q (suc r) h = absurd (omega arith)
xor_fields (suc k) q r h =
    let e : q * 2 ^ suc k ≡ q * 2 ^ k * 2 = omega (arith, ap (λ (t : ℕ). q * t) (pow-suc 2 k)) in
    let half : q * 2 ^ suc k / 2 ≡ q * 2 ^ k = omega arith in
    omega (
      arith,
      xor_last_digit (q * 2 ^ suc k) r,
      ap (λ t. bit_xor t (r / 2)) half,
      xor_fields k q (r / 2) (omega (arith, pow-suc 2 k)),
    )
