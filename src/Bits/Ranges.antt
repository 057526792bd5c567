-- ===== src/Bits/Ranges.antt =====
-- `getbitu` and `setbitu` over a range of bits: what the loops compute, and their round trip.
use native.Mathlib.Nat.{
  le_refl, pow-le-pow_right, mul-le-mul_right, pow-suc, one-le-pow, div-add-mod, div-div-eq-div-mul,
}
use go_ntrip.Base.{
  ℕ, zero, suc, ◌+◌, ◌-◌, ◌*◌, ◌/◌, ◌%◌, ◌^◌, ◌≤◌, ◌<◌, bit_and, ◌≡◌, refl, ◌∙◌, ap, ap₂, sym, List,
  length, ltb, ◌==◌, arith, Bool-cases, inl, inr, bit_and-two_pow, two_pow-add, ◌⊎◌,
}
use go_ntrip.Bits.{byte_at, write_bit, write_loop, read_loop, getbitu, setbitu}
use go_ntrip.Bits.Cell.{
  bit_at, IsBytes, digit, length-write_bit, write_bit-IsBytes, bit_at-write_bit,
}

pow_half : (l : ℕ) → 2 ^ suc l / 2 ≡ 2 ^ l
pow_half l = omega (arith, pow-suc 2 l)

masked : (word l : ℕ) → digit (ltb 0 (bit_and word (2 ^ l))) ≡ word / 2 ^ l % 2
masked word l = grind (arith, bit_and-two_pow l word, one-le-pow l 2)

-- The number whose binary digits, most significant first, are `f i` to `f (i + n - 1)`.
abbrev pub number : (ℕ → ℕ) → ℕ → ℕ → ℕ
number f i zero = 0
number f i (suc n) = f i * 2 ^ n + number f (i + 1) n

split_mod : (w n : ℕ) → w % 2 ^ suc n ≡ w / 2 ^ n % 2 * 2 ^ n + w % 2 ^ n
split_mod w n =
    let p = 2 ^ n in
    let q = w / p in
    let halves : q ≡ 2 * (q / 2) + q % 2 = omega arith in
    let e : 2 ^ suc n ≡ p * 2 = pow-suc 2 n in
    rw e (
      omega (
        arith,
        ap (λ (t : ℕ). t * p) halves,
        div-add-mod w p,
        div-add-mod w (p * 2),
        ap (λ (t : ℕ). t * (p * 2)) (div-div-eq-div-mul w p 2),
      ))

pub record Written (buff : List ℕ) (i n word : ℕ) (out : List ℕ) : Type 0 where
  pub same_length : length out ≡ length buff
  pub bytes : IsBytes out
  pub inside : (j : ℕ) → i ≤ j → j < i + n → bit_at out j ≡ word / 2 ^ (i + n - 1 - j) % 2
  pub outside : (j : ℕ) → (j < i) ⊎ (i + n ≤ j) → bit_at out j ≡ bit_at buff j

module _ (buff : List ℕ) (bytes : IsBytes buff) (i word : ℕ) where
  Written-nil : Written buff i 0 word buff
  Written-nil = record {
    same_length = refl;
    bytes = bytes;
    inside = λ j p q. absurd (omega arith);
    outside = λ j p. refl;
  }

module _ (buff : List ℕ) (bytes : IsBytes buff) (i n word : ℕ) (fits : i < 8 * length buff) where
  abbrev first : List ℕ
  first = write_bit buff i (ltb 0 (bit_and word (2 ^ n)))

  Written-step : {out : List ℕ} → Written first (i + 1) n word out → Written buff i (suc n) word out
  Written-step w = record {
    same_length = w.same_length ∙ length-write_bit buff bytes i _;
    bytes = w.bytes;
    inside = λ j p q. elim (Bool-cases (i == j)) [
      | inl h ↦
          let e : i + suc n - 1 - j ≡ n = ground arith in
          rw (w.outside j (inl (ground arith)), bit_at-write_bit buff bytes i _ j fits, h, e)
            (masked word n)
      | inr h ↦
          let e : i + 1 + n - 1 - j ≡ i + suc n - 1 - j = omega arith in
          w.inside j (ground arith) (omega arith) ∙ ap (λ t. word / 2 ^ t % 2) e
    ];
    outside = λ j p.
        ground
          (arith, w.outside j, bit_at-write_bit buff bytes i (ltb 0 (bit_and word (2 ^ n))) j fits);
  }

write_loop-Written :
    (n i word : ℕ) (buff : List ℕ)
    → IsBytes buff
    → i + suc n ≤ 8 * length buff
    → Written buff i (suc n) word (write_loop buff (suc n) i (2 ^ n) word)
unfolding write_loop
write_loop-Written zero i word buff bytes fits =
    Written-step buff bytes i 0 word (omega arith)
      (Written-nil _ (write_bit-IsBytes buff bytes i _ (omega arith)) (i + 1) word)
write_loop-Written (suc n) i word buff bytes fits = rw (pow_half n) (
    Written-step buff bytes i (suc n) word (omega arith) (
      write_loop-Written n (i + 1) word _ (write_bit-IsBytes buff bytes i _ (omega arith))
        (rw length-write_bit (omega arith))))

setbitu-suc :
    (buff : List ℕ) (pos n word : ℕ)
    → suc n ≤ 32
    → setbitu buff pos (suc n) word ≡ write_loop buff (suc n) pos (2 ^ n) word
unfolding setbitu
setbitu-suc buff pos n word small = ground arith

-- On 1 to 32 bits inside a buffer of bytes setbitu makes the bits of the range the low bits of the
-- word, the most significant first, and changes neither any other bit nor the length.
pub setbitu-Written :
    (buff : List ℕ) (pos len word : ℕ)
    → IsBytes buff
    → 0 < len
    → len ≤ 32
    → pos + len ≤ 8 * length buff
    → Written buff pos len word (setbitu buff pos len word)
setbitu-Written buff pos zero word bytes some_bits small fits = elim some_bits [ ]
setbitu-Written buff pos (suc n) word bytes some_bits small fits =
    rw (setbitu-suc buff pos n word small) (write_loop-Written n pos word buff bytes fits)

next_bits :
    (buff : List ℕ) (i bits : ℕ)
    → bits * 2 + 2 ≤ 2 ^ 32
    → (bits * 2 % 2 ^ 32 + bit_and (byte_at buff (i / 8) / 2 ^ (7 - i % 8)) 1) % 2 ^ 32
      ≡ bits * 2 + bit_at buff i
next_bits buff i bits h = omega (arith, bit_and-two_pow 0 (byte_at buff (i / 8) / 2 ^ (7 - i % 8)))

read_loop-number :
    (n i : ℕ) (buff : List ℕ) (bits : ℕ)
    → (bits + 1) * 2 ^ n ≤ 2 ^ 32
    → read_loop buff n i bits ≡ bits * 2 ^ n + number (bit_at buff) i n
unfolding read_loop
read_loop-number zero i buff bits h = omega arith
read_loop-number (suc n) i buff bits h = rw (next_bits buff i bits room) (
    read_loop-number n (i + 1) buff (bits * 2 + bit_at buff i) left_fits
    ∙ omega (arith, ap (λ (t : ℕ). bits * t) (pow-suc 2 n)))
  where
    room : bits * 2 + 2 ≤ 2 ^ 32
    room = grind (arith, pow-suc 2 n, one-le-pow n 2)

    left_fits : (bits * 2 + bit_at buff i + 1) * 2 ^ n ≤ 2 ^ 32
    left_fits =
        let step : bits * 2 + bit_at buff i + 1 ≤ bits * 2 + 2 = omega arith in
        omega (arith, mul-le-mul_right (2 ^ n) step, ap (λ (t : ℕ). (bits + 1) * t) (pow-suc 2 n))

two_pow_mono : (a b : ℕ) → a ≤ b → 2 ^ a ≤ 2 ^ b
two_pow_mono a b h = pow-le-pow_right (omega arith) h

pub getbitu-number :
    (buff : List ℕ) (pos len : ℕ) → len ≤ 32 → getbitu buff pos len ≡ number (bit_at buff) pos len
unfolding getbitu
getbitu-number buff pos len h =
    read_loop-number len pos buff 0 (omega (arith, two_pow_mono len 32 h)) ∙ omega arith

pub number_of :
    (f : ℕ → ℕ) (word n i : ℕ)
    → ((j : ℕ) → i ≤ j → j < i + n → f j ≡ word / 2 ^ (i + n - 1 - j) % 2)
    → number f i n ≡ word % 2 ^ n
number_of f word zero i h = omega arith
number_of f word (suc n) i h = rw (split_mod word n) (
    ap₂ (λ a b. a * 2 ^ n + b)
      (h i (le_refl i) (omega arith) ∙ ap (λ t. word / 2 ^ t % 2) (omega arith))
      (number_of f word n (i + 1)
        λ j p q. h j (omega arith) (omega arith) ∙ ap (λ t. word / 2 ^ t % 2) (omega arith)))

-- A range in two parts.
pub number_append :
    (f : ℕ → ℕ) (m n i : ℕ) → number f i (m + n) ≡ number f i m * 2 ^ n + number f (i + m) n
number_append f zero n i =
    let start : i ≡ i + 0 = omega arith in
    let rounds : 0 + n ≡ n = omega arith in ap₂ (number f) start rounds ∙ omega arith
number_append f (suc m) n i =
    ap (number f i) {x = suc m + n} {y = suc (m + n)} (omega arith)
    ∙ omega (
      arith,
      number_append f m n (i + 1),
      ap (λ (t : ℕ). f i * t) (two_pow-add m n),
      ap (λ (t : ℕ). number f t n) {x = i + 1 + m} {y = i + suc m} (omega arith),
    )

pub number_ext :
    (f g : ℕ → ℕ) (n i : ℕ)
    → ((j : ℕ) → i ≤ j → j < i + n → f j ≡ g j)
    → number f i n ≡ number g i n
number_ext f g zero i h = refl
number_ext f g (suc n) i h =
    ap₂ (λ a b. a * 2 ^ n + b) (h i (le_refl i) (omega arith))
      (number_ext f g n (i + 1) λ j p q. h j (omega arith) (omega arith))

module _ (buff : List ℕ) (pos len word : ℕ) (bytes : IsBytes buff) (some_bits : 0 < len)
    (small : len ≤ 32) (fits : pos + len ≤ 8 * length buff) where
  abbrev written : Written buff pos len word (setbitu buff pos len word)
  written = setbitu-Written buff pos len word bytes some_bits small fits

  -- Reading back the range that was written gives the low `len` bits of the word.
  pub getbitu-setbitu : getbitu (setbitu buff pos len word) pos len ≡ word % 2 ^ len
  getbitu-setbitu = getbitu-number _ pos len small ∙ number_of _ word len pos written.inside

  -- A range that does not meet the written one reads as before.
  pub getbitu-setbitu_apart :
      (q n : ℕ)
      → n ≤ 32
      → (q + n ≤ pos) ⊎ (pos + len ≤ q)
      → getbitu (setbitu buff pos len word) q n ≡ getbitu buff q n
  getbitu-setbitu_apart q n narrow apart =
      getbitu-number _ q n narrow
      ∙ number_ext _ _ n q (λ j a b. written.outside j (omega arith))
      ∙ sym (getbitu-number buff q n narrow)
