-- ===== src/Bits/Signed.antt =====
-- `getbits` after `setbits`: the sign of an `int` carried through the top bit of a field.
use native.Mathlib.Nat.{
  suc-mul, one-le-pow, pow-suc, pow-le-pow_right, mod-eq_of_lt, add-mul-mod_self_right,
  add-mul-div_right, div-eq_of_lt,
}
use go_ntrip.Base.{
  ℕ, zero, suc, ◌+◌, ◌-◌, ◌*◌, ◌/◌, ◌%◌, ◌^◌, ◌≤◌, ◌<◌, bit_and, bit_or, ◌≡◌, refl, sym, ◌∙◌, ap,
  List, length, ltb, ◌==◌, ◌||◌, if◌then◌else◌, arith, ◌⊎◌, inl, inr, Bool-cases, bit_and-two_pow,
  bit_or-two_pow, bit_and_clear, bit_or_high, two_pow-add, lt→ltb, le→ltb,
}
use go_ntrip.Bits.{getbitu, getbits, setbitu, setbits}
use go_ntrip.Bits.Cell.{IsBytes}
use go_ntrip.Bits.Ranges.{getbitu-setbitu}

-- The 32-bit pattern of an integer from -2 ^ n to 2 ^ n - 1.
abbrev pub FitsSigned : ℕ → ℕ → Type 0
FitsSigned n word = (word < 2 ^ n) ⊎ ((2 ^ 32 - 2 ^ n ≤ word) × (word < 2 ^ 32))

-- What `setbits` hands to `setbitu`, for a field of `suc n` bits.
abbrev pub signed_field : ℕ → ℕ → ℕ
signed_field n word =
    if ltb word (2 ^ 31) then bit_and word (2 ^ 32 - 1 - 2 ^ n) else bit_or word (2 ^ n)

-- What `getbits` makes of the bits of a field of `suc n` bits.
abbrev extended : ℕ → ℕ → ℕ
extended n bits =
    if suc n == 0 || ltb 31 (suc n) || bit_and bits (2 ^ n) == 0
    then bits
    else bit_or bits (2 ^ 32 - 2 ^ suc n)

extended_high :
    (n bits : ℕ)
    → n < 31
    → 0 < bit_and bits (2 ^ n)
    → extended n bits ≡ bit_or bits (2 ^ 32 - 2 ^ suc n)
extended_high n bits h set = ground arith

extended_wide : (n bits : ℕ) → 31 ≤ n → extended n bits ≡ bits
extended_wide n bits h = ground arith

small_quotient : (w p : ℕ) → w < p → w / p ≡ 0
small_quotient w p h = grind arith

-- With `total` an even multiple of `p`, a word in its last part of length `p`.
split_word :
    (p m w total : ℕ)
    → total ≡ m * (p * 2)
    → 1 ≤ m
    → total - p ≤ w
    → w < total
    → w ≡ p + (w - (total - p)) + (m - 1) * (p * 2)
split_word p zero w total e some low high = absurd (omega arith)
split_word p (suc m) w total e some low high =
    let d : suc m - 1 ≡ m = omega arith in
    omega (arith, suc-mul m (p * 2), ap (λ (t : ℕ). t * (p * 2)) d)

module _ (n word : ℕ) (small : n < 32) where
  two_pow-le : 2 ^ n ≤ 2 ^ 31
  two_pow-le = pow-le-pow_right (omega arith) {i = n} {j = 31} (omega arith)

  two_pow_split : 2 ^ 32 ≡ 2 ^ (31 - n) * (2 ^ n * 2)
  two_pow_split =
      ap (λ (t : ℕ). 2 ^ t) {x = 32} {y = 31 - n + suc n} (omega arith)
      ∙ two_pow-add (31 - n) (suc n)
      ∙ ap (λ (t : ℕ). 2 ^ (31 - n) * t) (pow-suc 2 n)

  field_pos : word < 2 ^ n → signed_field n word % 2 ^ suc n ≡ word
  field_pos h =
      let q : word / 2 ^ n ≡ 0 = small_quotient word (2 ^ n) h in
      let cleared : bit_and word (2 ^ 32 - 1 - 2 ^ n) ≡ word =
        bit_and_clear 32 n word small (omega (arith, two_pow-le)) ∙ rw q (omega arith) in
      rw (lt→ltb word (2 ^ 31) (omega (arith, two_pow-le)), cleared)
        (mod-eq_of_lt (omega (arith, pow-suc 2 n)))

  extended_pos : word < 2 ^ n → extended n word ≡ word
  extended_pos h =
      let q : word / 2 ^ n ≡ 0 = small_quotient word (2 ^ n) h in
      let clear : bit_and word (2 ^ n) ≡ 0 = bit_and-two_pow n word ∙ rw q (omega arith) in
      rw clear (ground arith)

  module _ (low : 2 ^ 32 - 2 ^ n ≤ word) (high : word < 2 ^ 32) where
    -- The part of the word below the field's sign bit.
    abbrev rest : ℕ
    rest = word - (2 ^ 32 - 2 ^ n)

    abbrev pairs : ℕ
    pairs = 2 ^ (31 - n)

    -- The word is an odd multiple of `2 ^ n` and the rest.
    word_split : word ≡ 2 ^ n + rest + (pairs - 1) * (2 ^ n * 2)
    word_split =
        split_word (2 ^ n) pairs word (2 ^ 32) two_pow_split (one-le-pow (31 - n) 2 (omega arith))
          low high

    rest-lt : rest < 2 ^ n
    rest-lt = omega (arith, two_pow-le)

    field_mod : word % 2 ^ suc n ≡ 2 ^ n + rest
    field_mod = rw (pow-suc 2 n) (
        ap (λ (t : ℕ). t % (2 ^ n * 2)) word_split
        ∙ add-mul-mod_self_right (2 ^ n + rest) (pairs - 1) (2 ^ n * 2)
        ∙ mod-eq_of_lt (omega (arith, rest-lt)))

    quotient : word / 2 ^ n ≡ 1 + (pairs - 1) * 2
    quotient =
        ap (λ (t : ℕ). t / 2 ^ n) (word_split ∙ omega arith)
        ∙ add-mul-div_right rest (1 + (pairs - 1) * 2) {z = 2 ^ n} (one-le-pow n 2 (omega arith))
        ∙ omega (arith, div-eq_of_lt rest-lt)

    word_odd : word / 2 ^ n % 2 ≡ 1
    word_odd = omega (arith, quotient)

    field_neg : signed_field n word % 2 ^ suc n ≡ 2 ^ n + rest
    field_neg =
        let kept : bit_or word (2 ^ n) ≡ word = bit_or-two_pow n word ∙ rw word_odd (omega arith) in
        rw (le→ltb word (2 ^ 31) (omega (arith, two_pow-le)), kept) field_mod

    sign_bit : bit_and (2 ^ n + rest) (2 ^ n) ≡ 2 ^ n
    sign_bit =
        let q : (rest + 1 * 2 ^ n) / 2 ^ n ≡ 1 =
          add-mul-div_right rest 1 {z = 2 ^ n} (one-le-pow n 2 (omega arith))
          ∙ omega (arith, div-eq_of_lt rest-lt) in
        let q' : (2 ^ n + rest) / 2 ^ n ≡ 1 = ap (λ (t : ℕ). t / 2 ^ n) (omega arith) ∙ q in
        bit_and-two_pow n (2 ^ n + rest) ∙ rw q' (omega arith)

    suc_two_pow-le : 2 ^ suc n ≤ 2 ^ 32
    suc_two_pow-le = pow-le-pow_right (omega arith) {i = suc n} {j = 32} small

    extended_neg : extended n (2 ^ n + rest) ≡ word
    extended_neg = elim (Bool-cases (ltb n 31)) [
      | inl h ↦
          extended_high n (2 ^ n + rest) (ground arith) (omega (arith, sign_bit, one-le-pow n 2))
          ∙ bit_or_high (suc n) 32 (2 ^ n + rest) (omega (arith, rest-lt, pow-suc 2 n))
              (ground arith)
          ∙ omega (arith, pow-suc 2 n, two_pow_split, suc_two_pow-le)
      | inr h ↦
          let e : n ≡ 31 = ground arith in
          extended_wide n (2 ^ n + rest) (omega arith) ∙ omega (arith, ap (λ (t : ℕ). 2 ^ t) e)
    ]

module _ (buff : List ℕ) (pos n word : ℕ) (bytes : IsBytes buff) (small : n < 32)
    (fits : pos + suc n ≤ 8 * length buff) where
  setbits-suc : setbits buff pos (suc n) word ≡ setbitu buff pos (suc n) (signed_field n word)
  unfolding setbits
  setbits-suc = ap (λ t. setbitu buff pos (suc n) (signed_field t word)) (omega arith)

  field_read : getbitu (setbits buff pos (suc n) word) pos (suc n) ≡ signed_field n word % 2 ^ suc n
  field_read = rw setbits-suc (getbitu-setbitu buff pos (suc n) _ bytes (omega arith) small fits)

  getbits-suc : (out : List ℕ) → getbits out pos (suc n) ≡ extended n (getbitu out pos (suc n))
  unfolding getbits
  getbits-suc out = let pred : suc n - 1 ≡ n = omega arith in rw (pred, getbits) refl

  -- A signed integer that fits a field of 1 to 32 bits, written by setbits into a buffer of bytes
  -- with room, is read back by getbits, sign included.
  pub getbits-setbits :
      FitsSigned n word → getbits (setbits buff pos (suc n) word) pos (suc n) ≡ word
  getbits-setbits (inl h) =
      getbits-suc _
      ∙ ap (extended n) (field_read ∙ field_pos n word small h)
      ∙ extended_pos n word small h
  getbits-setbits (inr h) =
      getbits-suc _
      ∙ ap (extended n) (field_read ∙ field_neg n word small h.0 h.1)
      ∙ extended_neg n word small h.0 h.1

-- A field with the bits of a signed integer is read as that integer.
pub getbits-signed_field :
    (out : List ℕ) (pos n word : ℕ)
    → n < 32
    → FitsSigned n word
    → getbitu out pos (suc n) ≡ signed_field n word % 2 ^ suc n
    → getbits out pos (suc n) ≡ word
unfolding getbits
getbits-signed_field out pos n word small (inl h) e =
    let pred : suc n - 1 ≡ n = omega arith in
    rw pred (ap (extended n) (e ∙ field_pos n word small h) ∙ extended_pos n word small h)
getbits-signed_field out pos n word small (inr h) e =
    let pred : suc n - 1 ≡ n = omega arith in
    rw pred
      (ap (extended n) (e ∙ field_neg n word small h.0 h.1) ∙ extended_neg n word small h.0 h.1)

-- A signed integer that fits has, in a field, the bits that `setbits` gives it.
pub signed_field-mod :
    (n word : ℕ) → n < 32 → FitsSigned n word → word % 2 ^ suc n ≡ signed_field n word % 2 ^ suc n
signed_field-mod n word small (inl h) =
    mod-eq_of_lt (omega (arith, pow-suc 2 n)) ∙ sym (field_pos n word small h)
signed_field-mod n word small (inr h) =
    field_mod n word small h.0 h.1 ∙ sym (field_neg n word small h.0 h.1)
