-- ===== src/Rtcm/Header.antt =====
-- Bytes and the frame header, read as bit fields.
use go_ntrip.Base.{ℕ, ◌+◌, ◌-◌, ◌*◌, ◌/◌, ◌%◌, ◌^◌, ◌≤◌, ◌<◌, ◌≡◌, sym, ap, ap₂, ◌∙◌, List, arith}
use go_ntrip.Bits.{byte_at, getbitu}
use go_ntrip.Bits.Cell.{IsBytes, bit_at}
use go_ntrip.Bits.Ranges.{number, getbitu-number, number_of, number_ext, number_append}

-- An aligned byte is the number of its eight bits.
pub getbitu_byte :
    (buff : List ℕ) → IsBytes buff → (k : ℕ) → getbitu buff (8 * k) 8 ≡ byte_at buff k
getbitu_byte buff bytes k =
    getbitu-number buff (8 * k) 8 (omega arith)
    ∙ number_of (bit_at buff) (byte_at buff k) 8 (8 * k)
        (λ j p q. ap₂ (λ a b. byte_at buff a / 2 ^ b % 2) (omega arith) (omega arith))
    ∙ omega (arith, bytes k)

-- The ten bits of the length stand in the second and third byte.
pub getbitu_length :
    (buff : List ℕ)
    → byte_at buff 1 < 256
    → byte_at buff 2 < 256
    → getbitu buff 14 10 ≡ byte_at buff 1 % 4 * 256 + byte_at buff 2
getbitu_length buff h k = getbitu-number buff 14 10 (omega arith) ∙ omega arith

-- A range reads the bytes that it meets.
pub getbitu_ext :
    (a b : List ℕ) (pos len : ℕ)
    → len ≤ 32
    → ((k : ℕ) → pos < 8 * k + 8 → 8 * k < pos + len → byte_at a k ≡ byte_at b k)
    → getbitu a pos len ≡ getbitu b pos len
getbitu_ext a b pos len small h =
    getbitu-number a pos len small
    ∙ number_ext (bit_at a) (bit_at b) len pos
        (λ j p q. ap (λ v. v / 2 ^ (7 - j % 8) % 2) (h (j / 8) (omega arith) (omega arith)))
    ∙ sym (getbitu-number b pos len small)

-- Three aligned bytes.
pub getbitu_three :
    (buff : List ℕ)
    → IsBytes buff
    → (k : ℕ)
    → getbitu buff (8 * k) 24
      ≡ byte_at buff k * 65536 + byte_at buff (k + 1) * 256 + byte_at buff (k + 2)
getbitu_three buff bytes k =
    let f = bit_at buff in
    let next : 8 * k + 8 ≡ 8 * (k + 1) = omega arith in
    let last : 8 * k + 8 + 8 ≡ 8 * (k + 2) = omega arith in
    getbitu-number buff (8 * k) 24 (omega arith)
    ∙ omega (
      arith,
      number_append f 8 16 (8 * k),
      number_append f 8 8 (8 * k + 8),
      aligned k,
      ap (λ i. number f i 8) next ∙ aligned (k + 1),
      ap (λ i. number f i 8) last ∙ aligned (k + 2),
    )
  where
    aligned : (j : ℕ) → number (bit_at buff) (8 * j) 8 ≡ byte_at buff j
    aligned j = sym (getbitu-number buff (8 * j) 8 (omega arith)) ∙ getbitu_byte buff bytes j
