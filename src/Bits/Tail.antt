-- ===== src/Bits/Tail.antt =====
-- The last bits of a range that `getbitu` reads.
use native.Mathlib.Nat.{mul-le-mul_right, pow-suc, mod-eq_of_lt, add-mul-mod_self_right}
use go_ntrip.Base.{ℕ, zero, suc, ◌+◌, ◌*◌, ◌%◌, ◌^◌, ◌≤◌, ◌<◌, ◌≡◌, ◌∙◌, ap, sym, List, arith}
use go_ntrip.Bits.{getbitu}
use go_ntrip.Bits.Cell.{bit_at}
use go_ntrip.Bits.Ranges.{number, getbitu-number, number_append}

number-lt : (buff : List ℕ) (n i : ℕ) → number (bit_at buff) i n < 2 ^ n
number-lt buff zero i = omega arith
number-lt buff (suc n) i =
    let bit : bit_at buff i < 2 = omega arith in
    let top : bit_at buff i * 2 ^ n ≤ 1 * 2 ^ n = mul-le-mul_right (2 ^ n) (omega arith) in
    omega (arith, number-lt buff n (i + 1), pow-suc 2 n)

-- The last bits of a range are the number's remainder.
pub getbitu_tail :
    (buff : List ℕ) (pos m n : ℕ)
    → m + n ≤ 32
    → getbitu buff (pos + m) n ≡ getbitu buff pos (m + n) % 2 ^ n
getbitu_tail buff pos m n small =
    let high = number (bit_at buff) pos m in
    let low = number (bit_at buff) (pos + m) n in
    let bounded = number-lt buff n (pos + m) in
    let sum : number (bit_at buff) pos (m + n) ≡ low + high * 2 ^ n =
      number_append (bit_at buff) m n pos ∙ omega arith in
    getbitu-number buff (pos + m) n (omega arith)
    ∙ sym (mod-eq_of_lt bounded)
    ∙ sym (add-mul-mod_self_right low high (2 ^ n))
    ∙ ap (λ t. t % 2 ^ n) (sym sum ∙ sym (getbitu-number buff pos (m + n) small))
