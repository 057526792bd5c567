-- ===== src/Crc/Detect.antt =====
-- CRC-24Q over a message: the polynomial division that it computes, and the errors that it sees.
use go_ntrip.Base.{
  ℕ, zero, suc, ◌+◌, ◌*◌, ◌^◌, ◌≤◌, ◌<◌, bit_xor, ◌≡◌, ◌≢◌, refl, sym, ap, subst, ◌∙◌, List, arith,
  inl, inr, Bool-cases, ◌==◌, ==_iff, xor-lt, xor-injective, xor_comm,
}
use go_ntrip.Bits.{byte_at}
use go_ntrip.Bits.Cell.{IsBytes}
use go_ntrip.Crc.{crc24q_step, crc24q_loop, rtk_crc24q}
use go_ntrip.Crc.Step.{shifts, shifts-lt, shifts-injective, crc24q_step-shifts}

-- The message's bits divided by the polynomial: each byte joins the register's top, and the
-- register is shifted eight times.
pub division : List ℕ → ℕ → ℕ → ℕ → ℕ
division buff zero i x = x
division buff (suc left) i x =
    division buff left (i + 1) (shifts 8 (bit_xor x (byte_at buff i * 2 ^ 16)))

crc24q_step-lt : (x byte : ℕ) → x < 2 ^ 24 → byte < 256 → crc24q_step x byte < 2 ^ 24
crc24q_step-lt x byte h k =
    rw (crc24q_step-shifts x byte h k) (shifts-lt 8 _ (xor-lt 24 x (byte * 2 ^ 16) h (omega arith)))

-- A step tells two registers apart, and two bytes.
crc24q_step-injective :
    (x y byte : ℕ)
    → x < 2 ^ 24
    → y < 2 ^ 24
    → byte < 256
    → crc24q_step x byte ≡ crc24q_step y byte
    → x ≡ y
crc24q_step-injective x y byte h k b e = xor-injective x y (byte * 2 ^ 16) (
    shifts-injective 8 _ _ (xor-lt 24 x (byte * 2 ^ 16) h (omega arith))
      (xor-lt 24 y (byte * 2 ^ 16) k (omega arith))
      (sym (crc24q_step-shifts x byte h b) ∙ e ∙ crc24q_step-shifts y byte k b))

crc24q_step-byte_injective :
    (x a b : ℕ) → x < 2 ^ 24 → a < 256 → b < 256 → crc24q_step x a ≡ crc24q_step x b → a ≡ b
crc24q_step-byte_injective x a b h p q e =
    let tops : bit_xor x (a * 2 ^ 16) ≡ bit_xor x (b * 2 ^ 16) =
      shifts-injective 8 _ _ (xor-lt 24 x (a * 2 ^ 16) h (omega arith))
        (xor-lt 24 x (b * 2 ^ 16) h (omega arith))
        (sym (crc24q_step-shifts x a h p) ∙ e ∙ crc24q_step-shifts x b h q) in
    let same : a * 2 ^ 16 ≡ b * 2 ^ 16 =
      xor-injective (a * 2 ^ 16) (b * 2 ^ 16) x
        (xor_comm (a * 2 ^ 16) x ∙ tops ∙ xor_comm x (b * 2 ^ 16)) in
    omega arith

module _ (buff : List ℕ) (bytes : IsBytes buff) where
  loop-division : (left i x : ℕ) → x < 2 ^ 24 → crc24q_loop buff left i x ≡ division buff left i x
  unfolding crc24q_loop division
  loop-division zero i x h = refl
  loop-division (suc left) i x h =
      loop-division left (i + 1) _ (crc24q_step-lt x _ h (bytes i))
      ∙ ap (division buff left (i + 1)) (crc24q_step-shifts x _ h (bytes i))

  -- On a buffer of bytes the table-driven rtk_crc24q computes the bit-by-bit division of the
  -- message by the polynomial 0x1864CFB: each byte is added to the top of a 24-bit register, which
  -- is then shifted eight times and reduced.
  pub crc24q-division : (len : ℕ) → rtk_crc24q buff len ≡ division buff len 0 0
  unfolding rtk_crc24q
  crc24q-division len = loop-division len 0 0 (omega arith)

  loop-lt : (left i x : ℕ) → x < 2 ^ 24 → crc24q_loop buff left i x < 2 ^ 24
  unfolding crc24q_loop
  loop-lt zero i x h = h
  loop-lt (suc left) i x h = loop-lt left (i + 1) _ (crc24q_step-lt x _ h (bytes i))

  -- The parity fits its 24 bits.
  pub crc24q-lt : (len : ℕ) → rtk_crc24q buff len < 2 ^ 24
  unfolding rtk_crc24q
  crc24q-lt len = loop-lt len 0 0 (omega arith)

  loop-injective :
      (left i x y : ℕ)
      → x < 2 ^ 24
      → y < 2 ^ 24
      → crc24q_loop buff left i x ≡ crc24q_loop buff left i y
      → x ≡ y
  unfolding crc24q_loop
  loop-injective zero i x y h k e = e
  loop-injective (suc left) i x y h k e = crc24q_step-injective x y (byte_at buff i) h k (bytes i) (
      loop-injective left (i + 1) _ _ (crc24q_step-lt x _ h (bytes i))
        (crc24q_step-lt y _ k (bytes i)) e)

-- The parity reads no byte but the first `len`.
loop_ext :
    (a b : List ℕ) (left i x : ℕ)
    → ((k : ℕ) → i ≤ k → k < i + left → byte_at a k ≡ byte_at b k)
    → crc24q_loop a left i x ≡ crc24q_loop b left i x
unfolding crc24q_loop
loop_ext a b zero i x h = refl
loop_ext a b (suc left) i x h =
    rw (h i (omega arith) (omega arith))
      (loop_ext a b left (i + 1) _ (λ k p q. h k (omega arith) (omega arith)))

pub crc24q_ext :
    (a b : List ℕ) (len : ℕ)
    → ((k : ℕ) → k < len → byte_at a k ≡ byte_at b k)
    → rtk_crc24q a len ≡ rtk_crc24q b len
unfolding rtk_crc24q
crc24q_ext a b len h = loop_ext a b len 0 0 (λ k p q. h k (omega arith))

module _ (a b : List ℕ) (a_bytes : IsBytes a) (b_bytes : IsBytes b) (k : ℕ)
    (same : (j : ℕ) → j ≢ k → byte_at a j ≡ byte_at b j) (differs : byte_at a k ≢ byte_at b k) where
  loop_differs :
      (left i x : ℕ)
      → x < 2 ^ 24
      → i ≤ k
      → k < i + left
      → crc24q_loop a left i x ≢ crc24q_loop b left i x
  unfolding crc24q_loop
  loop_differs zero i x h p q e = absurd (omega arith)
  loop_differs (suc left) i x h p q e = elim (Bool-cases (i == k)) [
    | inl t ↦
        let at_k : i ≡ k = (==_iff i k).0 t in
        let a_next = crc24q_step x (byte_at a i) in
        let b_next = crc24q_step x (byte_at b i) in
        let rest : crc24q_loop a left (i + 1) a_next ≡ crc24q_loop a left (i + 1) b_next =
          e
          ∙ loop_ext b a left (i + 1) b_next (λ j u v. sym (same j (λ w. absurd (omega arith)))) in
        let registers : a_next ≡ b_next =
          loop-injective a a_bytes left (i + 1) a_next b_next (crc24q_step-lt x _ h (a_bytes i))
            (crc24q_step-lt x _ h (b_bytes i)) rest in
        differs (
          subst (λ j. byte_at a j ≡ byte_at b j) at_k
            (crc24q_step-byte_injective x _ _ h (a_bytes i) (b_bytes i) registers))
    | inr f ↦
        let miss : i ≢ k = λ w. absurd (ground arith) in
        loop_differs left (i + 1) _ (crc24q_step-lt x _ h (a_bytes i)) (ground arith) (omega arith)
          (e ∙ ap (λ v. crc24q_loop b left (i + 1) (crc24q_step x v)) (sym (same i miss)))
  ]

  -- Two buffers of bytes that differ in exactly one of the first len bytes have different CRC-24Q
  -- parities over len bytes.
  pub crc24q_one_byte : (len : ℕ) → k < len → rtk_crc24q a len ≢ rtk_crc24q b len
  unfolding rtk_crc24q
  crc24q_one_byte len h = loop_differs len 0 0 (omega arith) (omega arith) (omega arith)
