-- ===== src/Rtcm/Link.antt =====
-- A frame from `gen_rtcm3` to `input_rtcm3`, over a line that is sound or that spoils a byte.
use go_ntrip.Base.{
  ℕ, suc, ◌+◌, ◌*◌, ◌%◌, ◌≤◌, ◌<◌, ◌≡◌, ◌≢◌, sym, ap, ap₂, subst, ◌∙◌, List, [], ◌∷◌, inl, inr,
  length, Bool-cases, ltb, ltb→lt, ℤ, pos, arith,
}
use go_ntrip.Bits.{byte_at, getbitu}
use go_ntrip.Bits.Cell.{IsBytes}
use go_ntrip.Crc.{rtk_crc24q}
use go_ntrip.Crc.Detect.{crc24q_ext, crc24q_one_byte}
use go_ntrip.Rtcm.{Rtcm, rtcm3_preamb, check_parity, feed}
use go_ntrip.Rtcm.Header.{getbitu_three, getbitu_ext}
use go_ntrip.Rtcm.Receive.{store, store_inside, statuses, delivered, feed_frame}

-- The bytes on the line: the header's preamble and length fit them, whatever their parity.
pub record IsCarried (line : List ℕ) (len : ℕ) : Type 0 where
  pub bytes : IsBytes line
  pub whole : length line ≡ len + 3
  pub preamble : byte_at line 0 ≡ rtcm3_preamb
  pub counted : byte_at line 1 % 4 * 256 + byte_at line 2 + 3 ≡ len

module _ {ℓ} {B : Type ℓ} (decode_rtcm3 : Rtcm B → Rtcm B × ℤ) (s : Rtcm B)
    (idle : s.nbyte ≡ 0) where
  -- What the receiver holds when the last byte has come.
  abbrev pub received : List ℕ → ℕ → Rtcm B
  received line len = record s { buff = store s.buff 0 line; nbyte = 0; len = len }

  feed_carried :
      (line : List ℕ) (len : ℕ)
      → IsCarried line len
      → len + 3 ≤ length s.buff
      → feed decode_rtcm3 s line ≡ delivered decode_rtcm3 (received line len) (len + 2)
  feed_carried [] len c room = absurd (omega (arith, c.whole, c.counted))
  feed_carried (d0 ∷ []) len c room = absurd (omega (arith, c.whole, c.counted))
  feed_carried (d0 ∷ d1 ∷ []) len c room = absurd (omega (arith, c.whole, c.counted))
  feed_carried (d0 ∷ d1 ∷ d2 ∷ []) len c room = absurd (omega (arith, c.whole, c.counted))
  feed_carried (d0 ∷ d1 ∷ d2 ∷ d ∷ ds) len c room =
      let sent : suc (suc (suc (length ds))) ≡ len + 2 = omega (arith, c.whole) in
      rw c.preamble (
        feed_frame decode_rtcm3 s d1 d2 d ds idle (omega arith) (c.bytes 1) (c.bytes 2)
          (omega (arith, c.whole, c.counted))
        ∙ ap₂ (λ n m. delivered decode_rtcm3 (received (rtcm3_preamb ∷ d1 ∷ d2 ∷ d ∷ ds) n) m)
            c.counted sent)

  module _ (line : List ℕ) (len : ℕ) (c : IsCarried line len) (room : len + 3 ≤ length s.buff) where
    received_byte : (k : ℕ) → k < len + 3 → byte_at (store s.buff 0 line) k ≡ byte_at line k
    received_byte k h =
        ap (byte_at (store s.buff 0 line)) {x = k} {y = 0 + k} (omega arith)
        ∙ store_inside line s.buff 0 k (omega (arith, c.whole)) (omega (arith, c.whole))

    received_parity : rtk_crc24q (store s.buff 0 line) len ≡ rtk_crc24q line len
    received_parity = crc24q_ext _ line len (λ k h. received_byte k (omega arith))

    received_field : getbitu (store s.buff 0 line) (len * 8) 24 ≡ getbitu line (len * 8) 24
    received_field =
        getbitu_ext _ line (len * 8) 24 (omega arith) (λ k p h. received_byte k (omega arith))

    -- A frame whose parity holds is decoded, once, when its last byte comes.
    pub feed_valid :
        getbitu line (len * 8) 24 ≡ rtk_crc24q line len
        → let d = decode_rtcm3 (received line len) in
          feed decode_rtcm3 s line ≡ (d.0, statuses (len + 2) d.1)
    feed_valid e =
        feed_carried line len c room ∙ ap (λ (t : Rtcm B × ℤ). (t.0, statuses (len + 2) t.1)) passes
      where
        passes : check_parity decode_rtcm3 (received line len) ≡ decode_rtcm3 (received line len)
        passes = unfold check_parity in ground (arith, received_parity, received_field, e)

    -- A frame whose parity fails is dropped: every status is 0 and no message is decoded.
    pub feed_invalid :
        getbitu line (len * 8) 24 ≢ rtk_crc24q line len
        → feed decode_rtcm3 s line ≡ (received line len, statuses (len + 2) (pos 0))
    feed_invalid e =
        feed_carried line len c room ∙ ap (λ (t : Rtcm B × ℤ). (t.0, statuses (len + 2) t.1)) drops
      where
        drops : check_parity decode_rtcm3 (received line len) ≡ (received line len, pos 0)
        drops = unfold check_parity in ground (arith, received_parity, received_field, e)

-- A line that spoils one byte behind the header.
module _ (line spoiled : List ℕ) (len k : ℕ) (c : IsCarried line len) (bytes : IsBytes spoiled)
    (same_length : length spoiled ≡ length line) (behind : 3 ≤ k) (within : k < len + 3)
    (same : (j : ℕ) → j ≢ k → byte_at line j ≡ byte_at spoiled j)
    (differs : byte_at line k ≢ byte_at spoiled k)
    (sound : getbitu line (len * 8) 24 ≡ rtk_crc24q line len) where
  spoiled-IsCarried : IsCarried spoiled len
  spoiled-IsCarried = record {
    bytes = bytes;
    whole = same_length ∙ c.whole;
    preamble = sym (same 0 (λ e. absurd (omega arith))) ∙ c.preamble;
    counted =
        omega (
          arith,
          c.counted,
          same 1 (λ e. absurd (omega arith)),
          same 2 (λ e. absurd (omega arith)),
        );
  }

  in_message : k < len → getbitu spoiled (len * 8) 24 ≢ rtk_crc24q spoiled len
  in_message h e =
      let field : getbitu line (len * 8) 24 ≡ getbitu spoiled (len * 8) 24 =
        getbitu_ext line spoiled (len * 8) 24 (omega arith)
          (λ j p q. same j (λ w. absurd (omega arith))) in
      crc24q_one_byte line spoiled c.bytes bytes k same differs len h (sym sound ∙ field ∙ e)

  in_parity : len ≤ k → getbitu spoiled (len * 8) 24 ≢ rtk_crc24q spoiled len
  in_parity h e =
      let start : len * 8 ≡ 8 * len = omega arith in
      let crc : rtk_crc24q line len ≡ rtk_crc24q spoiled len =
        crc24q_ext line spoiled len (λ j p. same j (λ w. absurd (omega arith))) in
      let fields : getbitu line (8 * len) 24 ≡ getbitu spoiled (8 * len) 24 =
        subst (λ i. getbitu line i 24 ≡ getbitu spoiled i 24) start (sound ∙ crc ∙ sym e) in
      let sums = sym (getbitu_three line c.bytes len) ∙ fields ∙ getbitu_three spoiled bytes len in
      ground (
        arith,
        sums,
        c.bytes len,
        c.bytes (len + 1),
        c.bytes (len + 2),
        bytes len,
        bytes (len + 1),
        bytes (len + 2),
      )

  spoiled_parity : getbitu spoiled (len * 8) 24 ≢ rtk_crc24q spoiled len
  spoiled_parity = elim (Bool-cases (ltb k len)) [
    | inl h ↦ in_message (ltb→lt k len h)
    | inr h ↦ in_parity (ground arith)
  ]

  -- A frame with sound parity in which one byte behind the header, of the message or of the
  -- parity, is replaced by another byte is dropped by an idle receiver: every status is 0, the
  -- decoder is not called, and the receiver is idle again.
  pub feed_damaged {ℓ} :
      {B : Type ℓ} (decode_rtcm3 : Rtcm B → Rtcm B × ℤ) (s : Rtcm B)
      → s.nbyte ≡ 0
      → len + 3 ≤ length s.buff
      → feed decode_rtcm3 s spoiled ≡ (
        record s { buff = store s.buff 0 spoiled; nbyte = 0; len = len },
        statuses (len + 2) (pos 0),
      )
  feed_damaged decode_rtcm3 s idle room =
      feed_invalid decode_rtcm3 s idle spoiled len spoiled-IsCarried room spoiled_parity
