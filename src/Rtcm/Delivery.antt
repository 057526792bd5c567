-- ===== src/Rtcm/Delivery.antt =====
-- `gen_rtcm3` to `input_rtcm3`: the receiver decodes what the encoder wrote.
use go_ntrip.Base.{
  ℕ, ◌+◌, ◌*◌, ◌≤◌, ◌<◌, ◌≡◌, sym, ap, ◌∙◌, List, inl, inr, length, take, length-take, get_or-take,
  get_or_past, Bool, true, ltb, ltb→lt, Bool-cases, ℤ, arith,
}
use go_ntrip.Bits.{byte_at, getbitu}
use go_ntrip.Bits.Cell.{IsBytes}
use go_ntrip.Crc.{rtk_crc24q}
use go_ntrip.Crc.Detect.{crc24q_ext}
use go_ntrip.Rtcm.{Rtcm, feed, gen_rtcm3, start_frame}
use go_ntrip.Rtcm.Header.{getbitu_byte, getbitu_length, getbitu_ext}
use go_ntrip.Rtcm.Receive.{statuses, store, store_inside}
use go_ntrip.Rtcm.Link.{IsCarried, feed_valid}
use go_ntrip.Rtcm.Generate.{IsGenerated, IsEncoded, gen_rtcm3-IsGenerated}

take-IsBytes : (n : ℕ) (xs : List ℕ) → n ≤ length xs → IsBytes xs → IsBytes (take n xs)
take-IsBytes n xs fits bytes k = elim (Bool-cases (ltb k n)) [
  | inl h ↦ omega (arith, get_or-take n xs k 0 (ltb→lt k n h), bytes k)
  | inr h ↦ omega (arith, get_or_past (take n xs) k 0 (ground (arith, length-take n xs)))
]

module _ {ℓ} {B : Type ℓ} {s r : Rtcm B} (g : IsGenerated s r) where
  -- The bytes that are sent.
  abbrev line : List ℕ
  line = take r.nbyte r.buff

  line_byte : (k : ℕ) → k < r.len + 3 → byte_at line k ≡ byte_at r.buff k
  line_byte k h = get_or-take r.nbyte r.buff k 0 (omega (arith, g.sent))

  line-IsCarried : IsCarried line r.len
  line-IsCarried = record {
    bytes = take-IsBytes r.nbyte r.buff (omega (arith, g.sent, g.fits)) g.bytes;
    whole = length-take r.nbyte r.buff (omega (arith, g.sent, g.fits)) ∙ g.sent;
    preamble = line_byte 0 (omega arith) ∙ sym (getbitu_byte r.buff g.bytes 0) ∙ g.frame.preamble;
    counted = omega (
      arith,
      line_byte 1 (omega (arith, g.short)),
      line_byte 2 (omega (arith, g.short)),
      getbitu_length r.buff (g.bytes 1) (g.bytes 2),
      g.frame.length_field,
    );
  }

  line_parity : getbitu line (r.len * 8) 24 ≡ rtk_crc24q line r.len
  line_parity =
      getbitu_ext line r.buff (r.len * 8) 24 (omega arith) (λ k p h. line_byte k (omega arith))
      ∙ g.frame.parity
      ∙ sym (crc24q_ext line r.buff r.len (λ k h. line_byte k (omega arith)))

  line_message :
      (t : Rtcm B)
      → r.len + 3 ≤ length t.buff
      → (q n : ℕ) → n ≤ 32
      → 24 ≤ q
      → q + n ≤ s.nbit
      → getbitu (store t.buff 0 line) q n ≡ getbitu s.buff q n
  line_message t room q n narrow from upto =
      getbitu_ext (store t.buff 0 line) r.buff q n narrow stored_byte
      ∙ g.message q n narrow from upto
    where
      stored_byte :
          (k : ℕ)
          → q < 8 * k + 8
          → 8 * k < q + n
          → byte_at (store t.buff 0 line) k ≡ byte_at r.buff k
      stored_byte k p h =
          let inside : k < r.len = omega (arith, g.whole) in
          let at : k ≡ 0 + k = omega arith in
          ap (byte_at (store t.buff 0 line)) at
          ∙ store_inside line t.buff 0 k (omega (arith, line-IsCarried.whole))
              (omega (arith, line-IsCarried.whole))
          ∙ line_byte k (omega arith)

module _ {ℓ} {B : Type ℓ} (encode_rtcm3 : Rtcm B → ℕ → ℕ → Rtcm B × Bool)
    (decode_rtcm3 : Rtcm B → Rtcm B × ℤ) (r : Rtcm B) (type sync : ℕ) (bytes : IsBytes r.buff)
    (room : 3 ≤ length r.buff)
    (encodes : IsEncoded (start_frame r) (encode_rtcm3 (start_frame r) type sync).0)
    (done : (gen_rtcm3 encode_rtcm3 r type sync).1 ≡ true) (t : Rtcm B) (idle : t.nbyte ≡ 0) where
  abbrev pub sent : Rtcm B
  sent = (gen_rtcm3 encode_rtcm3 r type sync).0

  -- What the receiver hands to its decoder.
  abbrev pub handed : Rtcm B
  handed = record t { buff = store t.buff 0 (take sent.nbyte sent.buff); nbyte = 0; len = sent.len }

  -- When gen_rtcm3 reports success, for an encoder that writes behind the header and leaves room,
  -- the bytes that it leaves in its buffer, fed to an idle receiver whose buffer holds them, give
  -- status 0 for each byte but the last, at which the decoder is called once; what it is handed
  -- reads, on every range of at most 32 bits of the message, as the encoder wrote it.
  pub gen_rtcm3-feed :
      sent.len + 3 ≤ length t.buff
      → (feed decode_rtcm3 t (take sent.nbyte sent.buff)
          ≡ ((decode_rtcm3 handed).0, statuses (sent.len + 2) (decode_rtcm3 handed).1))
        × ((q n : ℕ)
            → n ≤ 32
            → 24 ≤ q
            → q + n ≤ (encode_rtcm3 (start_frame r) type sync).0.nbit
            → getbitu handed.buff q n ≡ getbitu (encode_rtcm3 (start_frame r) type sync).0.buff q n)
  gen_rtcm3-feed space =
      let g = gen_rtcm3-IsGenerated encode_rtcm3 r type sync bytes room encodes done in
      (
        feed_valid decode_rtcm3 t idle _ sent.len (line-IsCarried g) space (line_parity g),
        line_message g t space,
      )
