-- ===== src/Rtcm2/Invariant.antt =====
-- The RTCM 2 receiver on any byte stream: the words of a message stay inside the buffer.
use go_ntrip.Base.{
  ℕ, zero, suc, ◌+◌, ◌*◌, ◌/◌, ◌%◌, ◌^◌, ◌≤◌, ◌<◌, ◌≡◌, refl, subst, ◌∙◌, List, [], ◌∷◌, ◌⊎◌, inl,
  inr, length, set, length-set, true, ltb, ◌==◌, if◌then◌else◌, Bool-cases, some, Option-cases, ℤ,
  arith, bit_and,
}
use go_ntrip.Bits.{byte_at}
use go_ntrip.Bits.Cell.{IsBytes}
use go_ntrip.Rtcm.Invariant.{set-IsBytes}
use go_ntrip.Rtcm2.{
  Rtcm2, rtcm2_preamb, decode_word, upright, preamble_of, synchronize, extend, take_bit, bit_loop,
  input_rtcm2, feed_rtcm2,
}

-- The longest message: a header of two words and 31 words of data, 3 bytes each.
abbrev pub max_message : ℕ
max_message = 99

module _ {ℓ} {B : Type ℓ} where
  -- Outside a message, behind its first word, or inside it with its length known.
  pub record IsInStep (r : Rtcm2 B) : Type ℓ where
    pub bytes : IsBytes r.buff
    pub room : max_message + 3 ≤ length r.buff
    pub counters :
        (r.nbyte ≡ 0)
        ⊎ ((r.nbyte ≡ 3) ⊎ ((6 ≤ r.nbyte) × (r.nbyte < r.len) × (r.len ≤ max_message)))

abbrev stored : ℕ → List ℕ → ℕ → List ℕ
stored w buff at =
    set (set (set buff at (w / 2 ^ 22 % 256)) (at + 1) (w / 2 ^ 14 % 256)) (at + 2)
      (w / 2 ^ 6 % 256)

stored-kept :
    (w : ℕ) (buff : List ℕ) (at : ℕ)
    → IsBytes buff
    → IsBytes (stored w buff at) × (length (stored w buff at) ≡ length buff)
stored-kept w buff at bytes =
    let one = set-IsBytes buff at (w / 2 ^ 22 % 256) bytes (omega arith) in
    let two = set-IsBytes _ (at + 1) (w / 2 ^ 14 % 256) one (omega arith) in
    (
      set-IsBytes _ (at + 2) (w / 2 ^ 6 % 256) two (omega arith),
      length-set _ (at + 2) (w / 2 ^ 6 % 256)
          ∙ length-set _ (at + 1) (w / 2 ^ 14 % 256)
          ∙ length-set buff at (w / 2 ^ 22 % 256),
    )

-- A word that is taken leaves a buffer of bytes of the same length.
decode_word-kept :
    (word : ℕ) (buff : List ℕ) (at : ℕ) (out : List ℕ)
    → IsBytes buff
    → decode_word word buff at ≡ some out
    → IsBytes out × (length out ≡ length buff)
unfolding decode_word
decode_word-kept word buff at out bytes h =
    let e : stored (upright word) buff at ≡ out = ground arith in
    subst (λ b. IsBytes b × (length b ≡ length buff)) e (stored-kept (upright word) buff at bytes)

module _ {ℓ} {B : Type ℓ} where
  with_word : (r : Rtcm2 B) (word : ℕ) → IsInStep r → IsInStep (record r { word = word })
  with_word r word v = record { bytes = v.bytes; room = v.room; counters = v.counters }

  synchronize-IsInStep : (r : Rtcm2 B) → IsInStep r → IsInStep (synchronize r)
  unfolding synchronize
  synchronize-IsInStep r v = elim (Bool-cases (preamble_of r.word == rtcm2_preamb)) [
    | inl found ↦ elim (Option-cases (decode_word r.word r.buff 0)) [
      | inl bad ↦ rw (found, bad) v
      | inr good ↦
          let kept = decode_word-kept r.word r.buff 0 good.0 v.bytes good.1 in
          rw (found, good.1)
            (record {
              bytes = kept.0;
              room = omega (arith, v.room, kept.1);
              counters = inr (inl refl);
            })
    ]
    | inr other ↦ rw other v
  ]

  abbrev new_len : Rtcm2 B → ℕ
  new_len r = if r.nbyte + 3 == 6 then byte_at r.buff 5 / 2 ^ 3 * 3 + 6 else r.len

  extend-IsInStep :
      (r : Rtcm2 B)
      → IsInStep r
      → 0 < r.nbyte
      → IsInStep (extend r).0 × (((extend r).1 ≡ true) → (extend r).0.nbyte ≡ 0)
  unfolding extend
  extend-IsInStep r v busy =
      let five = v.bytes 5 in
      elim (Bool-cases (ltb (r.nbyte + 3) (new_len r))) [
        | inl more ↦ rw more (
          record {
            bytes = v.bytes;
            room = v.room;
            counters = inr (inr (ground (arith, v.counters, five)));
          },
          λ e. absurd (ground arith),
        )
        | inr last ↦
            rw last (record { bytes = v.bytes; room = v.room; counters = inl refl }, λ e. refl)
      ]

  take_bit-IsInStep :
      (r : Rtcm2 B)
      → IsInStep r
      → IsInStep (take_bit r).0 × (((take_bit r).1 ≡ true) → (take_bit r).0.nbyte ≡ 0)
  unfolding take_bit
  take_bit-IsInStep r v = elim (Bool-cases (r.nbyte == 0)) [
    | inl idle ↦ rw idle (synchronize-IsInStep r v, λ e. absurd (ground arith))
    | inr busy ↦ elim (Bool-cases (ltb (r.nbit + 1) 30)) [
      | inl inside ↦
          rw (busy, inside)
            (
              record { bytes = v.bytes; room = v.room; counters = v.counters },
              λ e. absurd (ground arith),
            )
      | inr full ↦ elim (Option-cases (decode_word r.word r.buff r.nbyte)) [
        | inl bad ↦
            rw (busy, full, bad)
              (record { bytes = v.bytes; room = v.room; counters = inl refl }, λ e. refl)
        | inr good ↦
            let kept = decode_word-kept r.word r.buff r.nbyte good.0 v.bytes good.1 in
            rw (busy, full, good.1)
              (extend-IsInStep (record r { nbit = 0; buff = good.0 })
                (record {
                  bytes = kept.0;
                  room = omega (arith, v.room, kept.1);
                  counters = v.counters;
                })
                (ground arith))
      ]
    ]
  ]

-- The decoder leaves the buffer alone and is called between messages.
module _ {ℓ} {B : Type ℓ} (decode_rtcm2 : Rtcm2 B → Rtcm2 B × ℤ)
    (reads : (r : Rtcm2 B)
      → ((decode_rtcm2 r).0.buff ≡ r.buff) × ((decode_rtcm2 r).0.nbyte ≡ r.nbyte)) where
  decoded-IsInStep : (r : Rtcm2 B) → IsInStep r → r.nbyte ≡ 0 → IsInStep (decode_rtcm2 r).0
  decoded-IsInStep r v idle = record {
    bytes = rw ((reads r).0) v.bytes;
    room = rw ((reads r).0) v.room;
    counters = inl ((reads r).1 ∙ idle);
  }

  bit_loop-IsInStep :
      (left byte : ℕ) (r : Rtcm2 B) → IsInStep r → IsInStep (bit_loop decode_rtcm2 left byte r).0
  unfolding bit_loop
  bit_loop-IsInStep zero byte r v = v
  bit_loop-IsInStep (suc left) byte r v =
      let shifted = record r { word = (r.word * 2 % 2 ^ 32 + bit_and byte 1) % 2 ^ 32 } in
      let step = take_bit-IsInStep shifted (with_word r _ v) in
      elim (Bool-cases (take_bit shifted).1) [
        | inl complete ↦
            rw (bit_loop, complete) (decoded-IsInStep (take_bit shifted).0 step.0 (step.1 complete))
        | inr more ↦
            rw (bit_loop, more) (bit_loop-IsInStep left (byte / 2) (take_bit shifted).0 step.0)
      ]

  pub input_rtcm2-IsInStep :
      (r : Rtcm2 B) (byte : ℕ) → IsInStep r → IsInStep (input_rtcm2 decode_rtcm2 r byte).0
  unfolding input_rtcm2
  input_rtcm2-IsInStep r byte v = elim (Bool-cases (bit_and byte 0xc0 == 0x40)) [
    | inl taken ↦ rw taken (bit_loop-IsInStep 6 byte r v)
    | inr ignored ↦ rw ignored v
  ]

  feed_rtcm2-IsInStep :
      (bytes : List ℕ) (r : Rtcm2 B) → IsInStep r → IsInStep (feed_rtcm2 decode_rtcm2 r bytes)
  unfolding feed_rtcm2
  feed_rtcm2-IsInStep [] r v = v
  feed_rtcm2-IsInStep (b ∷ bs) r v = feed_rtcm2-IsInStep bs _ (input_rtcm2-IsInStep r b v)

  -- If the decoder leaves the buffer and nbyte alone, then after any stream of bytes from a
  -- receiver in step, with a buffer of at least 102 bytes, the RTCM 2 receiver is in step again
  -- and the three bytes of its next word lie inside the buffer.
  pub feed_rtcm2_in_bounds :
      (bytes : List ℕ) (r : Rtcm2 B)
      → IsInStep r
      → let s = feed_rtcm2 decode_rtcm2 r bytes in IsInStep s × (s.nbyte + 3 ≤ length s.buff)
  feed_rtcm2_in_bounds bytes r v =
      let w = feed_rtcm2-IsInStep bytes r v in (w, ground (arith, w.counters, w.room))
