-- ===== src/Rtcm/Invariant.antt =====
-- The receiver on any byte stream: its counters stay within one frame, so no byte is stored
-- outside the buffer.
use go_ntrip.Base.{
  ℕ, zero, suc, ◌+◌, ◌*◌, ◌≤◌, ◌<◌, ◌≡◌, refl, List, [], ◌∷◌, ◌⊎◌, inl, inr, length, set,
  length-set, ltb, ◌==◌, ◌||◌, if◌then◌else◌, Bool-cases, ℤ, arith,
}
use go_ntrip.Bits.{getbitu}
use go_ntrip.Bits.Cell.{IsBytes, AllBytes}
use go_ntrip.Crc.{rtk_crc24q}
use go_ntrip.Rtcm.{Rtcm, rtcm3_preamb, check_parity, collect, input_rtcm3, feed}
use go_ntrip.Rtcm.Header.{getbitu_length}

-- The longest frame: 3 bytes of header, 1023 of message, 3 of parity.
abbrev pub max_frame : ℕ
max_frame = 1029

pub set-IsBytes : (buff : List ℕ) (k d : ℕ) → IsBytes buff → d < 256 → IsBytes (set buff k d)
set-IsBytes [] k d h small j = h j
set-IsBytes (x ∷ xs) zero d h small zero = small
set-IsBytes (x ∷ xs) zero d h small (suc j) = h (suc j)
set-IsBytes (x ∷ xs) (suc k) d h small zero = h zero
set-IsBytes (x ∷ xs) (suc k) d h small (suc j) = set-IsBytes xs k d (λ i. h (suc i)) small j

module _ {ℓ} {B : Type ℓ} where
  -- A buffer of bytes that holds a frame, and counters inside the frame that is being read.
  pub record IsReceiving (r : Rtcm B) : Type ℓ where
    pub bytes : IsBytes r.buff
    pub room : max_frame ≤ length r.buff
    pub counters : (r.nbyte < 3) ⊎ ((r.len ≤ 1026) × (r.nbyte < r.len + 3))

module _ {ℓ} {B : Type ℓ} (decode_rtcm3 : Rtcm B → Rtcm B × ℤ)
    (reads : (r : Rtcm B)
      → ((decode_rtcm3 r).0.buff ≡ r.buff) × ((decode_rtcm3 r).0.nbyte ≡ r.nbyte)) where
  check_parity-IsReceiving :
      (r : Rtcm B)
      → IsBytes r.buff
      → max_frame ≤ length r.buff
      → r.nbyte ≡ 0
      → IsReceiving (check_parity decode_rtcm3 r).0
  unfolding check_parity
  check_parity-IsReceiving r bytes room idle =
      elim (Bool-cases (rtk_crc24q r.buff r.len == getbitu r.buff (r.len * 8) 24)) [
        | inl e ↦ rw e (record {
          bytes = rw ((reads r).0) bytes;
          room = rw ((reads r).0) room;
          counters = inl (omega (arith, (reads r).1));
        })
        | inr e ↦ rw e (record { bytes = bytes; room = room; counters = inl (omega arith) })
      ]

  -- The length as `collect` sees it.
  abbrev seen : Rtcm B → ℕ
  seen r = if r.nbyte == 3 then getbitu r.buff 14 10 + 3 else r.len

  collect-IsReceiving :
      (r : Rtcm B)
      → IsBytes r.buff
      → max_frame ≤ length r.buff
      → (r.nbyte ≤ 3) ⊎ ((r.len ≤ 1026) × (r.nbyte ≤ r.len + 3))
      → IsReceiving (collect decode_rtcm3 r).0
  unfolding collect
  collect-IsReceiving r bytes room c =
      let header : getbitu r.buff 14 10 ≤ 1023 =
        omega (arith, getbitu_length r.buff (bytes 1) (bytes 2), bytes 2) in
      elim (Bool-cases (ltb r.nbyte 3 || ltb r.nbyte (seen r + 3))) [
        | inl e ↦ rw e (record { bytes = bytes; room = room; counters = ground (arith, header) })
        | inr e ↦
            rw e (check_parity-IsReceiving (record r { len = seen r; nbyte = 0 }) bytes room refl)
      ]

  abbrev stored : Rtcm B → ℕ → Rtcm B
  stored r d = record r { buff = set r.buff r.nbyte d; nbyte = r.nbyte + 1 }

  -- A byte keeps the receiver within its frame.
  pub input_rtcm3-IsReceiving :
      (r : Rtcm B) (d : ℕ) → d < 256 → IsReceiving r → IsReceiving (input_rtcm3 decode_rtcm3 r d).0
  unfolding input_rtcm3
  input_rtcm3-IsReceiving r d small v =
      let bytes = set-IsBytes r.buff r.nbyte d v.bytes small in
      let room : max_frame ≤ length (set r.buff r.nbyte d) =
        omega (arith, v.room, length-set r.buff r.nbyte d) in
      elim (Bool-cases (r.nbyte == 0)) [
        | inl idle ↦ elim (Bool-cases (d == rtcm3_preamb)) [
          | inl start ↦
              rw (idle, start)
                (record { bytes = bytes; room = room; counters = inl (ground arith) })
          | inr noise ↦ rw (idle, noise) v
        ]
        | inr busy ↦
            rw busy (collect-IsReceiving (stored r d) bytes room (ground (arith, v.counters)))
      ]

  feed-IsReceiving :
      (ds : List ℕ) (r : Rtcm B)
      → AllBytes ds
      → IsReceiving r
      → IsReceiving (feed decode_rtcm3 r ds).0
  unfolding feed
  feed-IsReceiving [] r small v = v
  feed-IsReceiving (d ∷ ds) r small v =
      feed-IsReceiving ds _ small.1 (input_rtcm3-IsReceiving r d small.0 v)

  -- If the decoder leaves the buffer and nbyte alone, then after any stream of bytes from a
  -- receiver within a frame, with a buffer of at least 1029 bytes, the receiver is within a frame
  -- again and nbyte is an index of the buffer.
  pub feed_in_bounds :
      (ds : List ℕ) (r : Rtcm B)
      → AllBytes ds
      → IsReceiving r
      → let s = (feed decode_rtcm3 r ds).0 in IsReceiving s × (s.nbyte < length s.buff)
  feed_in_bounds ds r small v =
      let w = feed-IsReceiving ds r small v in (w, ground (arith, w.counters, w.room))
