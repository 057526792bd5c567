-- ===== src/Rtcm2/File.antt =====
-- c/rtklib/rtcm.c: `input_rtcm2f`, which reads a file up to the next message. A file is the list of
-- its bytes that are still to be read.
use go_ntrip.Base.{
  ℕ, zero, suc, ◌≡◌, List, [], ◌∷◌, Bool-cases, if◌then◌else◌, ℤ, pos, negsuc, inl, inr,
}
use go_ntrip.Rtcm.File.{no_status}
use go_ntrip.Rtcm2.{Rtcm2, input_rtcm2}
use go_ntrip.Rtcm2.Invariant.{IsInStep, input_rtcm2-IsInStep}

module _ {ℓ} {B : Type ℓ} (decode_rtcm2 : Rtcm2 B → Rtcm2 B × ℤ) where
  -- The loop of `input_rtcm2f` with the rounds left: the state, the status and the rest of the file.
  unfoldable pub read_stream : ℕ → Rtcm2 B → List ℕ → Rtcm2 B × (ℤ × List ℕ)
  read_stream zero r file = (r, (pos 0, file))
  read_stream (suc i) r [] = (r, (negsuc 1, []))
  read_stream (suc i) r (data_byte ∷ file) =
      let s = input_rtcm2 decode_rtcm2 r data_byte in
      let rest = read_stream i s.0 file in if no_status s.1 then rest else (s.0, (s.1, file))

  unfoldable pub input_rtcm2f : Rtcm2 B → List ℕ → Rtcm2 B × (ℤ × List ℕ)
  input_rtcm2f = read_stream 4096

  module _
      (reads : (r : Rtcm2 B)
        → ((decode_rtcm2 r).0.buff ≡ r.buff) × ((decode_rtcm2 r).0.nbyte ≡ r.nbyte)) where
    read_stream-IsInStep :
        (i : ℕ) (file : List ℕ) (r : Rtcm2 B) → IsInStep r → IsInStep (read_stream i r file).0
    unfolding read_stream
    read_stream-IsInStep zero file r v = v
    read_stream-IsInStep (suc i) [] r v = v
    read_stream-IsInStep (suc i) (b ∷ file) r v =
        let step = input_rtcm2-IsInStep decode_rtcm2 reads r b v in
        elim (Bool-cases (no_status (input_rtcm2 decode_rtcm2 r b).1)) [
          | inl none_yet ↦ rw (none_yet) (read_stream-IsInStep i file _ step)
          | inr found ↦ rw (found) step
        ]

    -- If the decoder leaves the buffer and nbyte alone, input_rtcm2f keeps a receiver in step,
    -- whatever the file holds.
    pub input_rtcm2f-IsInStep :
        (file : List ℕ) (r : Rtcm2 B) → IsInStep r → IsInStep (input_rtcm2f r file).0
    unfolding input_rtcm2f
    input_rtcm2f-IsInStep = read_stream-IsInStep 4096
