-- ===== src/Rtcm/File.antt =====
-- c/rtklib/rtcm.c: `input_rtcm3f`, which reads a file up to the next message. A file is the list of
-- its bytes that are still to be read.
use go_ntrip.Base.{
  ℕ, zero, suc, ◌+◌, ◌≤◌, ◌<◌, ◌≡◌, refl, ap, ap₂, List, [], ◌∷◌, ◌++◌, take, length, Bool, true,
  false, if◌then◌else◌, ℤ, pos, negsuc, get_or, arith,
}
use go_ntrip.Bits.Cell.{IsBytes}
use go_ntrip.Rtcm.{Rtcm, input_rtcm3, feed, start_frame, gen_rtcm3}
use go_ntrip.Rtcm.Receive.{statuses}
use go_ntrip.Rtcm.Generate.{IsEncoded, gen_rtcm3-IsGenerated}
use go_ntrip.Rtcm.Delivery.{handed, gen_rtcm3-feed}

unfoldable pub no_status : ℤ → Bool
no_status (pos zero) = true
no_status (pos (suc n)) = false
no_status (negsuc n) = false

module _ {ℓ} {B : Type ℓ} (decode_rtcm3 : Rtcm B → Rtcm B × ℤ) where
  -- The loop of `input_rtcm3f` with the rounds left: the state, the status and the rest of the file.
  unfoldable pub read_file : ℕ → Rtcm B → List ℕ → Rtcm B × (ℤ × List ℕ)
  read_file zero r file = (r, (pos 0, file))
  read_file (suc i) r [] = (r, (negsuc 1, []))
  read_file (suc i) r (data_byte ∷ file) =
      let s = input_rtcm3 decode_rtcm3 r data_byte in
      let rest = read_file i s.0 file in if no_status s.1 then rest else (s.0, (s.1, file))

  unfoldable pub input_rtcm3f : Rtcm B → List ℕ → Rtcm B × (ℤ × List ℕ)
  input_rtcm3f = read_file 4096

  abbrev past_first : List ℤ → List ℤ
  past_first [] = []
  past_first (z ∷ zs) = zs

  -- A stream whose last status is the only one that is not 0 is read to its end.
  read_file-feed :
      (n : ℕ) (bytes more : List ℕ) (r u : Rtcm B) (z : ℤ) (i : ℕ)
      → no_status z ≡ false
      → n < i
      → feed decode_rtcm3 r bytes ≡ (u, statuses n z)
      → read_file i r (bytes ++ more) ≡ (u, (z, more))
  unfolding feed read_file no_status
  read_file-feed n bytes more r u z zero some low h = absurd (omega (arith, low))
  read_file-feed zero [] more r u z (suc i) some low h =
      absurd (omega (arith, ap (λ x. length x.1) h))
  read_file-feed (suc n) [] more r u z (suc i) some low h =
      absurd (omega (arith, ap (λ x. length x.1) h))
  read_file-feed zero (b ∷ []) more r u z (suc i) some low h =
      let status : (input_rtcm3 decode_rtcm3 r b).1 ≡ z = ap (λ x. get_or x.1 0 (pos 0)) h in
      rw (status, some) (ap₂ (λ s y. (s, (y, more))) (ap (λ x. x.0) h) refl)
  read_file-feed zero (b ∷ c ∷ cs) more r u z (suc i) some low h =
      absurd (omega (arith, ap (λ x. length x.1) h))
  read_file-feed (suc n) (b ∷ bs) more r u z (suc i) some low h =
      let status : (input_rtcm3 decode_rtcm3 r b).1 ≡ pos 0 = ap (λ x. get_or x.1 0 (pos 1)) h in
      rw (status) (
        read_file-feed n bs more (input_rtcm3 decode_rtcm3 r b).0 u z i some (omega (arith, low))
          (ap (λ x. (x.0, past_first x.1)) h))

module _ {ℓ} {B : Type ℓ} (encode_rtcm3 : Rtcm B → ℕ → ℕ → Rtcm B × Bool)
    (decode_rtcm3 : Rtcm B → Rtcm B × ℤ) (r : Rtcm B) (type sync : ℕ) (bytes : IsBytes r.buff)
    (room : 3 ≤ length r.buff)
    (encodes : IsEncoded (start_frame r) (encode_rtcm3 (start_frame r) type sync).0)
    (done : (gen_rtcm3 encode_rtcm3 r type sync).1 ≡ true) (t : Rtcm B) (idle : t.nbyte ≡ 0) where
  abbrev line : Rtcm B
  line = (gen_rtcm3 encode_rtcm3 r type sync).0

  abbrev found : Rtcm B
  found = handed encode_rtcm3 decode_rtcm3 r type sync bytes room encodes done t idle

  -- When gen_rtcm3 reports success, for an encoder that writes behind the header and leaves room,
  -- and a file starts with the bytes of its frame, input_rtcm3f, from an idle receiver whose
  -- buffer holds them, reads the file up to the end of the frame and no further, and returns the
  -- state and the status of the decoder, if that status is not 0.
  pub input_rtcm3f-gen_rtcm3 :
      (more : List ℕ)
      → line.len + 3 ≤ length t.buff
      → no_status (decode_rtcm3 found).1 ≡ false
      → input_rtcm3f decode_rtcm3 t (take line.nbyte line.buff ++ more)
        ≡ ((decode_rtcm3 found).0, ((decode_rtcm3 found).1, more))
  unfolding input_rtcm3f
  input_rtcm3f-gen_rtcm3 more space some =
      let g = gen_rtcm3-IsGenerated encode_rtcm3 r type sync bytes room encodes done in
      let delivered =
        gen_rtcm3-feed encode_rtcm3 decode_rtcm3 r type sync bytes room encodes done t idle space in
      read_file-feed decode_rtcm3 (line.len + 2) (take line.nbyte line.buff) more t
        (decode_rtcm3 found).0 (decode_rtcm3 found).1 4096 some (omega (arith, g.short)) delivered.0
