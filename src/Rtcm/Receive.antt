-- ===== src/Rtcm/Receive.antt =====
-- `input_rtcm3` over a stream: a whole frame is collected, and handed over exactly at its end.
use go_ntrip.Base.{
  ℕ, zero, suc, ◌+◌, ◌*◌, ◌%◌, ◌≤◌, ◌<◌, ◌≡◌, ◌≢◌, refl, ap, ◌∙◌, List, [], ◌∷◌, length, set,
  length-set, get_or-set_self, get_or-set_ne, ℤ, pos, arith,
}
use go_ntrip.Bits.{byte_at, getbitu}
use go_ntrip.Rtcm.{Rtcm, rtcm3_preamb, check_parity, collect, input_rtcm3, feed}
use go_ntrip.Rtcm.Header.{getbitu_length}

-- Bytes stored one after the other from index `k` on.
abbrev pub store : List ℕ → ℕ → List ℕ → List ℕ
store buff k [] = buff
store buff k (d ∷ ds) = store (set buff k d) (k + 1) ds

pub length-store : (ds buff : List ℕ) (k : ℕ) → length (store buff k ds) ≡ length buff
length-store [] buff k = refl
length-store (d ∷ ds) buff k = length-store ds (set buff k d) (k + 1) ∙ length-set buff k d

-- Bytes before the first one stored stay.
pub store_before :
    (ds buff : List ℕ) (k j : ℕ) → j < k → byte_at (store buff k ds) j ≡ byte_at buff j
store_before [] buff k j h = refl
store_before (d ∷ ds) buff k j h =
    store_before ds (set buff k d) (k + 1) j (omega arith)
    ∙ get_or-set_ne buff k j d 0 (λ e. absurd (omega arith))

pub store_inside :
    (ds buff : List ℕ) (k j : ℕ)
    → k + length ds ≤ length buff
    → j < length ds
    → byte_at (store buff k ds) (k + j) ≡ byte_at ds j
store_inside [] buff k j fits h = absurd (omega arith)
store_inside (d ∷ ds) buff k zero fits h =
    ap (byte_at (store (set buff k d) (k + 1) ds)) {x = k + 0} {y = k} (omega arith)
    ∙ store_before ds (set buff k d) (k + 1) k (omega arith)
    ∙ get_or-set_self buff k d 0 (omega arith)
store_inside (d ∷ ds) buff k (suc j) fits h =
    ap (byte_at (store (set buff k d) (k + 1) ds)) {x = k + suc j} {y = k + 1 + j} (omega arith)
    ∙ store_inside ds (set buff k d) (k + 1) j (omega (arith, length-set buff k d)) (omega arith)

-- The status 0 for every byte but the last.
abbrev pub statuses : ℕ → ℤ → List ℤ
statuses zero z = z ∷ []
statuses (suc n) z = pos 0 ∷ statuses n z

module _ {ℓ} {B : Type ℓ} (decode_rtcm3 : Rtcm B → Rtcm B × ℤ) where
  abbrev stored : Rtcm B → ℕ → Rtcm B
  stored r d = record r { buff = set r.buff r.nbyte d; nbyte = r.nbyte + 1 }

  input_more :
      (r : Rtcm B) (d : ℕ)
      → 3 ≤ r.nbyte
      → r.nbyte + 1 < r.len + 3
      → input_rtcm3 decode_rtcm3 r d ≡ (stored r d, pos 0)
  unfolding input_rtcm3 collect
  input_more r d h more = ground arith

  input_last :
      (r : Rtcm B) (d : ℕ)
      → 3 ≤ r.nbyte
      → r.nbyte + 1 ≡ r.len + 3
      → input_rtcm3 decode_rtcm3 r d
        ≡ check_parity decode_rtcm3 (record r { buff = set r.buff r.nbyte d; nbyte = 0 })
  unfolding input_rtcm3 collect
  input_last r d h last = ground arith

  abbrev pub delivered : Rtcm B → ℕ → Rtcm B × List ℤ
  delivered r n = ((check_parity decode_rtcm3 r).0, statuses n (check_parity decode_rtcm3 r).1)

  feed_rest :
      (ds : List ℕ) (d : ℕ) (r : Rtcm B)
      → 3 ≤ r.nbyte
      → r.nbyte + suc (length ds) ≡ r.len + 3
      → feed decode_rtcm3 r (d ∷ ds)
        ≡ delivered (record r { buff = store r.buff r.nbyte (d ∷ ds); nbyte = 0 }) (length ds)
  unfolding feed
  feed_rest [] d r h e = ap (λ (t : Rtcm B × ℤ). (t.0, t.1 ∷ [])) (input_last r d h (omega arith))
  feed_rest (d' ∷ ds) d r h e =
      ap
        (λ (t : Rtcm B × ℤ).
          let u = feed decode_rtcm3 t.0 (d' ∷ ds) in
          let v : Rtcm B × List ℤ = (u.0, t.1 ∷ u.1) in v)
        (input_more r d h (omega arith))
      ∙ ap (λ (u : Rtcm B × List ℤ). (u.0, pos 0 ∷ u.1))
          (feed_rest ds d' (stored r d) (omega arith) (omega arith))

  input_first :
      (r : Rtcm B)
      → r.nbyte ≡ 0
      → input_rtcm3 decode_rtcm3 r rtcm3_preamb
        ≡ (record r { buff = set r.buff 0 rtcm3_preamb; nbyte = 1 }, pos 0)
  unfolding input_rtcm3
  input_first r h = ground arith

  input_second :
      (r : Rtcm B) (d : ℕ)
      → r.nbyte ≡ 1
      → input_rtcm3 decode_rtcm3 r d ≡ (record r { buff = set r.buff 1 d; nbyte = 2 }, pos 0)
  unfolding input_rtcm3 collect
  input_second r d h = ground arith

  input_third :
      (r : Rtcm B) (d : ℕ)
      → r.nbyte ≡ 2
      → let buff = set r.buff 2 d in
        input_rtcm3 decode_rtcm3 r d
        ≡ (record r { buff = buff; nbyte = 3; len = getbitu buff 14 10 + 3 }, pos 0)
  unfolding input_rtcm3 collect
  input_third r d h = ground arith

  feed-cons :
      (r s : Rtcm B) (z : ℤ) (d : ℕ) (ds : List ℕ)
      → input_rtcm3 decode_rtcm3 r d ≡ (s, z)
      → feed decode_rtcm3 r (d ∷ ds) ≡ ((feed decode_rtcm3 s ds).0, z ∷ (feed decode_rtcm3 s ds).1)
  unfolding feed
  feed-cons r s z d ds e =
      ap
        (λ (t : Rtcm B × ℤ).
          let u = feed decode_rtcm3 t.0 ds in let v : Rtcm B × List ℤ = (u.0, t.1 ∷ u.1) in v)
        e

  -- Between frames, a byte other than the preamble is skipped.
  pub feed_noise :
      (r : Rtcm B) (d : ℕ) (ds : List ℕ)
      → r.nbyte ≡ 0
      → d ≢ rtcm3_preamb
      → feed decode_rtcm3 r (d ∷ ds)
        ≡ ((feed decode_rtcm3 r ds).0, pos 0 ∷ (feed decode_rtcm3 r ds).1)
  feed_noise r d ds h k = feed-cons r r (pos 0) d ds (skipped r d h k)
    where
      skipped :
          (r : Rtcm B) (d : ℕ)
          → r.nbyte ≡ 0
          → d ≢ rtcm3_preamb
          → input_rtcm3 decode_rtcm3 r d ≡ (r, pos 0)
      skipped r d h k = unfold input_rtcm3 in ground arith

  module _ (r : Rtcm B) (d1 d2 d : ℕ) (ds : List ℕ) (idle : r.nbyte ≡ 0) (room : 3 ≤ length r.buff)
      (byte1 : d1 < 256) (byte2 : d2 < 256) (whole : suc (length ds) ≡ d1 % 4 * 256 + d2 + 3) where
    abbrev frame : List ℕ
    frame = rtcm3_preamb ∷ d1 ∷ d2 ∷ d ∷ ds

    abbrev header : List ℕ
    header = store r.buff 0 (rtcm3_preamb ∷ d1 ∷ d2 ∷ [])

    header_length : getbitu header 14 10 ≡ d1 % 4 * 256 + d2
    header_length =
        let three = rtcm3_preamb ∷ d1 ∷ d2 ∷ [] in
        let p : byte_at header 1 ≡ d1 = store_inside three r.buff 0 1 room (omega arith) in
        let q : byte_at header 2 ≡ d2 = store_inside three r.buff 0 2 room (omega arith) in
        getbitu_length header (omega arith) (omega arith) ∙ omega arith

    abbrev r1 : Rtcm B
    r1 = record r { buff = set r.buff 0 rtcm3_preamb; nbyte = 1 }

    abbrev r2 : Rtcm B
    r2 = record r1 { buff = set r1.buff 1 d1; nbyte = 2 }

    abbrev r3 : Rtcm B
    r3 = record r2 { buff = header; nbyte = 3; len = getbitu header 14 10 + 3 }

    abbrev quiet : Rtcm B × List ℤ → Rtcm B × List ℤ
    quiet u = (u.0, pos 0 ∷ u.1)

    -- A whole frame, from its preamble: every status but the last is 0, and the last byte hands
    -- the stored frame to the parity check, with nothing pending.
    pub feed_frame :
        feed decode_rtcm3 r frame
        ≡ delivered
            (record r { buff = store r.buff 0 frame; nbyte = 0; len = d1 % 4 * 256 + d2 + 3 })
            (suc (suc (suc (length ds))))
    feed_frame =
        feed-cons r r1 (pos 0) rtcm3_preamb _ (input_first r idle)
        ∙ ap quiet (
            feed-cons r1 r2 (pos 0) d1 _ (input_second r1 d1 refl)
            ∙ ap quiet (
                feed-cons r2 r3 (pos 0) d2 _ (input_third r2 d2 refl)
                ∙ ap quiet (
                    feed_rest ds d r3 (omega arith) (omega (arith, header_length))
                    ∙ ap
                        (λ n.
                          delivered
                            (record r { buff = store r.buff 0 frame; nbyte = 0; len = n + 3 })
                            (length ds))
                        header_length)))
