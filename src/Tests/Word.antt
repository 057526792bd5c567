-- ===== src/Tests/Word.antt =====
-- The RTCM 2 words on concrete streams.
use go_ntrip.Base.{◌+◌, ◌≤◌, ◌≡◌, refl, [], ◌∷◌, replicate, length, inl, none, some, pos, ℤ, arith}
use go_ntrip.Bits.Cell.{AllBytes-IsBytes}
use go_ntrip.Rtcm2.{Rtcm2, feed_rtcm2, decode_word, upright, word_parity, fold_bits}
use go_ntrip.Rtcm2.Invariant.{IsInStep, feed_rtcm2_in_bounds}

abbrev idle : Rtcm2 (Unit {0})
idle = record { word = 0; nbyte = 0; nbit = 0; len = 0; buff = replicate 102 0; body = tt }

idle-IsInStep : IsInStep idle
idle-IsInStep = record {
  bytes = AllBytes-IsBytes (replicate 102 0) (omega arith);
  room = omega arith;
  counters = inl refl;
}

abbrev decode : Rtcm2 (Unit {0}) → Rtcm2 (Unit {0}) × ℤ
decode r = (r, pos 1)

zero_word : decode_word 0 (1 ∷ 2 ∷ 3 ∷ []) 0 ≡ some (0 ∷ 0 ∷ 0 ∷ [])
unfolding decode_word upright word_parity fold_bits
zero_word = refl

damaged_word : decode_word 0x100 (1 ∷ 2 ∷ 3 ∷ []) 0 ≡ none
unfolding decode_word upright word_parity fold_bits
damaged_word = refl

feed_rtcm2_in_bounds_example :
    IsInStep (feed_rtcm2 decode idle (0x59 ∷ 0x40 ∷ 0x7f ∷ []))
    × ((feed_rtcm2 decode idle (0x59 ∷ 0x40 ∷ 0x7f ∷ [])).nbyte + 3
        ≤ length (feed_rtcm2 decode idle (0x59 ∷ 0x40 ∷ 0x7f ∷ [])).buff)
feed_rtcm2_in_bounds_example =
    feed_rtcm2_in_bounds decode (λ r. (refl, refl)) (0x59 ∷ 0x40 ∷ 0x7f ∷ []) idle idle-IsInStep
