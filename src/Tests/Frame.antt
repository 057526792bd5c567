-- ===== src/Tests/Frame.antt =====
-- The framing on concrete streams, with an encoder of one two-field message.
use go_ntrip.Base.{
  ℕ, zero, suc, inl, ◌+◌, ◌*◌, ◌≤◌, ◌<◌, ◌≡◌, ◌↔◌, refl, sym, List, [], ◌∷◌, ◌++◌, arith, replicate,
  set, take, length, Bool, true, ℤ, pos, get_or-set_ne,
}
use go_ntrip.Bits.{getbitu, setbitu, read_loop, write_loop, write_bit}
use go_ntrip.Bits.Cell.{IsBytes, AllBytes-IsBytes}
use go_ntrip.Bits.Fields.{put, put-IsPut, IsPut}
use go_ntrip.Crc.{rtk_crc24q, crc24q_loop, crc24q_step}
use go_ntrip.Rtcm.{
  Rtcm, rtcm3_preamb, feed, gen_rtcm3, start_frame, close_frame, pad, input_rtcm3, collect,
  check_parity,
}
use go_ntrip.Rtcm.Receive.{statuses, store}
use go_ntrip.Rtcm.Generate.{IsEncoded, gen_rtcm3_iff}
use go_ntrip.Rtcm.Delivery.{gen_rtcm3-feed}
use go_ntrip.Rtcm.File.{no_status, input_rtcm3f, input_rtcm3f-gen_rtcm3}
use go_ntrip.Rtcm.Invariant.{IsReceiving, feed_in_bounds}
use go_ntrip.Rtcm.Link.{IsCarried, feed_damaged}

abbrev B : Type 0
B = Unit {0}

abbrev blank : Rtcm B
blank = record { nbyte = 0; nbit = 0; len = 0; buff = replicate 16 0; body = tt }

blank-IsBytes : IsBytes blank.buff
blank-IsBytes = AllBytes-IsBytes blank.buff (omega arith)

encode : Rtcm B → ℕ → ℕ → Rtcm B × Bool
encode r type sync =
    (record r { buff = put r.buff 24 ((12, type) ∷ (1, sync) ∷ []); nbit = 37 }, true)

decode : Rtcm B → Rtcm B × ℤ
decode r = (r, pos 5)

start-IsPut :
    IsPut blank.buff 0 ((8, rtcm3_preamb) ∷ (6, 0) ∷ (10, 0) ∷ []) (start_frame blank).buff
unfolding start_frame
start-IsPut = put-IsPut _ blank.buff 0 blank-IsBytes (omega arith) (omega arith)

encode-IsEncoded : IsEncoded (start_frame blank) (encode (start_frame blank) 1005 1).0
unfolding encode
encode-IsEncoded =
    let p =
      put-IsPut ((12, 1005) ∷ (1, 1) ∷ []) (start_frame blank).buff 24 start-IsPut.bytes
        (omega arith) (omega (arith, start-IsPut.same_length)) in
    record {
      extends = record { same_length = p.same_length; bytes = p.bytes; before = p.before };
      starts = omega arith;
      room = omega (arith, p.same_length, start-IsPut.same_length);
    }

gen_done : (gen_rtcm3 encode blank 1005 1).1 ≡ true
unfolding gen_rtcm3 encode start_frame close_frame pad put setbitu write_loop write_bit
gen_done = refl

gen_len : (gen_rtcm3 encode blank 1005 1).0.len ≡ 5
unfolding gen_rtcm3 encode start_frame close_frame pad put setbitu write_loop write_bit
gen_len = refl

gen_rtcm3_iff_example : ((gen_rtcm3 encode blank 1005 1).1 ≡ true) ↔ (
    ((encode (start_frame blank) 1005 1).1 ≡ true)
    × ((encode (start_frame blank) 1005 1).0.nbit ≤ 8 * 1026))
gen_rtcm3_iff_example =
    gen_rtcm3_iff encode blank 1005 1 blank-IsBytes (omega arith) encode-IsEncoded

gen_rtcm3-feed_example :
    let out = (gen_rtcm3 encode blank 1005 1).0 in
    let x : Rtcm B = record blank {
      buff = store blank.buff 0 (take out.nbyte out.buff);
      nbyte = 0;
      len = out.len;
    } in
    (feed decode blank (take out.nbyte out.buff)
      ≡ ((decode x).0, statuses (out.len + 2) (decode x).1))
    × ((q n : ℕ)
        → n ≤ 32
        → 24 ≤ q
        → q + n ≤ (encode (start_frame blank) 1005 1).0.nbit
        → getbitu x.buff q n ≡ getbitu (encode (start_frame blank) 1005 1).0.buff q n)
gen_rtcm3-feed_example =
    gen_rtcm3-feed encode decode blank 1005 1 blank-IsBytes (omega arith) encode-IsEncoded gen_done
      blank refl (rw gen_len (omega arith))

input_rtcm3f-gen_rtcm3_example :
    let out = (gen_rtcm3 encode blank 1005 1).0 in
    let x : Rtcm B = record blank {
      buff = store blank.buff 0 (take out.nbyte out.buff);
      nbyte = 0;
      len = out.len;
    } in
    input_rtcm3f decode blank (take out.nbyte out.buff ++ (0xd3 ∷ 9 ∷ []))
    ≡ ((decode x).0, ((decode x).1, 0xd3 ∷ 9 ∷ []))
unfolding decode no_status
input_rtcm3f-gen_rtcm3_example =
    input_rtcm3f-gen_rtcm3 encode decode blank 1005 1 blank-IsBytes (omega arith) encode-IsEncoded
      gen_done blank refl (0xd3 ∷ 9 ∷ []) (rw gen_len (omega arith)) refl

replicate-IsBytes : (n : ℕ) → IsBytes (replicate n 0)
replicate-IsBytes zero k = omega arith
replicate-IsBytes (suc n) zero = omega arith
replicate-IsBytes (suc n) (suc k) = replicate-IsBytes n k

abbrev line : List ℕ
line = 0xd3 ∷ 0 ∷ 2 ∷ 62 ∷ 216 ∷ 5 ∷ 97 ∷ 57 ∷ []

gen_line : take 8 (gen_rtcm3 encode blank 1005 1).0.buff ≡ line
unfolding gen_rtcm3 encode start_frame close_frame pad put setbitu write_loop write_bit rtk_crc24q
    crc24q_loop crc24q_step
gen_line = refl

-- Noise, then the frame: the decoder's status comes with the last byte.
noisy_statuses : (feed decode blank (1 ∷ 2 ∷ line)).1 ≡ statuses 9 (pos 5)
unfolding feed input_rtcm3 collect check_parity decode getbitu read_loop rtk_crc24q crc24q_loop
    crc24q_step
noisy_statuses = refl

line-IsCarried : IsCarried line 5
line-IsCarried = record {
  bytes = AllBytes-IsBytes line (omega arith);
  whole = refl;
  preamble = refl;
  counted = refl;
}

line_parity : getbitu line (5 * 8) 24 ≡ rtk_crc24q line 5
unfolding getbitu read_loop rtk_crc24q crc24q_loop crc24q_step
line_parity = refl

abbrev spoiled : List ℕ
spoiled = set line 4 217

feed_damaged_example :
    feed decode blank spoiled
    ≡ (record blank { buff = store blank.buff 0 spoiled; nbyte = 0; len = 5 }, statuses 7 (pos 0))
feed_damaged_example =
    feed_damaged line spoiled 5 4 line-IsCarried (AllBytes-IsBytes spoiled (omega arith)) refl
      (omega arith) (omega arith) (λ j h. sym (get_or-set_ne line 4 j 217 0 (λ e. h (sym e))))
      (omega arith) line_parity decode blank refl (omega arith)

abbrev roomy : Rtcm B
roomy = record { nbyte = 0; nbit = 0; len = 0; buff = replicate 1029 0; body = tt }

roomy-IsReceiving : IsReceiving roomy
roomy-IsReceiving = record {
  bytes = replicate-IsBytes 1029;
  room = omega arith;
  counters = inl (omega arith);
}

decode_reads : (r : Rtcm B) → ((decode r).0.buff ≡ r.buff) × ((decode r).0.nbyte ≡ r.nbyte)
unfolding decode
decode_reads r = (refl, refl)

feed_in_bounds_example :
    let s = (feed decode roomy (7 ∷ line)).0 in IsReceiving s × (s.nbyte < length s.buff)
feed_in_bounds_example =
    feed_in_bounds decode decode_reads (7 ∷ line) roomy (omega arith) roomy-IsReceiving
