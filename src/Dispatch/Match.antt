-- ===== src/Dispatch/Match.antt =====
-- The two switches fit: what `encode_rtcm3` sends under a number, `decode_rtcm3` hands to the decoder
-- of the same message.
use go_ntrip.Base.{
  ℕ, ◌+◌, ◌*◌, ◌≤◌, ◌≡◌, refl, sym, ap, ap₂, ◌∙◌, subst, List, [], ◌∷◌, map, get_or, drop, length,
  Bool, true, ◌==◌, Bool-cases, if◌then◌else◌, some, ℤ, inl, inr, arith,
}
use go_ntrip.Bits.{getbitu}
use go_ntrip.Bits.Cell.{IsBytes}
use go_ntrip.Bits.Message.{AllFit, Agrees, total}
use go_ntrip.Rtcm.{Rtcm}
use go_ntrip.Satellite.{System}
use go_ntrip.Station.{test_staid}
use go_ntrip.Obs.{ObsState}
use go_ntrip.Msm.{FullMsm, compact_number, full_number, head_fields}
use go_ntrip.Msm.Values.{Setup}
use go_ntrip.Msm.Encode.{first_number, msm_body, encode_full, full_words}
use go_ntrip.Msm.Decode.{Priorities, decode_msm}
use go_ntrip.Msm.RoundTrip.{with_cells}
use go_ntrip.Msm.Sent.{sent_body, sent_fields, received, decode_msm-encode_full}
use go_ntrip.Dispatch.Tables.{
  Decoder, Decoder.type_, Decoder.ssr, Decoder.msm0, Decoder.msm, Encoder, Encoder.of_type,
  Encoder.of_ssr, Encoder.compact, Encoder.full, decoders, encoders,
}
use go_ntrip.Dispatch.{
  lookup, Counted, inside, outside, count, with_count, decode_rtcm3, encode_rtcm3,
}

-- The decoder of an encoder's message: the draft number 63 is BeiDou's 1042, and MSM1 to MSM3 have
-- one decoder for each system.
abbrev pub counterpart : Encoder → Decoder
counterpart (of_type n) = if n == 63 then type_ 1042 else type_ n
counterpart (of_ssr n sys) = ssr n sys
counterpart (compact kind sys) = msm0 sys
counterpart (full kind sys) = msm kind sys

-- The number that the head of a multiple signal message says; that of the others is not stated.
abbrev head_number : ℕ → Encoder → ℕ
head_number n (of_type m) = n
head_number n (of_ssr m sys) = n
head_number n (compact kind sys) = first_number sys + compact_number kind
head_number n (full kind sys) = first_number sys + full_number kind

module _ {ℓ ℓ'} {A : Type ℓ} {B : Type ℓ'} (f g : ℕ × A → B) where
  -- What holds of every entry of a table holds of the one that is found.
  lookup_lem :
      (table : List (ℕ × A)) (n : ℕ) (a : A)
      → map f table ≡ map g table
      → lookup table n ≡ some a
      → f (n, a) ≡ g (n, a)
  unfolding lookup
  lookup_lem [] n a e found = absurd (ground arith)
  lookup_lem (entry ∷ table) n a e found = elim (Bool-cases (entry.0 == n)) [
    | inl here ↦
        let first : f entry ≡ g entry = ap (λ l. get_or l 0 (f entry)) e in
        let key : entry.0 ≡ n = ground arith in
        let value : entry.1 ≡ a = ground arith in
        let same : entry ≡ (n, a) = ap₂ (λ m b. (m, b)) key value in
        subst (λ p. f p ≡ g p) same first
    | inr other ↦ lookup_lem table n a (ap (drop 1) e) (ground arith)
  ]

all_decoded :
    map (λ e. lookup decoders e.0) encoders
    ≡ map (λ (e : ℕ × Encoder). some (counterpart e.1)) encoders
unfolding lookup
all_decoded = refl

all_numbered : map (λ (e : ℕ × Encoder). e.0) encoders ≡ map (λ e. head_number e.0 e.1) encoders
unfolding first_number
all_numbered = refl

-- For every number that encode_rtcm3 has a case for, decode_rtcm3 has one, and it calls the
-- decoder of the same message and system; the draft number 63 goes to 1042, and MSM1 to MSM3 to
-- the decoder that reads their head.
pub lookup-counterpart :
    (n : ℕ) (e : Encoder) → lookup encoders n ≡ some e → lookup decoders n ≡ some (counterpart e)
lookup-counterpart n e found =
    lookup_lem (λ p. lookup decoders p.0) (λ p. some (counterpart p.1)) encoders n e all_decoded
      found

lookup_number :
    (n : ℕ) (kind : FullMsm) (sys : System)
    → lookup encoders n ≡ some (full kind sys)
    → n ≡ first_number sys + full_number kind
lookup_number n kind sys found =
    lookup_lem (λ p. p.0) (λ p. head_number p.0 p.1) encoders n (full kind sys) all_numbered found

module _ {B : Type 0} where
  encode_rtcm3_found :
      (run : Encoder → ℕ → Rtcm B → Rtcm B × Bool) (r : Rtcm (Counted B)) (n sync : ℕ) (e : Encoder)
      → lookup encoders n ≡ some e
      → encode_rtcm3 run r n sync ≡ (
        outside
            (if (run e sync (inside r)).1 then count r.body.nmsg3 n else r.body.nmsg3)
            (run e sync (inside r)).0,
        (run e sync (inside r)).1,
      )
  unfolding encode_rtcm3
  encode_rtcm3_found run r n sync e found = rw found refl

  decode_rtcm3_found :
      (run : Decoder → Rtcm B → Rtcm B × ℤ) (real_time : B → B) (t : Rtcm (Counted B)) (n : ℕ)
      (d : Decoder)
      → getbitu t.buff 24 12 ≡ n
      → lookup decoders n ≡ some d
      → decode_rtcm3 run real_time t
        ≡ with_count t.body.nmsg3 n (run d (record (inside t) { body = real_time t.body.inner }))
  unfolding decode_rtcm3
  decode_rtcm3_found run real_time t n d number found = rw (number, found) refl

module _ {D T : Type 0} (x : Setup D T) (sys : System) (kind : FullMsm) (sync n : ℕ)
    (pri : Priorities) (real_time : ObsState D T → ObsState D T)
    (run_encoder : Encoder → ℕ → Rtcm (ObsState D T) → Rtcm (ObsState D T) × Bool)
    (run_decoder : Decoder → Rtcm (ObsState D T) → Rtcm (ObsState D T) × ℤ)
    (r t : Rtcm (Counted (ObsState D T))) where
  -- What the decoder is handed.
  abbrev pub at_decoder : Rtcm (ObsState D T)
  at_decoder = record (inside t) { body = real_time t.body.inner }

  -- When encode_rtcm3 is asked for a number of MSM4 to MSM7 and reports success, the observations
  -- give at most 64 cells, the words fit their fields, the sender's buffer has room for the
  -- message, a receiver's buffer agrees with it on the bits of the message and is long enough, and
  -- the receiver's test of the station id accepts the sender's, decode_rtcm3 finds that number in
  -- the message and runs the decoder of the same kind and system, which saves what the words say,
  -- and counts the message under its number unless the decoder failed.
  pub decode_rtcm3-encode_rtcm3 :
      lookup encoders n ≡ some (full kind sys)
      → run_encoder (full kind sys) ≡ encode_full x kind sys
      → run_decoder (msm kind sys) ≡ decode_msm x sys pri kind
      → IsBytes r.buff
      → (encode_rtcm3 run_encoder r n sync).1 ≡ true
      → (sent_body x sys kind sync (inside r)).index.nsat
          * (sent_body x sys kind sync (inside r)).index.nsig
        ≤ 64
      → AllFit (sent_fields x sys kind sync (inside r))
      → 24 + total (sent_fields x sys kind sync (inside r)) ≤ 8 * length r.buff
      → 24 + total (sent_fields x sys kind sync (inside r)) ≤ t.len * 8
      → Agrees t.buff
          (encode_rtcm3 run_encoder r n sync).0.buff
          24
          (encode_rtcm3 run_encoder r n sync).0.nbit
      → (test_staid (real_time t.body.inner).station r.body.inner.station.staid).1 ≡ true
      → decode_rtcm3 run_decoder real_time t
        ≡ with_count t.body.nmsg3 n (
            with_cells x sys
              (sent_body x sys kind sync (inside r)).head
              at_decoder
              pri
              kind
              (full_words x kind (sent_body x sys kind sync (inside r))))
  unfolding inside outside head_fields msm_body
  decode_rtcm3-encode_rtcm3 found encodes decodes bytes sent small fit room long same accepted =
      let start = inside r in
      let e : encode_rtcm3 run_encoder r n sync ≡ _ =
        encode_rtcm3_found run_encoder r n sync (full kind sys) found in
      let ran = ap (λ run. run sync start) encodes in
      let sent' : (encode_full x kind sys sync start).1 ≡ true =
        ap (λ o. o.1) (sym ran) ∙ ap (λ o. o.1) (sym e) ∙ sent in
      let buff = ap (λ o. o.0.buff) e ∙ ap (λ o. o.0.buff) ran in
      let nbit = ap (λ o. o.0.nbit) e ∙ ap (λ o. o.0.nbit) ran in
      let same' =
        subst (λ b. Agrees t.buff b 24 (encode_full x kind sys sync start).0.nbit) buff
          (subst (λ m. Agrees t.buff (encode_rtcm3 run_encoder r n sync).0.buff 24 m) nbit same) in
      let reads = received x sys kind sync start at_decoder bytes sent' fit room same' in
      let number : getbitu t.buff 24 12 ≡ n = reads.0 ∙ sym (lookup_number n kind sys found) in
      decode_rtcm3_found run_decoder real_time t n (msm kind sys) number
        (lookup-counterpart n (full kind sys) found)
      ∙ ap (λ run. with_count t.body.nmsg3 n (run at_decoder)) decodes
      ∙ ap (with_count t.body.nmsg3 n) (
          decode_msm-encode_full x sys kind sync start pri at_decoder bytes sent' small fit room
            long same' accepted)
