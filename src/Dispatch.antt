-- ===== src/Dispatch.antt =====
-- c/rtklib/rtcm3.c, `decode_rtcm3`, and rtcm3e.c, `encode_rtcm3`: which handler a message number
-- calls, and the counters of messages. The handlers are arguments; the switches are the tables of
-- Dispatch.Tables.
pub mod Tables
pub mod Match
use go_ntrip.Base.{
  ℕ, zero, suc, ◌+◌, ◌-◌, List, [], ◌∷◌, Bool, true, false, ◌&&◌, leb, ◌==◌, if◌then◌else◌, Option,
  none, some, ℤ, pos, negsuc,
}
use go_ntrip.Bits.{getbitu}
use go_ntrip.Rtcm.{Rtcm}
use go_ntrip.Satellite.{System}
use go_ntrip.Msm.{CompactMsm, FullMsm}
use go_ntrip.Dispatch.Tables.{Decoder, Decoder.type_, Encoder, decoders, encoders}

-- The call of a `case`, none for a number that the switch does not have.
unfoldable pub lookup {ℓ} : {A : Type ℓ} → List (ℕ × A) → ℕ → Option A
lookup [] type = none
lookup (entry ∷ entries) type =
    let rest = lookup entries type in if entry.0 == type then some entry.1 else rest

-- The member `nmsg3` beside the state that the handlers use.
pub record Counted (B : Type 0) : Type 0 where
  pub inner : B
  pub nmsg3 : ℕ → ℕ

-- `type-=1000; if (1<=type&&type<=299) rtcm->nmsg3[type]++; else rtcm->nmsg3[0]++;`
unfoldable pub count : (ℕ → ℕ) → ℕ → ℕ → ℕ
count nmsg3 type k =
    let place = if leb 1001 type && leb type 1299 then type - 1000 else 0 in
    if k == place then nmsg3 k + 1 else nmsg3 k

unfoldable pub is_counted : ℤ → Bool
is_counted (pos n) = true
is_counted (negsuc n) = false

module _ {B : Type 0} where
  -- The state without the counters, and with them again.
  unfoldable pub inside : Rtcm (Counted B) → Rtcm B
  inside r = record {
    nbyte = r.nbyte;
    nbit = r.nbit;
    len = r.len;
    buff = r.buff;
    body = r.body.inner;
  }

  unfoldable pub outside : (ℕ → ℕ) → Rtcm B → Rtcm (Counted B)
  outside nmsg3 r = record {
    nbyte = r.nbyte;
    nbit = r.nbit;
    len = r.len;
    buff = r.buff;
    body = record { inner = r.body; nmsg3 = nmsg3 };
  }

  -- What a decoder leaves, with its message counted unless it failed.
  unfoldable pub with_count : (ℕ → ℕ) → ℕ → Rtcm B × ℤ → Rtcm (Counted B) × ℤ
  with_count nmsg3 type out =
      (outside (if is_counted out.1 then count nmsg3 type else nmsg3) out.0, out.1)

  -- `real_time` is what the option "-RT_INP" does to the time, nothing without it.
  unfoldable pub decode_rtcm3 :
      (Decoder → Rtcm B → Rtcm B × ℤ) → (B → B) → Rtcm (Counted B) → Rtcm (Counted B) × ℤ
  decode_rtcm3 run real_time r =
      let type = getbitu r.buff 24 12 in
      let start = record (inside r) { body = real_time r.body.inner } in
      let out : Rtcm B × ℤ = elim (lookup decoders type) [
        | none ↦ (start, pos 0)
        | some decoder ↦ run decoder start
      ] in
      with_count r.body.nmsg3 type out

  unfoldable pub encode_rtcm3 :
      (Encoder → ℕ → Rtcm B → Rtcm B × Bool) → Rtcm (Counted B) → ℕ → ℕ → Rtcm (Counted B) × Bool
  encode_rtcm3 run r type sync =
      let out : Rtcm B × Bool = elim (lookup encoders type) [
        | none ↦ (inside r, false)
        | some encoder ↦ run encoder sync (inside r)
      ] in
      (outside (if out.1 then count r.body.nmsg3 type else r.body.nmsg3) out.0, out.1)
