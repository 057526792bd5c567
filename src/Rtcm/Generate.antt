-- ===== src/Rtcm/Generate.antt =====
-- `gen_rtcm3`: from a message that an encoder has written to a whole frame.
use native.Mathlib.Nat.{mod-eq_of_lt}
use go_ntrip.Base.{
  ℕ, zero, suc, ◌+◌, ◌-◌, ◌*◌, ◌/◌, ◌%◌, ◌^◌, ◌≤◌, ◌<◌, ◌≡◌, ◌≢◌, refl, sym, ap, ◌∙◌, List, [], ◌∷◌,
  ◌⊎◌, ◌↔◌, inl, inr, length, Bool, true, leb, ◌==◌, Bool-cases, arith,
}
use go_ntrip.Bits.{byte_at, getbitu, setbitu}
use go_ntrip.Bits.Cell.{IsBytes}
use go_ntrip.Bits.Ranges.{Written, setbitu-Written, getbitu-setbitu, getbitu-setbitu_apart}
use go_ntrip.Bits.Fields.{put-IsPut, IsPut}
use go_ntrip.Crc.{rtk_crc24q}
use go_ntrip.Crc.Detect.{crc24q_ext, crc24q-lt}
use go_ntrip.Rtcm.{Rtcm, rtcm3_preamb, pad, start_frame, close_frame, gen_rtcm3}
use go_ntrip.Rtcm.Header.{getbitu_byte}

-- `out` has what `buff` has on the first `i` bits.
pub record Extends (buff : List ℕ) (i : ℕ) (out : List ℕ) : Type 0 where
  pub same_length : length out ≡ length buff
  pub bytes : IsBytes out
  pub before : (q n : ℕ) → n ≤ 32 → q + n ≤ i → getbitu out q n ≡ getbitu buff q n

Extends-trans : {a b c : List ℕ} (i j : ℕ) → i ≤ j → Extends a i b → Extends b j c → Extends a i c
Extends-trans i j h e f = record {
  same_length = f.same_length ∙ e.same_length;
  bytes = f.bytes;
  before = λ q n narrow k. f.before q n narrow (omega arith) ∙ e.before q n narrow k;
}

setbitu-Extends :
    (buff : List ℕ) (pos len word : ℕ)
    → IsBytes buff
    → 0 < len
    → len ≤ 32
    → pos + len ≤ 8 * length buff
    → Extends buff pos (setbitu buff pos len word)
setbitu-Extends buff pos len word bytes some_bits small fits =
    let w = setbitu-Written buff pos len word bytes some_bits small fits in
    record {
      same_length = w.same_length;
      bytes = w.bytes;
      before = λ q n narrow h.
          getbitu-setbitu_apart buff pos len word bytes some_bits small fits q n narrow (inl h);
    }

-- Up to seven zero bits take the message to a whole number of bytes.
pub record IsPadded (buff : List ℕ) (i : ℕ) (p : List ℕ × ℕ) : Type 0 where
  pub extends : Extends buff i p.0
  pub aligned : p.1 % 8 ≡ 0
  pub least : (i ≤ p.1) × (p.1 < i + 8)

IsPadded-nil : (buff : List ℕ) (i : ℕ) → IsBytes buff → i % 8 ≡ 0 → IsPadded buff i (buff, i)
IsPadded-nil buff i bytes e = record {
  extends = record { same_length = refl; bytes = bytes; before = λ q n narrow h. refl };
  aligned = e;
  least = omega arith;
}

pad-IsPadded :
    (fuel : ℕ) (buff : List ℕ) (i : ℕ)
    → IsBytes buff
    → i + fuel ≤ 8 * length buff
    → (i % 8 ≡ 0) ⊎ (8 ≤ i % 8 + fuel)
    → IsPadded buff i (pad fuel buff i)
unfolding pad
pad-IsPadded zero buff i bytes fits enough = IsPadded-nil buff i bytes (omega arith)
pad-IsPadded (suc fuel) buff i bytes fits enough =
    let e = setbitu-Extends buff i 1 0 bytes (omega arith) (omega arith) (omega arith) in
    let rest =
      pad-IsPadded fuel (setbitu buff i 1 0) (i + 1) e.bytes (omega (arith, e.same_length)) in
    elim (Bool-cases (i % 8 == 0)) [
      | inl done ↦ rw done (IsPadded-nil buff i bytes (ground arith))
      | inr more ↦
          let p = rest (ground arith) in
          let off : i % 8 ≢ 0 = λ z. absurd (ground arith) in
          rw more (record {
            extends = Extends-trans i (i + 1) (omega arith) e p.extends;
            aligned = p.aligned;
            least = omega (arith, p.least, p.aligned);
          })
    ]

-- What the framing asks of an encoder: it writes the message behind the header, leaves room for
-- padding and parity, and counts its bits.
pub record IsEncoded {ℓ} {B : Type ℓ} (r s : Rtcm B) : Type ℓ where
  pub extends : Extends r.buff 24 s.buff
  pub starts : 24 ≤ s.nbit
  pub room : s.nbit + 31 ≤ 8 * length s.buff

-- A frame of `len` bytes without its parity.
pub record IsFrame (buff : List ℕ) (len : ℕ) : Type 0 where
  pub preamble : getbitu buff 0 8 ≡ rtcm3_preamb
  pub reserved : getbitu buff 8 6 ≡ 0
  pub length_field : getbitu buff 14 10 + 3 ≡ len
  pub parity : getbitu buff (len * 8) 24 ≡ rtk_crc24q buff len

-- The end of `gen_rtcm3` on a message with the header in front.
module _ (msg : List ℕ) (nbit : ℕ) (bytes : IsBytes msg) (starts : 24 ≤ nbit)
    (room : nbit + 31 ≤ 8 * length msg) (preamble : getbitu msg 0 8 ≡ rtcm3_preamb)
    (reserved : getbitu msg 8 6 ≡ 0) where
  abbrev padded : List ℕ × ℕ
  padded = pad 8 msg nbit

  padded-IsPadded : IsPadded msg nbit padded
  padded-IsPadded = pad-IsPadded 8 msg nbit bytes (omega arith) (omega arith)

  abbrev len : ℕ
  len = padded.1 / 8

  abbrev field : ℕ
  field = (len + 2 ^ 32 - 3) % 2 ^ 32

  abbrev counted : List ℕ
  counted = setbitu padded.0 14 10 field

  abbrev framed : List ℕ
  framed = setbitu counted padded.1 24 (rtk_crc24q counted len)

  module _ (short : len ≤ 1026) where
    len_bits : padded.1 ≡ len * 8
    len_bits = omega (arith, padded-IsPadded.aligned)

    bounds : (3 ≤ len) × (len * 8 + 24 ≤ 8 * length padded.0)
    bounds =
        let p = padded-IsPadded in
        (omega (arith, p.least, len_bits), omega (arith, p.least, p.extends.same_length, len_bits))

    counted-Written : Written padded.0 14 10 field counted
    counted-Written =
        setbitu-Written padded.0 14 10 field padded-IsPadded.extends.bytes (omega arith)
          (omega arith) (omega (arith, bounds))

    framed-Extends : Extends counted padded.1 framed
    framed-Extends =
        setbitu-Extends counted padded.1 24 _ counted-Written.bytes (omega arith) (omega arith)
          (omega (arith, bounds, len_bits, counted-Written.same_length))

    same_byte : (k : ℕ) → k < len → byte_at counted k ≡ byte_at framed k
    same_byte k h =
        sym (getbitu_byte counted counted-Written.bytes k)
        ∙ sym (framed-Extends.before (8 * k) 8 (omega arith) (omega (arith, len_bits)))
        ∙ getbitu_byte framed framed-Extends.bytes k

    apart :
        (q n : ℕ) → n ≤ 32 → (q + n ≤ 14) ⊎ (24 ≤ q) → getbitu counted q n ≡ getbitu padded.0 q n
    apart q n narrow h =
        getbitu-setbitu_apart padded.0 14 10 field padded-IsPadded.extends.bytes (omega arith)
          (omega arith) (omega (arith, bounds)) q n narrow h

    header : (q n : ℕ) → n ≤ 32 → q + n ≤ 14 → getbitu framed q n ≡ getbitu msg q n
    header q n narrow h =
        framed-Extends.before q n narrow (omega (arith, bounds, len_bits))
        ∙ apart q n narrow (inl h)
        ∙ padded-IsPadded.extends.before q n narrow (omega arith)

    -- The message itself is not touched.
    message : (q n : ℕ) → n ≤ 32 → 24 ≤ q → q + n ≤ nbit → getbitu framed q n ≡ getbitu msg q n
    message q n narrow h k =
        framed-Extends.before q n narrow (omega (arith, padded-IsPadded.least))
        ∙ apart q n narrow (inr h)
        ∙ padded-IsPadded.extends.before q n narrow k

    framed-IsFrame : IsFrame framed len
    framed-IsFrame = record {
      preamble = header 0 8 (omega arith) (omega arith) ∙ preamble;
      reserved = header 8 6 (omega arith) (omega arith) ∙ reserved;
      length_field = omega (
        arith,
        framed-Extends.before 14 10 (omega arith) (omega (arith, bounds, len_bits)),
        getbitu-setbitu padded.0 14 10 field padded-IsPadded.extends.bytes (omega arith)
            (omega arith) (omega (arith, bounds)),
        bounds,
      );
      parity =
          ap (λ i. getbitu framed i 24) (sym len_bits)
          ∙ getbitu-setbitu counted padded.1 24 _ counted-Written.bytes (omega arith) (omega arith)
              (omega (arith, bounds, len_bits, counted-Written.same_length))
          ∙ mod-eq_of_lt (crc24q-lt counted counted-Written.bytes len)
          ∙ crc24q_ext counted framed len same_byte;
    }

-- What a successful call leaves: a frame with correct length and parity around the message that
-- the encoder wrote, the counts set for sending it.
pub record IsGenerated {ℓ} {B : Type ℓ} (s r : Rtcm B) : Type ℓ where
  pub frame : IsFrame r.buff r.len
  pub bytes : IsBytes r.buff
  pub same_length : length r.buff ≡ length s.buff
  pub sent : r.nbyte ≡ r.len + 3
  pub short : (3 ≤ r.len) × (r.len ≤ 1026)
  pub fits : r.len + 3 ≤ length r.buff
  pub whole : (s.nbit ≤ 8 * r.len) × (8 * r.len < s.nbit + 8)
  pub message :
      (q n : ℕ) → n ≤ 32 → 24 ≤ q → q + n ≤ s.nbit → getbitu r.buff q n ≡ getbitu s.buff q n

module _ {ℓ} {B : Type ℓ} where
  abbrev len_of : Rtcm B → ℕ
  len_of s = (pad 8 s.buff s.nbit).1 / 8

  too_long : (s : Rtcm B) → leb 1027 (len_of s) ≡ true → (close_frame s).1 ≡ true → ⊥
  unfolding close_frame
  too_long s long done = ground arith

  close_frame-IsGenerated :
      (r s : Rtcm B)
      → IsEncoded r s
      → getbitu r.buff 0 8 ≡ rtcm3_preamb
      → getbitu r.buff 8 6 ≡ 0
      → (close_frame s).1 ≡ true
      → IsGenerated s (close_frame s).0
  unfolding close_frame
  close_frame-IsGenerated r s e p q done = elim (Bool-cases (leb 1027 (len_of s))) [
    | inl long ↦ absurd (too_long s long done)
    | inr short ↦
        let fits : len_of s ≤ 1026 = ground arith in
        let pre = e.extends.before 0 8 (omega arith) (omega arith) ∙ p in
        let res = e.extends.before 8 6 (omega arith) (omega arith) ∙ q in
        let padded = padded-IsPadded s.buff s.nbit e.extends.bytes e.starts e.room pre res in
        let counts = bounds s.buff s.nbit e.extends.bytes e.starts e.room pre res fits in
        let wrote = counted-Written s.buff s.nbit e.extends.bytes e.starts e.room pre res fits in
        let out = framed-Extends s.buff s.nbit e.extends.bytes e.starts e.room pre res fits in
        rw short (record {
          frame = framed-IsFrame s.buff s.nbit e.extends.bytes e.starts e.room pre res fits;
          bytes = out.bytes;
          same_length = out.same_length ∙ wrote.same_length ∙ padded.extends.same_length;
          sent = refl;
          short = (counts.0, fits);
          fits = omega (arith, counts, out.same_length, wrote.same_length);
          whole = omega (arith, padded.least, padded.aligned);
          message = message s.buff s.nbit e.extends.bytes e.starts e.room pre res fits;
        })
  ]

module _ {ℓ} {B : Type ℓ} (encode_rtcm3 : Rtcm B → ℕ → ℕ → Rtcm B × Bool) (r : Rtcm B)
    (type sync : ℕ) (bytes : IsBytes r.buff) (room : 3 ≤ length r.buff)
    (encodes : IsEncoded (start_frame r) (encode_rtcm3 (start_frame r) type sync).0) where
  pub start_frame-IsPut :
      IsPut r.buff 0 ((8, rtcm3_preamb) ∷ (6, 0) ∷ (10, 0) ∷ []) (start_frame r).buff
  unfolding start_frame
  start_frame-IsPut = put-IsPut _ r.buff 0 bytes (omega arith) (omega arith)

  abbrev encoded : Rtcm B
  encoded = (encode_rtcm3 (start_frame r) type sync).0

  -- A call that reports success leaves a whole frame around the encoder's message.
  pub gen_rtcm3-IsGenerated :
      (gen_rtcm3 encode_rtcm3 r type sync).1 ≡ true
      → IsGenerated encoded (gen_rtcm3 encode_rtcm3 r type sync).0
  unfolding gen_rtcm3
  gen_rtcm3-IsGenerated done = elim (Bool-cases (encode_rtcm3 (start_frame r) type sync).1) [
    | inl fine ↦ rw fine (
        close_frame-IsGenerated (start_frame r) encoded encodes start_frame-IsPut.holds.0
          start_frame-IsPut.holds.1.0 (rw fine at done))
    | inr failed ↦ absurd (ground arith)
  ]

  -- For an encoder that writes behind the header and leaves room, gen_rtcm3 reports success
  -- exactly when the encoder does and the message with its header has at most 1026 bytes.
  pub gen_rtcm3_iff :
      ((gen_rtcm3 encode_rtcm3 r type sync).1 ≡ true)
      ↔ (((encode_rtcm3 (start_frame r) type sync).1 ≡ true) × (encoded.nbit ≤ 8 * 1026))
  unfolding gen_rtcm3 close_frame
  gen_rtcm3_iff =
      let p =
        pad-IsPadded 8 encoded.buff encoded.nbit encodes.extends.bytes (omega (arith, encodes.room))
          (omega arith) in
      (λ done. ground (arith, p.least, p.aligned), λ h. ground (arith, p.least, p.aligned))
