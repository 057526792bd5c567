-- ===== src/Bits/Fields.antt =====
-- Consecutive fields: the chains `setbitu(buff,i,len,v); i+=len;` by which the encoders build a
-- message, and what a reader finds at each position.
use go_ntrip.Base.{
  ℕ, ◌+◌, ◌*◌, ◌%◌, ◌^◌, ◌≤◌, ◌<◌, ◌≡◌, refl, ◌∙◌, List, [], ◌∷◌, length, arith, inl, inr,
}
use go_ntrip.Bits.{getbitu, setbitu}
use go_ntrip.Bits.Cell.{IsBytes}
use go_ntrip.Bits.Ranges.{setbitu-Written, getbitu-setbitu, getbitu-setbitu_apart}

-- The fields as lengths and words, written from bit `i` on.
unfoldable pub put : List ℕ → ℕ → List (ℕ × ℕ) → List ℕ
put buff i [] = buff
put buff i ((len, word) ∷ fs) = put (setbitu buff i len word) (i + len) fs

abbrev pub width : List (ℕ × ℕ) → ℕ
width [] = 0
width ((len, word) ∷ fs) = len + width fs

abbrev pub AreFields : List (ℕ × ℕ) → Type 0
AreFields [] = Unit {0}
AreFields ((len, word) ∷ fs) = (0 < len) × (len ≤ 32) × AreFields fs

-- The fields are found at their places, each cut to its length.
abbrev pub Holds : List ℕ → ℕ → List (ℕ × ℕ) → Type 0
Holds buff i [] = Unit {0}
Holds buff i ((len, word) ∷ fs) = (getbitu buff i len ≡ word % 2 ^ len) × Holds buff (i + len) fs

pub record IsPut (buff : List ℕ) (i : ℕ) (fs : List (ℕ × ℕ)) (out : List ℕ) : Type 0 where
  pub same_length : length out ≡ length buff
  pub bytes : IsBytes out
  pub holds : Holds out i fs
  pub before : (q n : ℕ) → n ≤ 32 → q + n ≤ i → getbitu out q n ≡ getbitu buff q n
  pub after : (q n : ℕ) → n ≤ 32 → i + width fs ≤ q → getbitu out q n ≡ getbitu buff q n

IsPut-cons :
    (buff : List ℕ) (i len word : ℕ) (fs : List (ℕ × ℕ)) {out : List ℕ}
    → IsBytes buff
    → 0 < len
    → len ≤ 32
    → i + len ≤ 8 * length buff
    → IsPut (setbitu buff i len word) (i + len) fs out
    → IsPut buff i ((len, word) ∷ fs) out
IsPut-cons buff i len word fs bytes some_bits small fits rest =
    let w = setbitu-Written buff i len word bytes some_bits small fits in
    record {
      same_length = rest.same_length ∙ w.same_length;
      bytes = rest.bytes;
      holds = (
        rest.before i len small (omega arith)
            ∙ getbitu-setbitu buff i len word bytes some_bits small fits,
        rest.holds,
      );
      before = λ q n narrow h.
          rest.before q n narrow (omega arith)
          ∙ getbitu-setbitu_apart buff i len word bytes some_bits small fits q n narrow (inl h);
      after = λ q n narrow h.
          rest.after q n narrow (omega arith)
          ∙ getbitu-setbitu_apart buff i len word bytes some_bits small fits q n narrow
              (inr (omega arith));
    }

-- Consecutive fields of 1 to 32 bits, written by setbitu from some bit of a buffer of bytes that
-- has room for them, are each read back by getbitu as the word cut to its length; the buffer stays
-- a buffer of bytes of the same length, and every range before or after them reads as before.
pub put-IsPut :
    (fs : List (ℕ × ℕ)) (buff : List ℕ) (i : ℕ)
    → IsBytes buff
    → AreFields fs
    → i + width fs ≤ 8 * length buff
    → IsPut buff i fs (put buff i fs)
unfolding put
put-IsPut [] buff i bytes ok fits = record {
  same_length = refl;
  bytes = bytes;
  holds = tt;
  before = λ q n narrow h. refl;
  after = λ q n narrow h. refl;
}
put-IsPut ((len, word) ∷ fs) buff i bytes ok fits =
    let w = setbitu-Written buff i len word bytes ok.0 ok.1 (omega arith) in
    IsPut-cons buff i len word fs bytes ok.0 ok.1 (omega arith)
      (put-IsPut fs _ (i + len) w.bytes ok.2 (omega (arith, w.same_length)))
