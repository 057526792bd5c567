-- ===== src/Bits/Message.antt =====
-- Messages: the unsigned and signed fields that an encoder writes one after the other by `setbitu`
-- and `setbits`, and what `getbitu` and `getbits` find at their places.
use native.Mathlib.Nat.{mod-eq_of_lt}
use go_ntrip.Base.{
  ℕ, zero, suc, ◌+◌, ◌-◌, ◌*◌, ◌%◌, ◌^◌, ◌≤◌, ◌<◌, ◌≡◌, refl, sym, ap, ◌∙◌, subst, List, [], ◌∷◌,
  length, arith,
}
use go_ntrip.Bits.{getbitu, getbits, setbitu, setbits}
use go_ntrip.Bits.Cell.{IsBytes}
use go_ntrip.Bits.Signed.{FitsSigned, signed_field, getbits-signed_field, signed_field-mod}
use go_ntrip.Bits.Fields.{put, width, AreFields, Holds, put-IsPut}

-- The length and the word of `setbitu(buff,i,len,word)` or `setbits(buff,i,len,word)`; `us` is a
-- signed word that is written by `setbitu` all the same.
pub data Field : Type 0 where
  u s us : ℕ → ℕ → Field

unfoldable pub write_field : List ℕ → ℕ → Field → List ℕ
write_field buff i (u len word) = setbitu buff i len word
write_field buff i (s len word) = setbits buff i len word
write_field buff i (us len word) = setbitu buff i len word

abbrev pub field_length : Field → ℕ
field_length (u len word) = len
field_length (s len word) = len
field_length (us len word) = len

-- `setbit.(buff,i,len,word); i+=len;` for each field: the buffer and the last `i`.
unfoldable pub write_fields : List ℕ → ℕ → List Field → List ℕ × ℕ
write_fields buff i [] = (buff, i)
write_fields buff i (f ∷ fs) = write_fields (write_field buff i f) (i + field_length f) fs

-- A field has 1 to 32 bits and its word fits.
abbrev pub Fits : Field → Type 0
Fits (u len word) = (0 < len) × (len ≤ 32) × (word < 2 ^ len)
Fits (s len word) = (0 < len) × (len ≤ 32) × FitsSigned (len - 1) word
Fits (us len word) = (0 < len) × (len ≤ 32) × FitsSigned (len - 1) word

abbrev pub AllFit : List Field → Type 0
AllFit [] = Unit {0}
AllFit (f ∷ fs) = Fits f × AllFit fs

abbrev pub IsReadAt : List ℕ → ℕ → Field → Type 0
IsReadAt buff i (u len word) = getbitu buff i len ≡ word
IsReadAt buff i (s len word) = getbits buff i len ≡ word
IsReadAt buff i (us len word) = getbits buff i len ≡ word

-- Each field is read at its place as the word that was written.
abbrev pub Reads : List ℕ → ℕ → List Field → Type 0
Reads buff i [] = Unit {0}
Reads buff i (f ∷ fs) = IsReadAt buff i f × Reads buff (i + field_length f) fs

-- The bits of a field.
abbrev pub raw : Field → ℕ × ℕ
raw (u len word) = (len, word)
raw (s len word) = (len, signed_field (len - 1) word)
raw (us len word) = (len, word)

abbrev pub raws : List Field → List (ℕ × ℕ)
raws [] = []
raws (f ∷ fs) = raw f ∷ raws fs

abbrev pub total : List Field → ℕ
total [] = 0
total (f ∷ fs) = field_length f + total fs

write_fields-put :
    (fs : List Field) (buff : List ℕ) (i : ℕ)
    → write_fields buff i fs ≡ (put buff i (raws fs), i + total fs)
unfolding write_fields write_field put setbits
write_fields-put [] buff i = ap (λ (j : ℕ). (buff, j)) {x = i} {y = i + 0} (omega arith)
write_fields-put (u len word ∷ fs) buff i =
    write_fields-put fs (setbitu buff i len word) (i + len)
    ∙ ap (λ (j : ℕ). (put (setbitu buff i len word) (i + len) (raws fs), j))
        {x = i + len + total fs} {y = i + (len + total fs)} (omega arith)
write_fields-put (s len word ∷ fs) buff i =
    write_fields-put fs (setbits buff i len word) (i + len)
    ∙ ap (λ (j : ℕ). (put (setbits buff i len word) (i + len) (raws fs), j))
        {x = i + len + total fs} {y = i + (len + total fs)} (omega arith)
write_fields-put (us len word ∷ fs) buff i =
    write_fields-put fs (setbitu buff i len word) (i + len)
    ∙ ap (λ (j : ℕ). (put (setbitu buff i len word) (i + len) (raws fs), j))
        {x = i + len + total fs} {y = i + (len + total fs)} (omega arith)

width-raws : (fs : List Field) → width (raws fs) ≡ total fs
width-raws [] = refl
width-raws (u len word ∷ fs) = ap (λ (n : ℕ). len + n) (width-raws fs)
width-raws (s len word ∷ fs) = ap (λ (n : ℕ). len + n) (width-raws fs)
width-raws (us len word ∷ fs) = ap (λ (n : ℕ). len + n) (width-raws fs)

pub AllFit-AreFields : (fs : List Field) → AllFit fs → AreFields (raws fs)
AllFit-AreFields [] ok = tt
AllFit-AreFields (u len word ∷ fs) ok = (ok.0.0, ok.0.1, AllFit-AreFields fs ok.1)
AllFit-AreFields (s len word ∷ fs) ok = (ok.0.0, ok.0.1, AllFit-AreFields fs ok.1)
AllFit-AreFields (us len word ∷ fs) ok = (ok.0.0, ok.0.1, AllFit-AreFields fs ok.1)

signed_read :
    (out : List ℕ) (i len word : ℕ)
    → 0 < len
    → len ≤ 32
    → FitsSigned (len - 1) word
    → getbitu out i len ≡ signed_field (len - 1) word % 2 ^ len
    → getbits out i len ≡ word
signed_read out i zero word some_bits small fits e = absurd (omega arith)
signed_read out i (suc n) word some_bits small fits e =
    let pred : suc n - 1 ≡ n = omega arith in
    getbits-signed_field out i n word small (subst (λ m. FitsSigned m word) pred fits)
      (subst (λ m. getbitu out i (suc n) ≡ signed_field m word % 2 ^ suc n) pred e)

unsigned_read :
    (out : List ℕ) (i len word : ℕ)
    → 0 < len
    → len ≤ 32
    → FitsSigned (len - 1) word
    → getbitu out i len ≡ word % 2 ^ len
    → getbits out i len ≡ word
unsigned_read out i zero word some_bits small fits e = absurd (omega arith)
unsigned_read out i (suc n) word some_bits small fits e =
    let pred : suc n - 1 ≡ n = omega arith in
    let fits' = subst (λ m. FitsSigned m word) pred fits in
    getbits-signed_field out i n word small fits' (e ∙ signed_field-mod n word small fits')

Holds-Reads :
    (fs : List Field) (out : List ℕ) (i : ℕ) → AllFit fs → Holds out i (raws fs) → Reads out i fs
Holds-Reads [] out i ok h = tt
Holds-Reads (u len word ∷ fs) out i ok h =
    (h.0 ∙ mod-eq_of_lt ok.0.2, Holds-Reads fs out (i + len) ok.1 h.1)
Holds-Reads (s len word ∷ fs) out i ok h =
    (signed_read out i len word ok.0.0 ok.0.1 ok.0.2 h.0, Holds-Reads fs out (i + len) ok.1 h.1)
Holds-Reads (us len word ∷ fs) out i ok h =
    (unsigned_read out i len word ok.0.0 ok.0.1 ok.0.2 h.0, Holds-Reads fs out (i + len) ok.1 h.1)

pub record IsMessage (buff : List ℕ) (i : ℕ) (fs : List Field) (out : List ℕ × ℕ) : Type 0 where
  pub same_length : length out.0 ≡ length buff
  pub bytes : IsBytes out.0
  pub ends : out.1 ≡ i + total fs
  pub before : (q n : ℕ) → n ≤ 32 → q + n ≤ i → getbitu out.0 q n ≡ getbitu buff q n

pub write_fields-IsMessage :
    (fs : List Field) (buff : List ℕ) (i : ℕ)
    → IsBytes buff
    → AreFields (raws fs)
    → i + total fs ≤ 8 * length buff
    → IsMessage buff i fs (write_fields buff i fs)
write_fields-IsMessage fs buff i bytes ok fits =
    let p = put-IsPut (raws fs) buff i bytes ok (omega (arith, width-raws fs)) in
    subst (λ out. IsMessage buff i fs out) (sym (write_fields-put fs buff i))
      (record { same_length = p.same_length; bytes = p.bytes; ends = refl; before = p.before })

-- Fields of 1 to 32 bits whose words fit, written one after the other by setbitu and setbits into
-- a buffer of bytes that has room for them, are each read back at their places by getbitu and
-- getbits, the signed ones with their sign.
pub Reads-write_fields :
    (fs : List Field) (buff : List ℕ) (i : ℕ)
    → IsBytes buff
    → AllFit fs
    → i + total fs ≤ 8 * length buff
    → Reads (write_fields buff i fs).0 i fs
Reads-write_fields fs buff i bytes ok fits =
    let p =
      put-IsPut (raws fs) buff i bytes (AllFit-AreFields fs ok) (omega (arith, width-raws fs)) in
    subst (λ out. Reads out i fs) (sym (ap (λ w. w.0) (write_fields-put fs buff i)))
      (Holds-Reads fs _ i ok p.holds)

getbits_same :
    (a b : List ℕ) (i len : ℕ)
    → getbitu a i len ≡ getbitu b i len
    → getbits a i len ≡ getbits b i len
unfolding getbits
getbits_same a b i len e = rw e refl

-- A buffer that agrees on the bits from `from` to `upto`.
unfoldable pub Agrees : List ℕ → List ℕ → ℕ → ℕ → Type 0
Agrees a b from upto = (q n : ℕ) → n ≤ 32 → from ≤ q → q + n ≤ upto → getbitu a q n ≡ getbitu b q n

pub Reads-agree :
    (fs : List Field) (a b : List ℕ) (from i upto : ℕ)
    → AllFit fs
    → from ≤ i
    → i + total fs ≤ upto
    → Agrees a b from upto
    → Reads b i fs
    → Reads a i fs
unfolding Agrees
Reads-agree [] a b from i upto ok low high same reads = tt
Reads-agree (u len word ∷ fs) a b from i upto ok low high same reads = (
  same i len ok.0.1 low (omega arith) ∙ reads.0,
  Reads-agree fs a b from (i + len) upto ok.1 (omega arith) (omega arith) same reads.1,
)
Reads-agree (s len word ∷ fs) a b from i upto ok low high same reads = (
  getbits_same a b i len (same i len ok.0.1 low (omega arith)) ∙ reads.0,
  Reads-agree fs a b from (i + len) upto ok.1 (omega arith) (omega arith) same reads.1,
)
Reads-agree (us len word ∷ fs) a b from i upto ok low high same reads = (
  getbits_same a b i len (same i len ok.0.1 low (omega arith)) ∙ reads.0,
  Reads-agree fs a b from (i + len) upto ok.1 (omega arith) (omega arith) same reads.1,
)

pub write_fields_end :
    (fs : List Field) (buff : List ℕ) (i : ℕ) → (write_fields buff i fs).1 ≡ i + total fs
write_fields_end fs buff i = ap (λ w. w.1) (write_fields-put fs buff i)
