-- ===== src/Bits/Column.antt =====
-- Columns: the loops of the encoders and decoders over satellites or cells, which write or read one
-- field for each of them.
use go_ntrip.Base.{
  ℕ, zero, suc, ◌+◌, ◌*◌, ◌≡◌, refl, ap₂, subst, List, [], ◌∷◌, ◌++◌, map, length, arith,
}
use go_ntrip.Bits.{getbitu, getbits}
use go_ntrip.Bits.Message.{Field, Field.u, Field.s, Field.us, field_length, AllFit, Reads, total}

-- `for (j=0;j<n;j++) {w[j]=getbitu(buff,i,len); i+=len;}`
unfoldable pub read_column : List ℕ → ℕ → ℕ → ℕ → List ℕ
read_column buff i len zero = []
read_column buff i len (suc n) = getbitu buff i len ∷ read_column buff (i + len) len n

-- The same with getbits.
unfoldable pub read_signed : List ℕ → ℕ → ℕ → ℕ → List ℕ
read_signed buff i len zero = []
read_signed buff i len (suc n) = getbits buff i len ∷ read_signed buff (i + len) len n

-- `for (j=0;j<n;j++) {setbitu(buff,i,len,w[j]); i+=len;}` as fields, and the two signed forms.
abbrev pub column : ℕ → List ℕ → List Field
column len ws = map (u len) ws

abbrev pub signed_column : ℕ → List ℕ → List Field
signed_column len ws = map (s len) ws

abbrev pub unsigned_column : ℕ → List ℕ → List Field
unsigned_column len ws = map (us len) ws

pub total-append : (fs gs : List Field) → total (fs ++ gs) ≡ total fs + total gs
total-append [] gs = omega arith
total-append (f ∷ fs) gs = omega (arith, total-append fs gs)

pub AllFit-append : (fs gs : List Field) → AllFit fs → AllFit gs → AllFit (fs ++ gs)
AllFit-append [] gs a b = b
AllFit-append (f ∷ fs) gs a b = (a.0, AllFit-append fs gs a.1 b)

pub Reads-append :
    (fs gs : List Field) (buff : List ℕ) (i : ℕ)
    → Reads buff i (fs ++ gs)
    → Reads buff i fs × Reads buff (i + total fs) gs
Reads-append [] gs buff i h = (tt, subst (λ j. Reads buff j gs) {x = i} {y = i + 0} (omega arith) h)
Reads-append (f ∷ fs) gs buff i h =
    let rest = Reads-append fs gs buff (i + field_length f) h.1 in
    (
      (h.0, rest.0),
      subst (λ j. Reads buff j gs) {x = i + field_length f + total fs}
          {y = i + (field_length f + total fs)} (omega arith) rest.1,
    )

pub total-column : (len : ℕ) (ws : List ℕ) → total (column len ws) ≡ length ws * len
total-column len [] = omega arith
total-column len (w ∷ ws) = grind (arith, total-column len ws)

pub total-signed_column : (len : ℕ) (ws : List ℕ) → total (signed_column len ws) ≡ length ws * len
total-signed_column len [] = omega arith
total-signed_column len (w ∷ ws) = grind (arith, total-signed_column len ws)

pub total-unsigned_column :
    (len : ℕ) (ws : List ℕ) → total (unsigned_column len ws) ≡ length ws * len
total-unsigned_column len [] = omega arith
total-unsigned_column len (w ∷ ws) = grind (arith, total-unsigned_column len ws)

-- A column that was written is read as the list of its words.
pub read_column-Reads :
    (buff : List ℕ) (i len : ℕ) (ws : List ℕ)
    → Reads buff i (column len ws)
    → read_column buff i len (length ws) ≡ ws
unfolding read_column
read_column-Reads buff i len [] h = refl
read_column-Reads buff i len (w ∷ ws) h = ap₂ ◌∷◌ h.0 (read_column-Reads buff (i + len) len ws h.1)

pub read_signed-Reads :
    (buff : List ℕ) (i len : ℕ) (ws : List ℕ)
    → Reads buff i (signed_column len ws)
    → read_signed buff i len (length ws) ≡ ws
unfolding read_signed
read_signed-Reads buff i len [] h = refl
read_signed-Reads buff i len (w ∷ ws) h = ap₂ ◌∷◌ h.0 (read_signed-Reads buff (i + len) len ws h.1)

pub read_signed-Reads_unsigned :
    (buff : List ℕ) (i len : ℕ) (ws : List ℕ)
    → Reads buff i (unsigned_column len ws)
    → read_signed buff i len (length ws) ≡ ws
unfolding read_signed
read_signed-Reads_unsigned buff i len [] h = refl
read_signed-Reads_unsigned buff i len (w ∷ ws) h =
    ap₂ ◌∷◌ h.0 (read_signed-Reads_unsigned buff (i + len) len ws h.1)
