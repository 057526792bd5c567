-- ===== src/Msm/Columns.antt =====
-- `decode_msm4` to `decode_msm7` read the columns that `encode_msm4` to `encode_msm7` write.
use go_ntrip.Base.{ℕ, ◌+◌, ◌*◌, ◌≡◌, refl, ap, ◌∙◌, subst, List, [], ◌∷◌, ◌++◌, length, arith}
use go_ntrip.Bits.Message.{Field, Reads, total}
use go_ntrip.Bits.Column.{
  read_column, read_signed, column, signed_column, unsigned_column, Reads-append, total-append,
  total-column, total-signed_column, total-unsigned_column, read_column-Reads, read_signed-Reads,
  read_signed-Reads_unsigned,
}
use go_ntrip.Msm.{
  FullMsm, FullMsm.msm4, FullMsm.msm5, FullMsm.msm6, FullMsm.msm7, MsmWords, full_fields,
  message_bits, read_msm,
}

-- Columns of `nsat` and `ncell` words, and no others.
pub record HasShape (w : MsmWords) (nsat ncell extra_sat extra_cell : ℕ) : Type 0 where
  pub rng : length w.rng ≡ nsat
  pub info : length w.info ≡ extra_sat
  pub rng_m : length w.rng_m ≡ nsat
  pub rate : length w.rate ≡ extra_sat
  pub pr : length w.pr ≡ ncell
  pub cp : length w.cp ≡ ncell
  pub lock : length w.lock ≡ ncell
  pub half : length w.half ≡ ncell
  pub cnr : length w.cnr ≡ ncell
  pub rrf : length w.rrf ≡ extra_cell

abbrev pub IsShaped : FullMsm → MsmWords → ℕ → ℕ → Type 0
IsShaped msm4 w nsat ncell = HasShape w nsat ncell 0 0
IsShaped msm5 w nsat ncell = HasShape w nsat ncell nsat ncell
IsShaped msm6 w nsat ncell = HasShape w nsat ncell 0 0
IsShaped msm7 w nsat ncell = HasShape w nsat ncell nsat ncell

-- No column: the rest stands where it stood.
none_read : (ws : List ℕ) → length ws ≡ 0 → [] ≡ ws
none_read [] e = refl
none_read (w ∷ ws) e = absurd (omega arith)

module _ (buff : List ℕ) (len n : ℕ) (ws : List ℕ) (whole : length ws ≡ n) where
  pub first_column :
      (i : ℕ) (gs : List Field)
      → Reads buff i (column len ws ++ gs)
      → (read_column buff i len n ≡ ws) × Reads buff (i + n * len) gs
  first_column i gs h =
      let parts = Reads-append (column len ws) gs buff i h in
      (
        subst (λ m. read_column buff i len m ≡ ws) whole (read_column-Reads buff i len ws parts.0),
        subst (λ j. Reads buff j gs)
            (ap (λ m. i + m) (total-column len ws ∙ ap (λ m. m * len) whole)) parts.1,
      )

  first_signed :
      (i : ℕ) (gs : List Field)
      → Reads buff i (signed_column len ws ++ gs)
      → (read_signed buff i len n ≡ ws) × Reads buff (i + n * len) gs
  first_signed i gs h =
      let parts = Reads-append (signed_column len ws) gs buff i h in
      (
        subst (λ m. read_signed buff i len m ≡ ws) whole (read_signed-Reads buff i len ws parts.0),
        subst (λ j. Reads buff j gs)
            (ap (λ m. i + m) (total-signed_column len ws ∙ ap (λ m. m * len) whole)) parts.1,
      )

  pub last_column : (i : ℕ) → Reads buff i (column len ws) → read_column buff i len n ≡ ws
  last_column i h =
      subst (λ m. read_column buff i len m ≡ ws) whole (read_column-Reads buff i len ws h)

  last_unsigned : (i : ℕ) → Reads buff i (unsigned_column len ws) → read_signed buff i len n ≡ ws
  last_unsigned i h =
      subst (λ m. read_signed buff i len m ≡ ws) whole (read_signed-Reads_unsigned buff i len ws h)

-- Columns of the right lengths are read as the words that were written.
pub read_msm-Reads :
    (kind : FullMsm) (w : MsmWords) (nsat ncell : ℕ) (buff : List ℕ) (i : ℕ)
    → IsShaped kind w nsat ncell
    → Reads buff i (full_fields kind w)
    → read_msm kind buff i nsat ncell ≡ w
unfolding full_fields read_msm
read_msm-Reads msm4 w nsat ncell buff i s h =
    let c0 = first_column buff 8 nsat w.rng s.rng _ _ h in
    let c1 = first_column buff 10 nsat w.rng_m s.rng_m _ _ c0.1 in
    let c2 = first_signed buff 15 ncell w.pr s.pr _ _ c1.1 in
    let c3 = first_signed buff 22 ncell w.cp s.cp _ _ c2.1 in
    let c4 = first_column buff 4 ncell w.lock s.lock _ _ c3.1 in
    let c5 = first_column buff 1 ncell w.half s.half _ _ c4.1 in
    let c6 = last_column buff 6 ncell w.cnr s.cnr _ c5.1 in
    let e0 = none_read w.info s.info in
    let e1 = none_read w.rate s.rate in let e2 = none_read w.rrf s.rrf in cc
read_msm-Reads msm5 w nsat ncell buff i s h =
    let c0 = first_column buff 8 nsat w.rng s.rng _ _ h in
    let c1 = first_column buff 4 nsat w.info s.info _ _ c0.1 in
    let c2 = first_column buff 10 nsat w.rng_m s.rng_m _ _ c1.1 in
    let c3 = first_signed buff 14 nsat w.rate s.rate _ _ c2.1 in
    let c4 = first_signed buff 15 ncell w.pr s.pr _ _ c3.1 in
    let c5 = first_signed buff 22 ncell w.cp s.cp _ _ c4.1 in
    let c6 = first_column buff 4 ncell w.lock s.lock _ _ c5.1 in
    let c7 = first_column buff 1 ncell w.half s.half _ _ c6.1 in
    let c8 = first_column buff 6 ncell w.cnr s.cnr _ _ c7.1 in
    let c9 = last_unsigned buff 15 ncell w.rrf s.rrf _ c8.1 in cc
read_msm-Reads msm6 w nsat ncell buff i s h =
    let c0 = first_column buff 8 nsat w.rng s.rng _ _ h in
    let c1 = first_column buff 10 nsat w.rng_m s.rng_m _ _ c0.1 in
    let c2 = first_signed buff 20 ncell w.pr s.pr _ _ c1.1 in
    let c3 = first_signed buff 24 ncell w.cp s.cp _ _ c2.1 in
    let c4 = first_column buff 10 ncell w.lock s.lock _ _ c3.1 in
    let c5 = first_column buff 1 ncell w.half s.half _ _ c4.1 in
    let c6 = last_column buff 10 ncell w.cnr s.cnr _ c5.1 in
    let e0 = none_read w.info s.info in
    let e1 = none_read w.rate s.rate in let e2 = none_read w.rrf s.rrf in cc
read_msm-Reads msm7 w nsat ncell buff i s h =
    let c0 = first_column buff 8 nsat w.rng s.rng _ _ h in
    let c1 = first_column buff 4 nsat w.info s.info _ _ c0.1 in
    let c2 = first_column buff 10 nsat w.rng_m s.rng_m _ _ c1.1 in
    let c3 = first_signed buff 14 nsat w.rate s.rate _ _ c2.1 in
    let c4 = first_signed buff 20 ncell w.pr s.pr _ _ c3.1 in
    let c5 = first_signed buff 24 ncell w.cp s.cp _ _ c4.1 in
    let c6 = first_column buff 10 ncell w.lock s.lock _ _ c5.1 in
    let c7 = first_column buff 1 ncell w.half s.half _ _ c6.1 in
    let c8 = first_column buff 10 ncell w.cnr s.cnr _ _ c7.1 in
    let c9 = last_unsigned buff 15 ncell w.rrf s.rrf _ c8.1 in cc

module _ (len n : ℕ) (ws : List ℕ) (whole : length ws ≡ n) where
  first_total :
      (gs : List Field) (rest : ℕ) → total gs ≡ rest → total (column len ws ++ gs) ≡ n * len + rest
  first_total gs rest e =
      rw (← whole, ← e)
        (total-append (column len ws) gs ∙ ap (λ m. m + total gs) (total-column len ws))

  signed_total :
      (gs : List Field) (rest : ℕ)
      → total gs ≡ rest
      → total (signed_column len ws ++ gs) ≡ n * len + rest
  signed_total gs rest e =
      rw (← whole, ← e)
        (total-append (signed_column len ws) gs
          ∙ ap (λ m. m + total gs) (total-signed_column len ws))

  last_total : total (column len ws) ≡ n * len
  last_total = rw (← whole) (total-column len ws)

  unsigned_total : total (unsigned_column len ws) ≡ n * len
  unsigned_total = rw (← whole) (total-unsigned_column len ws)

-- The length that the decoder asks for is that of the columns.
pub total-full_fields :
    (kind : FullMsm) (w : MsmWords) (nsat ncell : ℕ)
    → IsShaped kind w nsat ncell
    → total (full_fields kind w) ≡ message_bits kind nsat ncell
unfolding full_fields message_bits
total-full_fields msm4 w nsat ncell s =
    let t6 = last_total 6 ncell w.cnr s.cnr in
    let t5 = first_total 1 ncell w.half s.half _ _ t6 in
    let t4 = first_total 4 ncell w.lock s.lock _ _ t5 in
    let t3 = signed_total 22 ncell w.cp s.cp _ _ t4 in
    let t2 = signed_total 15 ncell w.pr s.pr _ _ t3 in
    let t1 = first_total 10 nsat w.rng_m s.rng_m _ _ t2 in
    let t0 = first_total 8 nsat w.rng s.rng _ _ t1 in t0 ∙ omega arith
total-full_fields msm5 w nsat ncell s =
    let t9 = unsigned_total 15 ncell w.rrf s.rrf in
    let t8 = first_total 6 ncell w.cnr s.cnr _ _ t9 in
    let t7 = first_total 1 ncell w.half s.half _ _ t8 in
    let t6 = first_total 4 ncell w.lock s.lock _ _ t7 in
    let t5 = signed_total 22 ncell w.cp s.cp _ _ t6 in
    let t4 = signed_total 15 ncell w.pr s.pr _ _ t5 in
    let t3 = signed_total 14 nsat w.rate s.rate _ _ t4 in
    let t2 = first_total 10 nsat w.rng_m s.rng_m _ _ t3 in
    let t1 = first_total 4 nsat w.info s.info _ _ t2 in
    let t0 = first_total 8 nsat w.rng s.rng _ _ t1 in t0 ∙ omega arith
total-full_fields msm6 w nsat ncell s =
    let t6 = last_total 10 ncell w.cnr s.cnr in
    let t5 = first_total 1 ncell w.half s.half _ _ t6 in
    let t4 = first_total 10 ncell w.lock s.lock _ _ t5 in
    let t3 = signed_total 24 ncell w.cp s.cp _ _ t4 in
    let t2 = signed_total 20 ncell w.pr s.pr _ _ t3 in
    let t1 = first_total 10 nsat w.rng_m s.rng_m _ _ t2 in
    let t0 = first_total 8 nsat w.rng s.rng _ _ t1 in t0 ∙ omega arith
total-full_fields msm7 w nsat ncell s =
    let t9 = unsigned_total 15 ncell w.rrf s.rrf in
    let t8 = first_total 10 ncell w.cnr s.cnr _ _ t9 in
    let t7 = first_total 1 ncell w.half s.half _ _ t8 in
    let t6 = first_total 10 ncell w.lock s.lock _ _ t7 in
    let t5 = signed_total 24 ncell w.cp s.cp _ _ t6 in
    let t4 = signed_total 20 ncell w.pr s.pr _ _ t5 in
    let t3 = signed_total 14 nsat w.rate s.rate _ _ t4 in
    let t2 = first_total 10 nsat w.rng_m s.rng_m _ _ t3 in
    let t1 = first_total 4 nsat w.info s.info _ _ t2 in
    let t0 = first_total 8 nsat w.rng s.rng _ _ t1 in t0 ∙ omega arith
