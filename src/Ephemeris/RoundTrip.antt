-- ===== src/Ephemeris/RoundTrip.antt =====
-- What the encoders of ephemerides share on the way to a decoder: the guards that have passed, the
-- fields that a buffer with the same message holds, and the satellite number of the prn.
use go_ntrip.Base.{
  ℕ, zero, suc, ◌+◌, ◌-◌, ◌*◌, ◌≤◌, ◌≡◌, refl, sym, ap, ◌∙◌, subst, List, length, Bool, true, pos,
  ◌<◌, ◌≢◌, arith,
}
use go_ntrip.Bits.Cell.{IsBytes}
use go_ntrip.Bits.Message.{
  Field, write_fields, AllFit, Reads, total, write_fields_end, Reads-write_fields, Agrees,
  Reads-agree,
}
use go_ntrip.Rtcm.{Rtcm}
use go_ntrip.Satellite.{
  System, System.gps, System.glo, System.gal, System.qzs, System.cmp, System.leo, System.sbs,
  System.sys_none, PrnRanges, satsys, satno,
}
use go_ntrip.Satellite.Numbers.{IsRange, satno-satsys_found}
use go_ntrip.Ephemeris.{Doubles, Clock, Eph, NavState, encode_eph, sys_id, same_sys}

of_id : ℕ → System
of_id zero = sys_none
of_id (suc zero) = gps
of_id (suc (suc zero)) = glo
of_id (suc (suc (suc zero))) = gal
of_id (suc (suc (suc (suc zero)))) = qzs
of_id (suc (suc (suc (suc (suc zero))))) = cmp
of_id (suc (suc (suc (suc (suc (suc zero)))))) = leo
of_id (suc (suc (suc (suc (suc (suc (suc n))))))) = sbs

of_id-sys_id : (a : System) → of_id (sys_id a) ≡ a
unfolding of_id sys_id
of_id-sys_id sys_none = refl
of_id-sys_id gps = refl
of_id-sys_id glo = refl
of_id-sys_id gal = refl
of_id-sys_id qzs = refl
of_id-sys_id cmp = refl
of_id-sys_id leo = refl
of_id-sys_id sbs = refl

same_sys-eq : (a b : System) → same_sys a b ≡ true → a ≡ b
unfolding same_sys
same_sys-eq a b h =
    let e : sys_id a ≡ sys_id b = ground arith in sym (of_id-sys_id a) ∙ ap of_id e ∙ of_id-sys_id b

module _ {D T : Type 0} (d : Doubles D) (k : Clock D T) (c : PrnRanges) (sys : System)
    (fields : Eph D T → ℕ → List Field) (r : Rtcm (NavState D T)) where
  -- The ephemeris that is sent, the prn it is sent for, and the fields.
  abbrev pub sent_eph : Eph D T
  sent_eph = r.body.ephs (r.body.ephsat - 1)

  abbrev pub sent_prn : ℕ
  sent_prn = (satsys c r.body.ephsat).1

  abbrev pub sent_fields : List Field
  sent_fields = fields sent_eph sent_prn

  abbrev encoded : Rtcm (NavState D T) × Bool
  encoded = encode_eph d k c sys fields r

  module _ (done : encoded.1 ≡ true) where
    pub encode_eph-sys : (satsys c r.body.ephsat).0 ≡ sys
    unfolding encode_eph
    encode_eph-sys = same_sys-eq _ sys (ground arith)

    pub encode_eph-buff : encoded.0.buff ≡ (write_fields r.buff 24 sent_fields).0
    unfolding encode_eph
    encode_eph-buff = ground arith

    pub encode_eph-nbit : encoded.0.nbit ≡ 24 + total sent_fields
    unfolding encode_eph
    encode_eph-nbit = let end = write_fields_end sent_fields r.buff 24 in ground (arith, end)

    -- A buffer that agrees with the encoder's on the message holds its fields.
    pub encode_eph-Reads :
        (buff : List ℕ)
        → IsBytes r.buff
        → AllFit sent_fields
        → 24 + total sent_fields ≤ 8 * length r.buff
        → Agrees buff encoded.0.buff 24 encoded.0.nbit
        → Reads buff 24 sent_fields
    encode_eph-Reads buff bytes fit room same =
        Reads-agree sent_fields buff encoded.0.buff 24 24 encoded.0.nbit fit (omega arith)
          (omega (arith, encode_eph-nbit)) same
          (subst (λ b. Reads b 24 sent_fields) (sym encode_eph-buff)
            (Reads-write_fields sent_fields r.buff 24 bytes fit room))

    -- The prn that is sent has the number of the satellite.
    pub encode_eph-satno :
        ((s : System) → IsRange c s)
        → sys ≢ sys_none
        → (0 < r.body.ephsat) × (satno c sys (pos sent_prn) ≡ r.body.ephsat)
    encode_eph-satno ranges used =
        subst (λ s. (0 < r.body.ephsat) × (satno c s (pos sent_prn) ≡ r.body.ephsat)) encode_eph-sys
          (satno-satsys_found c ranges r.body.ephsat (λ e. used (sym encode_eph-sys ∙ e)))
