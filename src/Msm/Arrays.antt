-- ===== src/Msm/Arrays.antt =====
-- The arrays of the encoder keep their 64 entries, and as many of them are sent as there are
-- satellites or cells.
use go_ntrip.Base.{
  ℕ, suc, ◌≡◌, refl, ap, ◌∙◌, List, [], ◌∷◌, length, map, set, get_or, length-set, Bool, true,
  false, leb, Bool-cases, if◌then◌else◌, inl, inr,
}
use go_ntrip.Satellite.{System}
use go_ntrip.Msm.Values.{Setup}
use go_ntrip.Msm.Index.{
  Visit, MsmIndex, cell_of, SatFields, SigFields, sat_step, sat_loop, gen_msm_sat, sig_step,
  sig_loop, gen_msm_sig,
}

pub length-map {ℓ ℓ'} :
    {A : Type ℓ} {B : Type ℓ'} (f : A → B) (xs : List A) → length (map f xs) ≡ length xs
length-map f [] = refl
length-map f (x ∷ xs) = ap suc (length-map f xs)

length-if {ℓ} :
    {A : Type ℓ} (b : Bool) (xs : List A) (i : ℕ) (v : A)
    → length (if b then set xs i v else xs) ≡ length xs
length-if true xs i v = length-set xs i v
length-if false xs i v = refl

length-if_not {ℓ} :
    {A : Type ℓ} (b : Bool) (xs : List A) (i : ℕ) (v : A)
    → length (if b then xs else set xs i v) ≡ length xs
length-if_not true xs i v = refl
length-if_not false xs i v = length-set xs i v

pub record AreSats {D : Type 0} (n : ℕ) (s : SatFields D) : Type 0 where
  pub rrng : length s.rrng ≡ n
  pub rrate : length s.rrate ≡ n
  pub info : length s.info ≡ n

pub record AreSigs {D T : Type 0} (n : ℕ) (s : SigFields D T) : Type 0 where
  pub psrng : length s.psrng ≡ n
  pub phrng : length s.phrng ≡ n
  pub rate : length s.rate ≡ n
  pub lock : length s.lock ≡ n
  pub half : length s.half ≡ n
  pub cnr : length s.cnr ≡ n

module _ {D T : Type 0} (x : Setup D T) (n : ℕ) where
  sat_loop-AreSats :
      (sys : System) (gephs : List (ℕ × ℕ)) (ind : List ℕ) (vs : List (Visit D T)) (s : SatFields D)
      → AreSats n s
      → AreSats n (sat_loop x sys gephs ind vs s)
  unfolding sat_loop sat_step
  sat_loop-AreSats sys gephs ind [] s h = h
  sat_loop-AreSats sys gephs ind (v ∷ vs) s h =
      sat_loop-AreSats sys gephs ind vs (sat_step x sys gephs ind v s) (record {
        rrng = length-if _ s.rrng _ _ ∙ h.rrng;
        rrate = length-if _ s.rrate _ _ ∙ h.rrate;
        info = length-set s.info _ _ ∙ h.info;
      })

  sig_step-AreSigs :
      (gephs : List (ℕ × ℕ)) (m : MsmIndex) (sats : SatFields D) (v : Visit D T) (s : SigFields D T)
      → AreSigs n s
      → AreSigs n (sig_step x gephs m sats v s)
  unfolding sig_step
  sig_step-AreSigs gephs m sats v s h =
      elim (Bool-cases (leb 64 (get_or m.cell_ind (cell_of m.nsig m.sat_ind m.sig_ind v) 0))) [
        | inl past ↦ rw (sig_step, past) h
        | inr inside ↦
            rw (sig_step, inside)
              (record {
                psrng = length-if_not _ s.psrng _ _ ∙ h.psrng;
                phrng = length-if_not _ s.phrng _ _ ∙ h.phrng;
                rate = length-if_not _ s.rate _ _ ∙ h.rate;
                lock = length-set s.lock _ _ ∙ h.lock;
                half = length-set s.half _ _ ∙ h.half;
                cnr = length-set s.cnr _ _ ∙ h.cnr;
              })
      ]

  sig_loop-AreSigs :
      (gephs : List (ℕ × ℕ)) (m : MsmIndex) (sats : SatFields D) (vs : List (Visit D T))
      (s : SigFields D T)
      → AreSigs n s
      → AreSigs n (sig_loop x gephs m sats vs s)
  unfolding sig_loop
  sig_loop-AreSigs gephs m sats [] s h = h
  sig_loop-AreSigs gephs m sats (v ∷ vs) s h =
      sig_loop-AreSigs gephs m sats vs (sig_step x gephs m sats v s)
        (sig_step-AreSigs gephs m sats v s h)

module _ {D T : Type 0} (x : Setup D T) where
  pub gen_msm_sat-AreSats :
      (sys : System) (gephs : List (ℕ × ℕ)) (ind : List ℕ) (vs : List (Visit D T))
      → AreSats 64 (gen_msm_sat x sys gephs ind vs)
  unfolding gen_msm_sat
  gen_msm_sat-AreSats sys gephs ind vs =
      sat_loop-AreSats x 64 sys gephs ind vs _ (record { rrng = refl; rrate = refl; info = refl })

  pub gen_msm_sig-AreSigs :
      (gephs : List (ℕ × ℕ)) (m : MsmIndex) (sats : SatFields D) (vs : List (Visit D T))
      (kept : ℕ → ℕ → D) (lltime : ℕ → ℕ → T)
      → AreSigs 64 (gen_msm_sig x gephs m sats vs kept lltime)
  unfolding gen_msm_sig
  gen_msm_sig-AreSigs gephs m sats vs kept lltime =
      sig_loop-AreSigs x 64 gephs m sats vs _
        (record { psrng = refl; phrng = refl; rate = refl; lock = refl; half = refl; cnr = refl })
