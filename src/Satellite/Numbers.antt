-- ===== src/Satellite/Numbers.antt =====
-- `satno` and `satsys` of c/rtklib/rtkcmn.c are inverse to each other.
use go_ntrip.Base.{
  ℕ, zero, suc, ◌+◌, ◌-◌, ◌≤◌, ◌<◌, true, ltb, ◌==◌, pos, ◌≡◌, ◌≢◌, Bool-cases, ◌||◌, refl, sym, ap,
  ◌∙◌, subst, ◌⊎◌, inl, inr, arith,
}
use go_ntrip.Satellite.{
  System, System.gps, System.glo, System.gal, System.qzs, System.cmp, System.leo, System.sbs,
  System.sys_none, PrnRanges, number_above, satno, maxsat, prn_of, find_sys, satsys,
}

-- A system in use has the satellites from MINPRN to MAXPRN, and MINPRN is positive; for a system
-- that is switched off NSAT and MAXPRN are 0.
unfoldable pub IsRange : PrnRanges → System → Type 0
IsRange c sys =
    ((0 < c.minprn sys) × (c.nsat sys + c.minprn sys ≡ c.maxprn sys + 1))
    ⊎ ((c.nsat sys ≡ 0) × (c.maxprn sys ≡ 0))

number_above-bounds :
    (c : PrnRanges) (base : ℕ) (sys : System) (prn sat : ℕ)
    → IsRange c sys
    → number_above c base sys prn ≡ sat
    → 0 < sat
    → 0 < prn
    → (base < sat) × (sat ≤ base + c.nsat sys) × (sat - base + c.minprn sys - 1 ≡ prn)
unfolding number_above IsRange
number_above-bounds c base sys prn sat range h p q = ground arith

-- The satellites of the systems before `sys`.
unfoldable before : PrnRanges → System → ℕ
before c gps = 0
before c glo = c.nsat gps
before c gal = c.nsat gps + c.nsat glo
before c qzs = c.nsat gps + c.nsat glo + c.nsat gal
before c cmp = c.nsat gps + c.nsat glo + c.nsat gal + c.nsat qzs
before c leo = c.nsat gps + c.nsat glo + c.nsat gal + c.nsat qzs + c.nsat cmp
before c sbs = c.nsat gps + c.nsat glo + c.nsat gal + c.nsat qzs + c.nsat cmp + c.nsat leo
before c sys_none =
    c.nsat gps + c.nsat glo + c.nsat gal + c.nsat qzs + c.nsat cmp + c.nsat leo + c.nsat sbs

find_sys-before :
    (c : PrnRanges) (sys : System) (sat : ℕ)
    → sys ≢ sys_none
    → before c sys < sat
    → sat ≤ before c sys + c.nsat sys
    → find_sys c sat ≡ (sys, sat - before c sys + c.minprn sys - 1)
unfolding find_sys prn_of before
find_sys-before c gps sat used low high = ground arith
find_sys-before c glo sat used low high = ground arith
find_sys-before c gal sat used low high = ground arith
find_sys-before c qzs sat used low high = ground arith
find_sys-before c cmp sat used low high = ground arith
find_sys-before c leo sat used low high = ground arith
find_sys-before c sbs sat used low high = ground arith
find_sys-before c sys_none sat used low high = absurd (used refl)

before_maxsat :
    (c : PrnRanges) (sys : System) → sys ≢ sys_none → before c sys + c.nsat sys ≤ maxsat c
unfolding maxsat before
before_maxsat c gps used = omega arith
before_maxsat c glo used = omega arith
before_maxsat c gal used = omega arith
before_maxsat c qzs used = omega arith
before_maxsat c cmp used = omega arith
before_maxsat c leo used = omega arith
before_maxsat c sbs used = omega arith
before_maxsat c sys_none used = absurd (used refl)

satno-before :
    (c : PrnRanges) (sys : System) (n : ℕ)
    → sys ≢ sys_none
    → satno c sys (pos (suc n)) ≡ number_above c (before c sys) sys (suc n)
unfolding satno before
satno-before c gps n used = refl
satno-before c glo n used = refl
satno-before c gal n used = refl
satno-before c qzs n used = refl
satno-before c cmp n used = refl
satno-before c leo n used = refl
satno-before c sbs n used = refl
satno-before c sys_none n used = absurd (used refl)

le-or-lt : (a b : ℕ) → (a ≤ b) ⊎ (b < a)
le-or-lt a b = ground arith

-- Every number from 1 to MAXSAT lies in the range of one system.
sys_of :
    (c : PrnRanges) (sat : ℕ)
    → 0 < sat
    → sat ≤ maxsat c
    → (sys : System) × (sys ≢ sys_none) × (before c sys < sat) × (sat ≤ before c sys + c.nsat sys)
unfolding maxsat before
sys_of c sat low high = elim (le-or-lt sat (c.nsat gps)) [
  | inl h0 ↦ (gps, (λ e. cc), omega arith, omega arith)
  | inr k0 ↦ elim (le-or-lt sat (c.nsat gps + c.nsat glo)) [
    | inl h1 ↦ (glo, (λ e. cc), omega arith, omega arith)
    | inr k1 ↦ elim (le-or-lt sat (c.nsat gps + c.nsat glo + c.nsat gal)) [
      | inl h2 ↦ (gal, (λ e. cc), omega arith, omega arith)
      | inr k2 ↦ elim (le-or-lt sat (c.nsat gps + c.nsat glo + c.nsat gal + c.nsat qzs)) [
        | inl h3 ↦ (qzs, (λ e. cc), omega arith, omega arith)
        | inr k3 ↦
            elim (le-or-lt sat (c.nsat gps + c.nsat glo + c.nsat gal + c.nsat qzs + c.nsat cmp)) [
              | inl h4 ↦ (cmp, (λ e. cc), omega arith, omega arith)
              | inr k4 ↦
                  elim (le-or-lt sat
                    (c.nsat gps + c.nsat glo + c.nsat gal + c.nsat qzs + c.nsat cmp + c.nsat leo)) [
                      | inl h5 ↦ (leo, (λ e. cc), omega arith, omega arith)
                      | inr k5 ↦ (sbs, (λ e. cc), omega arith, omega arith)
                    ]
            ]
      ]
    ]
  ]
]

satsys-before :
    (c : PrnRanges) (sys : System) (sat : ℕ)
    → sys ≢ sys_none
    → before c sys < sat
    → sat ≤ before c sys + c.nsat sys
    → satsys c sat ≡ (sys, sat - before c sys + c.minprn sys - 1)
unfolding satsys
satsys-before c sys sat used low high =
    let total : before c sys + c.nsat sys ≤ maxsat c = before_maxsat c sys used in
    let found = find_sys-before c sys sat used low high in ground arith

number_above-inside :
    (c : PrnRanges) (base : ℕ) (sys : System) (prn : ℕ)
    → IsRange c sys
    → c.minprn sys ≤ prn
    → prn < c.minprn sys + c.nsat sys
    → (0 < prn) × (number_above c base sys prn ≡ base + (prn - c.minprn sys) + 1)
unfolding number_above IsRange
number_above-inside c base sys prn range low high = ground arith

satno-inside :
    (c : PrnRanges) (sys : System) (prn : ℕ)
    → sys ≢ sys_none
    → IsRange c sys
    → c.minprn sys ≤ prn
    → prn < c.minprn sys + c.nsat sys
    → satno c sys (pos prn) ≡ before c sys + (prn - c.minprn sys) + 1
satno-inside c sys zero used range low high =
    absurd (omega (arith, (number_above-inside c 0 sys zero range low high).0))
satno-inside c sys (suc n) used range low high =
    satno-before c sys n used ∙ (number_above-inside c (before c sys) sys (suc n) range low high).1

-- If each system's constants are a range of prns or switch the system off, then for every
-- satellite number from 1 to MAXSAT satno numbers the system and the prn that satsys gives by that
-- number.
pub satno-satsys :
    (c : PrnRanges)
    → ((sys : System) → IsRange c sys)
    → (sat : ℕ) → 0 < sat
    → sat ≤ maxsat c
    → satno c (satsys c sat).0 (pos (satsys c sat).1) ≡ sat
unfolding IsRange
satno-satsys c ranges sat low high =
    let found = sys_of c sat low high in
    let sys = found.0 in
    let above : before c sys < sat = found.2 in
    let below : sat ≤ before c sys + c.nsat sys = found.3 in
    let range : IsRange c sys = ranges sys in
    let prn = sat - before c sys + c.minprn sys - 1 in
    let first : c.minprn sys ≤ prn = omega arith in
    let last : prn < c.minprn sys + c.nsat sys = omega arith in
    let end : before c sys + (prn - c.minprn sys) + 1 ≡ sat = omega arith in
    ap (λ s. satno c s.0 (pos s.1)) (satsys-before c sys sat found.1 above below)
    ∙ satno-inside c sys prn found.1 range first last
    ∙ end

satno-zero : (c : PrnRanges) (sys : System) → satno c sys (pos zero) ≡ 0
unfolding satno
satno-zero c sys = refl

satno_unused : (c : PrnRanges) (prn : ℕ) → satno c sys_none (pos prn) ≡ 0
unfolding satno
satno_unused c zero = refl
satno_unused c (suc n) = refl

-- If each system's constants are a range of prns or switch the system off, then whenever satno
-- numbers a system and a prn by something else than 0, satsys gives that system and prn back.
pub satsys-satno :
    (c : PrnRanges)
    → ((sys : System) → IsRange c sys)
    → (sys : System) (prn : ℕ) → 0 < satno c sys (pos prn)
    → satsys c (satno c sys (pos prn)) ≡ (sys, prn)
satsys-satno c ranges sys zero h = absurd (omega (arith, satno-zero c sys))
satsys-satno c ranges sys (suc n) h =
    let used : sys ≢ sys_none =
      λ e. omega (arith, subst (λ s. 0 < satno c s (pos (suc n))) e h, satno_unused c (suc n)) in
    let named : satno c sys (pos (suc n)) ≡ number_above c (before c sys) sys (suc n) =
      satno-before c sys n used in
    let sat = satno c sys (pos (suc n)) in
    let known =
      number_above-bounds c (before c sys) sys (suc n) sat (ranges sys) (sym named) h
        (omega arith) in
    satsys-before c sys sat used known.0 known.1 ∙ ap (λ n. (sys, n)) known.2

satsys-outside :
    (c : PrnRanges) (sat : ℕ)
    → (sat == 0 || ltb (maxsat c) sat) ≡ true
    → (satsys c sat).0 ≡ sys_none
unfolding satsys
satsys-outside c sat h = rw h refl

-- The same for a number for which satsys finds a system.
pub satno-satsys_found :
    (c : PrnRanges)
    → ((sys : System) → IsRange c sys)
    → (sat : ℕ) → (satsys c sat).0 ≢ sys_none
    → (0 < sat) × (satno c (satsys c sat).0 (pos (satsys c sat).1) ≡ sat)
satno-satsys_found c ranges sat used = elim (Bool-cases (sat == 0 || ltb (maxsat c) sat)) [
  | inl none ↦ absurd (used (satsys-outside c sat none))
  | inr some ↦ (ground arith, satno-satsys c ranges sat (ground arith) (ground arith))
]
