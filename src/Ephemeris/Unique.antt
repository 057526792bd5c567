-- ===== src/Ephemeris/Unique.antt =====
-- c/rtklib/rtkcmn.c: `uniqeph` and `uniqgeph`, which drop repeated ephemerides from the lists of the
-- navigation data.
-- qsort is a parameter. That realloc fails is not modelled.
use go_ntrip.Base.{
  ℕ, ◌≡◌, refl, ap, ◌∙◌, List, [], ◌∷◌, Bool, true, false, Bool-cases, ◌&&◌, ◌||◌, not, ◌==◌,
  ==_iff, if◌then◌else◌, inl, inr, arith,
}
use go_ntrip.Ephemeris.{Eph}
use go_ntrip.Glonass.{Geph}

-- The loop over the sorted list with `kept`, the entry `nav->eph[j]`.
unfoldable pub keep_changes : {A : Type 0} → (A → A → Bool) → A → List A → List A
keep_changes differs kept [] = []
keep_changes differs kept (x ∷ xs) =
    let next = if differs x kept then x else kept in
    let rest = keep_changes differs next xs in if differs x kept then x ∷ rest else rest

unfoldable pub ephs_differ : {D T : Type 0} → Eph D T → Eph D T → Bool
ephs_differ x kept = not (x.sat == kept.sat) || not (x.iode == kept.iode)

-- The sorted entries.
unfoldable pub drop_repeated : {A : Type 0} → (A → A → Bool) → List A → List A
drop_repeated differs [] = []
drop_repeated differs (x ∷ xs) = x ∷ keep_changes differs x xs

-- The `nav->n` entries of `nav->eph`.
unfoldable pub uniqeph :
    {D T : Type 0} → (List (Eph D T) → List (Eph D T)) → List (Eph D T) → List (Eph D T)
uniqeph qsort nav = drop_repeated ephs_differ (qsort nav)

-- `same` compares the seconds `time` of two times.
unfoldable pub gephs_differ : {D T : Type 0} → (T → T → Bool) → Geph D T → Geph D T → Bool
gephs_differ same x kept =
    not (x.sat == kept.sat) || not (same x.toe kept.toe) || not (x.svh == kept.svh)

-- The `nav->ng` entries of `nav->geph`.
unfoldable pub uniqgeph :
    {D T : Type 0}
    → (T → T → Bool)
    → (List (Geph D T) → List (Geph D T))
    → List (Geph D T)
    → List (Geph D T)
uniqgeph same qsort nav = drop_repeated (gephs_differ same) (qsort nav)

-- Whether an entry passes a test.
unfoldable pub any : {A : Type 0} → (A → Bool) → List A → Bool
any p [] = false
any p (x ∷ xs) = p x || any p xs

-- The test of a satellite and an issue of data.
abbrev pub is_issue : {D T : Type 0} → ℕ → ℕ → Eph D T → Bool
is_issue sat iode e = (e.sat == sat) && (e.iode == iode)

-- The test of a satellite and its health.
abbrev pub is_state : {D T : Type 0} → ℕ → ℕ → Geph D T → Bool
is_state sat svh e = (e.sat == sat) && (e.svh == svh)

-- Each entry differs from the one before it.
abbrev pub AreChanging : {A : Type 0} → (A → A → Bool) → A → List A → Type 0
AreChanging differs before [] = Unit {0}
AreChanging differs before (x ∷ xs) = (differs x before ≡ true) × AreChanging differs x xs

module _ {A : Type 0} (differs : A → A → Bool) where
  keep_changes-AreChanging :
      (kept : A) (xs : List A) → AreChanging differs kept (keep_changes differs kept xs)
  unfolding keep_changes
  keep_changes-AreChanging kept [] = tt
  keep_changes-AreChanging kept (x ∷ xs) = elim (Bool-cases (differs x kept)) [
    | inl changed ↦ rw (changed) (changed, keep_changes-AreChanging x xs)
    | inr same ↦ rw (same) (keep_changes-AreChanging kept xs)
  ]

  any-keep_changes :
      (p : A → Bool)
      → ((x kept : A) → differs x kept ≡ false → p x ≡ p kept)
      → (kept : A) (xs : List A) → any p (kept ∷ keep_changes differs kept xs) ≡ any p (kept ∷ xs)
  unfolding keep_changes any
  any-keep_changes p alike kept [] = refl
  any-keep_changes p alike kept (x ∷ xs) = elim (Bool-cases (differs x kept)) [
    | inl changed ↦
        let rest = any-keep_changes p alike x xs in rw (changed) (ap (λ b. p kept || b) rest)
    | inr same ↦
        let rest = any-keep_changes p alike kept xs in
        let equal = alike x kept same in
        let again : (p kept || any p xs) ≡ (p kept || (p x || any p xs)) =
          rw (equal) (twice (p kept) (any p xs)) in
        rw (same) (rest ∙ again)
  ]
    where
      twice : (a b : Bool) → (a || b) ≡ (a || (a || b))
      twice true b = refl
      twice false b = refl

-- Each entry but the first differs from the one before it.
abbrev pub IsChanging : {A : Type 0} → (A → A → Bool) → List A → Type 0
IsChanging differs [] = Unit {0}
IsChanging differs (x ∷ xs) = AreChanging differs x xs

module _ {A : Type 0} (differs : A → A → Bool) where
  -- The loop on a list that qsort has permuted.
  drop_repeated_lem :
      (p : A → Bool)
      → ((x kept : A) → differs x kept ≡ false → p x ≡ p kept)
      → (es sorted : List A) → any p sorted ≡ any p es
      → IsChanging differs (drop_repeated differs sorted)
        × (any p (drop_repeated differs sorted) ≡ any p es)
  unfolding drop_repeated
  drop_repeated_lem p alike es [] permuted = (tt, permuted)
  drop_repeated_lem p alike es (e ∷ rest) permuted =
      (keep_changes-AreChanging differs e rest, any-keep_changes differs p alike e rest ∙ permuted)

module _ {D T : Type 0} where
  is_issue_alike :
      (sat iode : ℕ) (x kept : Eph D T)
      → ephs_differ x kept ≡ false
      → is_issue sat iode x ≡ is_issue sat iode kept
  unfolding ephs_differ
  is_issue_alike sat iode x kept same = elim (Bool-cases (x.sat == kept.sat)) [
    | inr other ↦ absurd (ground (arith, other, same))
    | inl sats ↦ elim (Bool-cases (x.iode == kept.iode)) [
      | inr other ↦ absurd (ground (arith, other, same))
      | inl iodes ↦ rw ((==_iff x.sat kept.sat).0 sats, (==_iff x.iode kept.iode).0 iodes) refl
    ]
  ]

  -- If qsort leaves the same entries, then after uniqeph each ephemeris differs from the one
  -- before it in its satellite or its issue of data, and for every satellite and issue of data
  -- there is an ephemeris in the list if and only if there was one before.
  pub uniqeph-IsChanging :
      (qsort : List (Eph D T) → List (Eph D T))
      → ((p : Eph D T → Bool) (es : List (Eph D T)) → any p (qsort es) ≡ any p es)
      → (nav : List (Eph D T)) (sat iode : ℕ)
      → IsChanging ephs_differ (uniqeph qsort nav)
        × (any (is_issue sat iode) (uniqeph qsort nav) ≡ any (is_issue sat iode) nav)
  unfolding uniqeph
  uniqeph-IsChanging qsort keeps nav sat iode =
      drop_repeated_lem ephs_differ (is_issue sat iode) (is_issue_alike sat iode) nav (qsort nav)
        (keeps (is_issue sat iode) nav)

  is_state_alike :
      (same : T → T → Bool) (sat svh : ℕ) (x kept : Geph D T)
      → gephs_differ same x kept ≡ false
      → is_state sat svh x ≡ is_state sat svh kept
  unfolding gephs_differ
  is_state_alike same sat svh x kept equal = elim (Bool-cases (x.sat == kept.sat)) [
    | inr other ↦ absurd (ground (arith, other, equal))
    | inl sats ↦ elim (Bool-cases (x.svh == kept.svh)) [
      | inr other ↦ absurd (ground (arith, other, equal))
      | inl healths ↦ rw ((==_iff x.sat kept.sat).0 sats, (==_iff x.svh kept.svh).0 healths) refl
    ]
  ]

  -- The same of uniqgeph, for satellites and their health.
  pub uniqgeph-IsChanging :
      (same : T → T → Bool) (qsort : List (Geph D T) → List (Geph D T))
      → ((p : Geph D T → Bool) (es : List (Geph D T)) → any p (qsort es) ≡ any p es)
      → (nav : List (Geph D T)) (sat svh : ℕ)
      → IsChanging (gephs_differ same) (uniqgeph same qsort nav)
        × (any (is_state sat svh) (uniqgeph same qsort nav) ≡ any (is_state sat svh) nav)
  unfolding uniqgeph
  uniqgeph-IsChanging same qsort keeps nav sat svh =
      drop_repeated_lem (gephs_differ same) (is_state sat svh) (is_state_alike same sat svh) nav
        (qsort nav) (keeps (is_state sat svh) nav)
