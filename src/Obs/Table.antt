-- ===== src/Obs/Table.antt =====
-- The table of observations has one entry for each satellite and at most MAXOBS of them.
use go_ntrip.Base.{
  ℕ, suc, ◌+◌, ◌≤◌, ◌<◌, ◌≡◌, ◌≢◌, refl, sym, subst, List, [], ◌∷◌, ◌++◌, length, length-append,
  leb, ◌==◌, Bool-cases, Option, none, some, Option-cases, get_or, ◌⊎◌, inl, inr, arith,
}
use go_ntrip.Ephemeris.{Doubles}
use go_ntrip.Obs.{Obsd, new_obs, find_obs, obsindex}

module _ {D T : Type 0} where
  -- `sat` has no entry.
  abbrev pub IsNew : ℕ → List (Obsd D T) → Type 0
  IsNew sat [] = Unit {0}
  IsNew sat (o ∷ os) = (o.sat ≢ sat) × IsNew sat os

  -- The satellites are different.
  abbrev pub AreDistinct : List (Obsd D T) → Type 0
  AreDistinct [] = Unit {0}
  AreDistinct (o ∷ os) = IsNew o.sat os × AreDistinct os

  IsNew-append :
      (sat : ℕ) (os : List (Obsd D T)) (o : Obsd D T)
      → IsNew sat os
      → o.sat ≢ sat
      → IsNew sat (os ++ (o ∷ []))
  IsNew-append sat [] o h ne = (ne, tt)
  IsNew-append sat (p ∷ ps) o h ne = (h.0, IsNew-append sat ps o h.1 ne)

  AreDistinct-append :
      (os : List (Obsd D T)) (o : Obsd D T)
      → AreDistinct os
      → IsNew o.sat os
      → AreDistinct (os ++ (o ∷ []))
  AreDistinct-append [] o h new = (tt, tt)
  AreDistinct-append (p ∷ ps) o h new =
      (IsNew-append p.sat ps o h.0 (λ e. new.0 (sym e)), AreDistinct-append ps o h.1 new.1)

  abbrev pub Finds : List (Obsd D T) → ℕ → ℕ → Type 0
  Finds os k sat =
      (o : Obsd D T) × ((default : Obsd D T) → get_or os k default ≡ o)
      × (o.sat ≡ sat)
      × (k < length os)

module _ {D T : Type 0} (d : Doubles D) where
  find_obs-none : (os : List (Obsd D T)) (i sat : ℕ) → find_obs d os i sat ≡ none → IsNew sat os
  unfolding find_obs
  find_obs-none [] i sat h = tt
  find_obs-none (o ∷ os) i sat h = ground (arith, find_obs-none os (i + 1) sat)

  find_obs-some :
      (os : List (Obsd D T)) (i sat j : ℕ)
      → find_obs d os i sat ≡ some j
      → (k : ℕ) × (j ≡ i + k) × Finds os k sat
  unfolding find_obs
  find_obs-some [] i sat j h = absurd (ground arith)
  find_obs-some (o ∷ os) i sat j h = elim (Bool-cases (o.sat == sat)) [
    | inl here ↦ (0, ground arith, (o, (λ default. refl), ground arith, omega arith))
    | inr other ↦
        let f = find_obs-some os (i + 1) sat j (ground arith) in
        (suc f.0, omega (arith, f.1), (f.2.0, f.2.1, f.2.2, omega (arith, f.2.3)))
  ]

  -- The outcome of `obsindex` on a table of at most `maxobs` entries: the index of the satellite, or
  -- none for a new satellite and a full table that is left alone.
  abbrev pub IsIndexed : ℕ → List (Obsd D T) → ℕ → List (Obsd D T) × Option ℕ → Type 0
  IsIndexed maxobs obs sat out =
      ((k : ℕ) × (out.1 ≡ some k) × Finds out.0 k sat)
      ⊎ ((out ≡ (obs, none)) × (length obs ≡ maxobs) × IsNew sat obs)

  Finds-append : (os : List (Obsd D T)) (o : Obsd D T) → Finds (os ++ (o ∷ [])) (length os) o.sat
  Finds-append [] o = (o, (λ default. refl), refl, omega arith)
  Finds-append (p ∷ ps) o = let f = Finds-append ps o in (f.0, f.1, f.2, omega (arith, f.3))

  -- On a table of at most MAXOBS observations of different satellites, obsindex gives such a table
  -- again, and either the index of an entry of the satellite or, for a new satellite and a full
  -- table, none with the table unchanged.
  pub obsindex-IsIndexed :
      (maxobs : ℕ) (obs : List (Obsd D T)) (time : T) (sat : ℕ)
      → AreDistinct obs
      → length obs ≤ maxobs
      → let out = obsindex d maxobs obs time sat in
        AreDistinct out.0 × (length out.0 ≤ maxobs) × IsIndexed maxobs obs sat out
  unfolding obsindex new_obs
  obsindex-IsIndexed maxobs obs time sat distinct small =
      elim (Option-cases (find_obs d obs 0 sat)) [
        | inr f ↦
            rw (obsindex, f.1)
              (let g = find_obs-some obs 0 sat f.0 f.1 in
                let e : f.0 ≡ g.0 = omega (arith, g.1) in
                (distinct, small, inl (f.0, refl, subst (λ k. Finds obs k sat) (sym e) g.2)))
        | inl new ↦
            let fresh = find_obs-none obs 0 sat new in
            elim (Bool-cases (leb maxobs (length obs))) [
              | inl full ↦
                  rw (obsindex, new, full) (distinct, small, inr (refl, ground arith, fresh))
              | inr room ↦
                  rw (obsindex, new, room)
                    (
                      AreDistinct-append obs (new_obs d time sat) distinct fresh,
                      ground (arith, length-append obs (new_obs d time sat ∷ [])),
                      inl (length obs, refl, Finds-append obs (new_obs d time sat)),
                    )
            ]
      ]
