-- ===== src/Tests/Unique.antt =====
-- Repeated ephemerides, sorted by the time of transmission.
use go_ntrip.Base.{
  ℕ, ◌≡◌, refl, ◌∙◌, ap, List, [], ◌∷◌, Bool, true, false, Bool-cases, ◌||◌, leb, if◌then◌else◌,
  inl, inr,
}
use go_ntrip.Ephemeris.{Eph}
use go_ntrip.Ephemeris.Gps.{eph_1019}
use go_ntrip.Ephemeris.Unique.{any, is_issue, ephs_differ, uniqeph, IsChanging, uniqeph-IsChanging}
use go_ntrip.Tests.Doubles.{numbers, seconds}
use go_ntrip.Tests.Ephemeris.{words1019}

insert : Eph ℕ ℕ → List (Eph ℕ ℕ) → List (Eph ℕ ℕ)
insert e [] = e ∷ []
insert e (x ∷ xs) = let rest = insert e xs in if leb e.ttr x.ttr then e ∷ x ∷ xs else x ∷ rest

insert_sort : List (Eph ℕ ℕ) → List (Eph ℕ ℕ)
insert_sort [] = []
insert_sort (x ∷ xs) = insert x (insert_sort xs)

any-insert :
    (p : Eph ℕ ℕ → Bool) (e : Eph ℕ ℕ) (es : List (Eph ℕ ℕ))
    → any p (insert e es) ≡ (p e || any p es)
unfolding any insert
any-insert p e [] = refl
any-insert p e (x ∷ xs) = elim (Bool-cases (leb e.ttr x.ttr)) [
  | inl early ↦ rw (early) refl
  | inr late ↦
      let rest = any-insert p e xs in
      rw (late) (ap (λ b. p x || b) rest ∙ swapped (p x) (p e) (any p xs))
]
  where
    swapped : (a b c : Bool) → (a || (b || c)) ≡ (b || (a || c))
    swapped true true c = refl
    swapped true false c = refl
    swapped false b c = refl

any-insert_sort : (p : Eph ℕ ℕ → Bool) (es : List (Eph ℕ ℕ)) → any p (insert_sort es) ≡ any p es
unfolding any insert_sort
any-insert_sort p [] = refl
any-insert_sort p (x ∷ xs) =
    any-insert p x (insert_sort xs) ∙ ap (λ b. p x || b) (any-insert_sort p xs)

abbrev heard : ℕ → ℕ → Eph ℕ ℕ
heard sat ttr = eph_1019 numbers seconds words1019 sat ttr

-- An ephemeris received twice, and another one.
abbrev three_entries : List (Eph ℕ ℕ)
three_entries = heard 9 30 ∷ heard 7 20 ∷ heard 7 10 ∷ []

uniqeph-IsChanging_example :
    IsChanging ephs_differ (uniqeph insert_sort three_entries)
    × (any (is_issue 7 5) (uniqeph insert_sort three_entries) ≡ any (is_issue 7 5) three_entries)
uniqeph-IsChanging_example = uniqeph-IsChanging insert_sort any-insert_sort three_entries 7 5
