-- ===== src/Msm/Places.antt =====
-- `sigindex` gives the signals of a message different places in the arrays of an observation.
use go_ntrip.Base.{
  ℕ, zero, suc, ◌+◌, ◌-◌, ◌≤◌, ◌<◌, ◌≡◌, ◌≢◌, refl, sym, ap, ◌∙◌, subst, List, [], ◌∷◌, map, length,
  Bool, true, false, ◌&&◌, ltb, ◌==◌, if◌then◌else◌, none, some, get_or, ◌⊎◌, inl, inr, arith,
  Bool-cases,
}
use go_ntrip.Satellite.{
  System, System.gps, System.glo, System.gal, System.qzs, System.cmp, System.leo, System.sbs,
  System.sys_none,
}
use go_ntrip.Codes.{sig_code, obs2code, beidou_freq}
use go_ntrip.Obs.{update}
use go_ntrip.Msm.Signals.{SigPlaces, rank_signal, rank_signals, place_signals, sigindex}

-- A signal that is not extended after the best one of its frequency has been replaced.
plain_before :
    (c : Bool) (ex : ℕ → Bool) (m k : ℕ)
    → (if c then ex else update ex m true) k ≡ false
    → (ex k ≡ false) × ((c ≡ true) ⊎ (k ≢ m))
plain_before true ex m k h = (h, inl refl)
plain_before false ex m k h = (ground arith, inr (λ e. ground arith))

module _ (nfreq nexobs : ℕ) (pri : ℕ → ℕ) where
  -- Of the first `n` signals those that are not extended hold the place of their frequency.
  abbrev IsRanked : (ℕ → ℕ × ℕ) → ℕ → SigPlaces → Type 0
  IsRanked at n s =
      (k : ℕ)
      → k < n
      → s.ex k ≡ false
      → 0 < (at k).0
      → (s.index ((at k).1 - 1) ≡ k + 1) × ((at k).1 ≤ nfreq)

  module _ (at : ℕ → ℕ × ℕ) (n : ℕ) (s : SigPlaces) (h : IsRanked at n s) where
    skipped-IsRanked : (at n).0 ≡ 0 → IsRanked at (suc n) s
    skipped-IsRanked none_coded k low plain coded =
        let before : k ≢ n = λ e. absurd (omega (arith, none_coded, ap (λ m. (at m).0) e)) in
        h k (omega (arith, before)) plain coded

    extended-IsRanked : IsRanked at (suc n) (record s { ex = update s.ex n true })
    extended-IsRanked k low plain coded =
        let before : (k == n) ≡ false = ground arith in h k (ground arith) (ground arith) coded

    best-IsRanked :
        (at n).1 ≤ nfreq
        → IsRanked at (suc n) (record {
          pri_h = update s.pri_h ((at n).1 - 1) (pri (at n).0);
          index = update s.index ((at n).1 - 1) (n + 1);
          ex =
              if s.index ((at n).1 - 1) == 0
              then s.ex
              else update s.ex (s.index ((at n).1 - 1) - 1) true;
        })
    best-IsRanked small k low plain coded = elim (Bool-cases (k == n)) [
      | inl new ↦
          let e : n ≡ k = ground arith in
          subst
            (λ m.
              (update s.index ((at n).1 - 1) (n + 1) ((at m).1 - 1) ≡ m + 1) × ((at m).1 ≤ nfreq))
            e (ground arith, small)
      | inr old ↦
          let best = s.index ((at n).1 - 1) in
          let was = plain_before (best == 0) s.ex (best - 1) k plain in
          let held = h k (ground arith) was.0 coded in
          elim (Bool-cases ((at k).1 - 1 == (at n).1 - 1)) [
            | inl same ↦
                let e : (at k).1 - 1 ≡ (at n).1 - 1 = ground arith in
                let holds : best ≡ k + 1 = ap s.index (sym e) ∙ held.0 in
                elim was.1 [
                  | inl zero_best ↦ absurd (ground arith)
                  | inr other ↦ absurd (other (omega (arith, holds)))
                ]
            | inr apart ↦ rw apart held
          ]
    ]

  rank_signal-IsRanked :
      (at : ℕ → ℕ × ℕ) (n : ℕ) (s : SigPlaces)
      → IsRanked at n s
      → IsRanked at (suc n) (rank_signal nfreq nexobs pri n (at n) s)
  unfolding rank_signal
  rank_signal-IsRanked at n s h = elim (Bool-cases ((at n).0 == 0)) [
    | inl skipped ↦ rw skipped (skipped-IsRanked at n s h (ground arith))
    | inr signal ↦ elim (Bool-cases (ltb nfreq (at n).1)) [
      | inl beyond ↦ rw (signal, beyond) (extended-IsRanked at n s h)
      | inr within ↦ elim (Bool-cases (ltb (s.pri_h ((at n).1 - 1)) (pri (at n).0))) [
        | inl better ↦ rw (signal, within, better) (best-IsRanked at n s h (ground arith))
        | inr worse ↦ rw (signal, within, worse) (extended-IsRanked at n s h)
      ]
    ]
  ]

  -- The signals left are those of `at` from `i` on.
  rank_signals-IsRanked :
      (at : ℕ → ℕ × ℕ) (signals : List (ℕ × ℕ)) (i : ℕ) (s : SigPlaces)
      → ((m : ℕ) → m < length signals → get_or signals m (0, 0) ≡ at (i + m))
      → IsRanked at i s
      → IsRanked at (i + length signals) (rank_signals nfreq nexobs pri i signals s)
  unfolding rank_signals
  rank_signals-IsRanked at [] i s same h =
      subst (λ n. IsRanked at n s) {x = i} {y = i + 0} (omega arith) h
  rank_signals-IsRanked at (signal ∷ signals) i s same h =
      let first : signal ≡ at i = same 0 (omega arith) ∙ ap at (omega arith) in
      let step = rank_signal-IsRanked at i s h in
      let step' =
        subst (λ v. IsRanked at (suc i) (rank_signal nfreq nexobs pri i v s)) (sym first) step in
      let rest =
        rank_signals-IsRanked at signals (i + 1) (rank_signal nfreq nexobs pri i signal s)
          (λ m low. same (suc m) (omega arith) ∙ ap at (omega arith))
          (subst (λ n. IsRanked at n (rank_signal nfreq nexobs pri i signal s)) {x = suc i}
            {y = i + 1} (omega arith) step') in
      subst
        (λ n.
          IsRanked at n (
            rank_signals nfreq nexobs pri (i + 1) signals
              (rank_signal nfreq nexobs pri i signal s)))
        {x = i + 1 + length signals} {y = i + suc (length signals)} (omega arith) rest

  -- The place of a signal that is not extended, and of one that is.
  place_plain :
      (ex : ℕ → Bool) (signals : List (ℕ × ℕ)) (i nex m a : ℕ)
      → ex (i + m) ≡ false
      → get_or (place_signals nfreq nexobs pri ex i nex signals) m none ≡ some a
      → suc a ≡ (get_or signals m (0, 0)).1
  unfolding place_signals
  place_plain ex [] i nex m a plain e = absurd (ground arith)
  place_plain ex (signal ∷ signals) i nex zero a plain e =
      let here : ex i ≡ false = ap ex {x = i} {y = i + 0} (omega arith) ∙ plain in ground arith
  place_plain ex (signal ∷ signals) i nex (suc m) a plain e =
      place_plain ex signals (i + 1) _ m a
        (ap ex {x = i + 1 + m} {y = i + suc m} (omega arith) ∙ plain) e

  place_extended :
      (ex : ℕ → Bool) (signals : List (ℕ × ℕ)) (i nex m a : ℕ)
      → ex (i + m) ≡ true
      → get_or (place_signals nfreq nexobs pri ex i nex signals) m none ≡ some a
      → (nfreq + nex ≤ a) × (a < nfreq + nexobs)
  unfolding place_signals
  place_extended ex [] i nex m a extended e = absurd (ground arith)
  place_extended ex (signal ∷ signals) i nex zero a extended e =
      let here : ex i ≡ true = ap ex {x = i} {y = i + 0} (omega arith) ∙ extended in ground arith
  place_extended ex (signal ∷ signals) i nex (suc m) a extended e =
      let next = if ex i && ltb nex nexobs then nex + 1 else nex in
      let more : nex ≤ next = ground arith in
      let rest =
        place_extended ex signals (i + 1) next m a
          (ap ex {x = i + 1 + m} {y = i + suc m} (omega arith) ∙ extended) e in
      (omega (arith, more, rest.0), rest.1)

  place_apart :
      (ex : ℕ → Bool) (signals : List (ℕ × ℕ)) (i nex m k a b : ℕ)
      → ex (i + m) ≡ true
      → ex (i + k) ≡ true
      → m < k
      → get_or (place_signals nfreq nexobs pri ex i nex signals) m none ≡ some a
      → get_or (place_signals nfreq nexobs pri ex i nex signals) k none ≡ some b
      → a < b
  unfolding place_signals
  place_apart ex [] i nex m k a b em ek low ea eb = absurd (ground arith)
  place_apart ex (signal ∷ signals) i nex m zero a b em ek low ea eb = absurd (omega arith)
  place_apart ex (signal ∷ signals) i nex zero (suc k) a b em ek low ea eb =
      let here : ex i ≡ true = ap ex {x = i} {y = i + 0} (omega arith) ∙ em in
      let next = if ex i && ltb nex nexobs then nex + 1 else nex in
      let rest =
        place_extended ex signals (i + 1) next k b
          (ap ex {x = i + 1 + k} {y = i + suc k} (omega arith) ∙ ek) eb in
      ground arith
  place_apart ex (signal ∷ signals) i nex (suc m) (suc k) a b em ek low ea eb =
      place_apart ex signals (i + 1) _ m k a b
        (ap ex {x = i + 1 + m} {y = i + suc m} (omega arith) ∙ em)
        (ap ex {x = i + 1 + k} {y = i + suc k} (omega arith) ∙ ek) (omega arith) ea eb

-- A signal without a code has no frequency.
sig_code_freq : (sys : System) (id : ℕ) → 0 < (sig_code sys id).1 → 0 < (sig_code sys id).0
unfolding sig_code obs2code beidou_freq
sig_code_freq gps id h = ground arith
sig_code_freq glo id h = ground arith
sig_code_freq gal id h = ground arith
sig_code_freq qzs id h = ground arith
sig_code_freq cmp id h = ground arith
sig_code_freq leo id h = ground arith
sig_code_freq sbs id h = ground arith
sig_code_freq sys_none id h = ground arith

module _ (nfreq nexobs : ℕ) (pri : ℕ → ℕ) (sys : System) where
  abbrev signal_at : List ℕ → ℕ → ℕ × ℕ
  signal_at ids m = get_or (map (λ id. sig_code sys id) ids) m (0, 0)

  -- What has a frequency has a code and is one of the signals.
  coded_at :
      (ids : List ℕ) (m : ℕ)
      → 0 < (signal_at ids m).1
      → (0 < (signal_at ids m).0) × (m < length (map (λ id. sig_code sys id) ids))
  coded_at [] m h = absurd (omega arith)
  coded_at (id ∷ ids) zero h = (sig_code_freq sys id h, omega arith)
  coded_at (id ∷ ids) (suc m) h = let rest = coded_at ids m h in (rest.0, omega (arith, rest.1))

  module _ (ids : List ℕ) where
    abbrev signals : List (ℕ × ℕ)
    signals = map (λ id. sig_code sys id) ids

    abbrev ranked : SigPlaces
    ranked =
        rank_signals nfreq nexobs pri 0 signals
          (record { pri_h = λ f. 0; index = λ f. 0; ex = λ i. false })

    ranked-IsRanked : IsRanked nfreq nexobs pri (signal_at ids) (0 + length signals) ranked
    ranked-IsRanked =
        rank_signals-IsRanked nfreq nexobs pri (signal_at ids) signals 0 _
          (λ m low. ap (signal_at ids) (omega arith)) (λ k low plain coded. absurd (omega arith))

    -- The signal at `m` holds the place of its frequency.
    abbrev Holds : ℕ → ℕ → Type 0
    Holds m a = (ranked.index a ≡ m + 1) × (suc a ≤ nfreq)

    place_held :
        (m a : ℕ)
        → ranked.ex m ≡ false
        → get_or (sigindex nfreq nexobs pri signals) m none ≡ some a
        → Holds m a
    unfolding sigindex
    place_held m a plain e =
        let freq =
          place_plain nfreq nexobs pri ranked.ex signals 0 0 m a
            (ap ranked.ex {x = 0 + m} {y = m} (omega arith) ∙ plain) e in
        let coded = coded_at ids m (omega (arith, freq)) in
        let held = ranked-IsRanked m (omega (arith, coded.1)) plain coded.0 in
        (ap ranked.index (omega (arith, freq)) ∙ held.0, omega (arith, freq, held.1))

    place_new :
        (m a : ℕ)
        → ranked.ex m ≡ true
        → get_or (sigindex nfreq nexobs pri signals) m none ≡ some a
        → (nfreq ≤ a) × (a < nfreq + nexobs)
    unfolding sigindex
    place_new m a extended e =
        let p =
          place_extended nfreq nexobs pri ranked.ex signals 0 0 m a
            (ap ranked.ex {x = 0 + m} {y = m} (omega arith) ∙ extended) e in
        (omega (arith, p.0), p.1)

    -- For the signals of any message, two of them that sigindex gives a place have different
    -- places, and both are indices of the arrays of NFREQ+NEXOBS entries.
    pub sigindex_distinct :
        (i j a b : ℕ)
        → i < j
        → get_or (sigindex nfreq nexobs pri (map (λ id. sig_code sys id) ids)) i none ≡ some a
        → get_or (sigindex nfreq nexobs pri (map (λ id. sig_code sys id) ids)) j none ≡ some b
        → (a ≢ b) × (a < nfreq + nexobs) × (b < nfreq + nexobs)
    unfolding sigindex
    sigindex_distinct i j a b low ea eb = elim (Bool-cases (ranked.ex i)) [
      | inl ex_i ↦
          let pi = place_new i a ex_i ea in
          elim (Bool-cases (ranked.ex j)) [
            | inl ex_j ↦
                let pj = place_new j b ex_j eb in
                let apart =
                  place_apart nfreq nexobs pri ranked.ex signals 0 0 i j a b
                    (ap ranked.ex {x = 0 + i} {y = i} (omega arith) ∙ ex_i)
                    (ap ranked.ex {x = 0 + j} {y = j} (omega arith) ∙ ex_j) low ea eb in
                (λ e. omega (arith, e, apart), pi.1, pj.1)
            | inr plain_j ↦
                let hj = place_held j b plain_j eb in
                (λ e. omega (arith, e, hj.1, pi.0), pi.1, omega (arith, hj.1))
          ]
      | inr plain_i ↦
          let hi = place_held i a plain_i ea in
          elim (Bool-cases (ranked.ex j)) [
            | inl ex_j ↦
                let pj = place_new j b ex_j eb in
                (λ e. omega (arith, e, hi.1, pj.0), omega (arith, hi.1), pj.1)
            | inr plain_j ↦
                let hj = place_held j b plain_j eb in
                (
                  λ e. omega (arith, ap ranked.index e, hi.0, hj.0),
                  omega (arith, hi.1),
                  omega (arith, hj.1),
                )
          ]
    ]
