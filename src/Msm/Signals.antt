-- ===== src/Msm/Signals.antt =====
-- c/rtklib/rtcm3.c: `sigindex`, the place of each signal of a message in the arrays of an
-- observation.
use go_ntrip.Base.{
  ℕ, ◌+◌, ◌-◌, List, [], ◌∷◌, Bool, true, false, ◌&&◌, not, ltb, ◌==◌, if◌then◌else◌, Option, none,
  some,
}
use go_ntrip.Obs.{update}

-- The local arrays of the first loop: for each frequency the priority and the number, from 1, of
-- its best signal, and the signals that are extended ones.
pub record SigPlaces : Type 0 where
  pub pri_h : ℕ → ℕ
  pub index : ℕ → ℕ
  pub ex : ℕ → Bool

-- `NFREQ`, `NEXOBS` and `getcodepri` for the system of the message.
module _ (nfreq nexobs : ℕ) (getcodepri : ℕ → ℕ) where
  -- The body of the first loop, for signal `i`, a code and its frequency.
  unfoldable pub rank_signal : ℕ → ℕ × ℕ → SigPlaces → SigPlaces
  rank_signal i signal s =
      let pri = getcodepri signal.0 in
      let f = signal.1 - 1 in
      let best = s.index f in
      if signal.0 == 0
      then s
      else if ltb nfreq signal.1
      then record s { ex = update s.ex i true }
      else if ltb (s.pri_h f) pri
      then record {
        pri_h = update s.pri_h f pri;
        index = update s.index f (i + 1);
        ex = if best == 0 then s.ex else update s.ex (best - 1) true;
      }
      else record s { ex = update s.ex i true }

  unfoldable pub rank_signals : ℕ → List (ℕ × ℕ) → SigPlaces → SigPlaces
  rank_signals i [] s = s
  rank_signals i (signal ∷ signals) s = rank_signals (i + 1) signals (rank_signal i signal s)

  -- The second loop: none for -1, which a signal without a frequency has too.
  unfoldable pub place_signals : (ℕ → Bool) → ℕ → ℕ → List (ℕ × ℕ) → List (Option ℕ)
  place_signals ex i nex [] = []
  place_signals ex i nex (signal ∷ signals) =
      let extended = ex i && ltb nex nexobs in
      let rest = place_signals ex (i + 1) (if extended then nex + 1 else nex) signals in
      (if not (ex i)
        then (if signal.1 == 0 then none else some (signal.1 - 1))
        else if extended
        then some (nfreq + nex)
        else none)
      ∷ rest

  unfoldable pub sigindex : List (ℕ × ℕ) → List (Option ℕ)
  sigindex signals =
      let ranked =
        rank_signals 0 signals (record { pri_h = λ f. 0; index = λ f. 0; ex = λ i. false }) in
      place_signals ranked.ex 0 0 signals
