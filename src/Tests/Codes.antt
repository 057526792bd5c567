-- ===== src/Tests/Codes.antt =====
-- Codes, signal ids and the table of observations on concrete inputs.
use go_ntrip.Base.{ℕ, ◌+◌, ◌≤◌, ◌<◌, ◌≡◌, ◌≢◌, refl, List, [], ◌∷◌, length, arith}
use go_ntrip.Satellite.{System.gps}
use go_ntrip.Codes.{msm_sig, to_sigid, sig_code, obs2code, search_code, beidou_freq}
use go_ntrip.Codes.Ids.{numbered, to_sigid-sig_code}
use go_ntrip.Obs.{Obsd, new_obs, obsindex}
use go_ntrip.Obs.Table.{AreDistinct, IsIndexed, obsindex-IsIndexed}
use go_ntrip.Msm.Signals.{rank_signal, rank_signals, place_signals, sigindex}
use go_ntrip.Msm.Places.{sigindex_distinct}
use go_ntrip.Tests.Doubles.{numbers}

to_sigid-sig_code_example : to_sigid numbered gps (sig_code gps 2).0 ≡ (2, (sig_code gps 2).1)
unfolding msm_sig
to_sigid-sig_code_example = to_sigid-sig_code gps 2 (omega arith) (omega arith) refl

abbrev noon : ℕ
noon = 7300

abbrev one_entry : List (Obsd ℕ ℕ)
one_entry = new_obs numbers noon 5 ∷ []

obsindex-IsIndexed_example :
    AreDistinct (obsindex numbers 2 one_entry noon 9).0
    × (length (obsindex numbers 2 one_entry noon 9).0 ≤ 2)
    × IsIndexed numbers 2 one_entry 9 (obsindex numbers 2 one_entry noon 9)
obsindex-IsIndexed_example = obsindex-IsIndexed numbers 2 one_entry noon 9 (tt, tt) (omega arith)

-- Three signals of L1: the first with the higher priority holds the frequency.
sigindex_distinct_example : (◌≢◌ {A = ℕ} 0 3) × (0 < 3 + 3) × (3 < 3 + 3)
unfolding sigindex rank_signals rank_signal place_signals sig_code obs2code search_code msm_sig
    beidou_freq
sigindex_distinct_example =
    sigindex_distinct 3 3 (λ code. code) gps (2 ∷ 2 ∷ 10 ∷ []) 0 1 0 3 (omega arith) refl refl
