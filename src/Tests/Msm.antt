-- ===== src/Tests/Msm.antt =====
-- Multiple signal messages with plain numbers for doubles: one satellite of GPS with one signal.
use go_ntrip.Base.{
  ℕ, ◌+◌, ◌*◌, ◌≤◌, ◌≡◌, refl, true, [], ◌∷◌, replicate, none, ◌==◌, if◌then◌else◌, take, arith,
}
use go_ntrip.Bits.{setbitu, setbits, write_loop, write_bit}
use go_ntrip.Bits.Fields.{put}
use go_ntrip.Bits.Message.{AllFit, Agrees, write_field, write_fields, total}
use go_ntrip.Rtcm.{Rtcm, start_frame, close_frame, pad, gen_rtcm3, feed}
use go_ntrip.Rtcm.Receive.{statuses}
use go_ntrip.Satellite.{System.gps, satsys, find_sys, prn_of, maxsat}
use go_ntrip.Station.{StaState, test_staid}
use go_ntrip.Ephemeris.{same_sys, sys_id, round, round_u}
use go_ntrip.Codes.{code2obs, defined_code, msm_sig, search_sig, beidou_freq, to_sigid}
use go_ntrip.Codes.Ids.{numbered}
use go_ntrip.Lock.{to_msm_lock, to_msm_lock_ex}
use go_ntrip.Obs.{Obsd, ObsState}
use go_ntrip.Msm.{FullMsm.msm7, head_fields, full_fields}
use go_ntrip.Msm.Values.{
  Setup, range_ms, band_wave, satwavelen, rough_units, int_rrng, mod_rrng, rrate, fine, psrng,
  psrng_ex, phrng, phrng_ex, lock_word, lock_word_ex, cnr_word, cnr_word_ex, rate_word,
}
use go_ntrip.Msm.Index.{
  Visit, to_satid, visit_signals, visits, mark, cell_of, mark_cells, number, number_cells,
  gen_msm_index, fcn_glo, info_of, sat_step, sat_loop, gen_msm_sat, locktime_d, whole_cycles,
  sig_step, sig_loop, gen_msm_sig,
}
use go_ntrip.Msm.Encode.{
  first_number, mask_of, epoch_word, msm_body, compact_words, full_words, encode_msm, encode_full,
}
use go_ntrip.Msm.Decode.{Priorities, decode_msm}
use go_ntrip.Msm.RoundTrip.{with_cells}
use go_ntrip.Msm.Numbering.{IsFound, gen_msm_index-IsFound}
use go_ntrip.Msm.Invariant.{IsTable, decode_msm-IsTable}
use go_ntrip.Msm.Sent.{sent_body, sent_fields, decode_msm-encode_full, total-sent_fields}
use go_ntrip.Msm.Delivery.{encoder, decoder, sent, result, gen_rtcm3-feed_msm}
use go_ntrip.Tests.Doubles.{numbers, seconds, ranges}
use go_ntrip.Tests.Glonass.{calendar}
use go_ntrip.Tests.Ephemeris.{blank-IsBytes}

abbrev pub setup : Setup ℕ ℕ
setup = record {
  d = numbers;
  k = seconds;
  g = calendar;
  prns = ranges;
  codes = numbered;
  bands = record {
    glo = 1 ∷ 1 ∷ 1 ∷ [];
    glo_step = 0 ∷ 0 ∷ 0 ∷ [];
    cmp = 1 ∷ 1 ∷ 1 ∷ [];
    other = 1 ∷ 1 ∷ 1 ∷ 1 ∷ 1 ∷ 1 ∷ [];
  };
  nfreq = 3;
  nexobs = 3;
  maxobs = 64;
  to_float = λ v. v;
  unset_lock = 3;
  unset_half = 1;
  unset_cnr = 5;
}

abbrev one_signal : Obsd ℕ ℕ
one_signal = record {
  sat = 7;
  time = 7300;
  p = λ j. 21;
  l = λ j. 25;
  dop = λ j. 0;
  snr = λ j. 2;
  lli = λ j. 0;
  code = λ j. if j == 0 then 1 else 0;
}

abbrev station : StaState ℕ
station = record {
  sta = record {
    deltype = 0;
    x = 0;
    y = 0;
    z = 0;
    del_x = 0;
    del_y = 0;
    del_z = 0;
    hgt = 0;
    itrf = 0;
  };
  staid = 12;
  obsflag = true;
  only = none;
}

abbrev pub observing : Rtcm (ObsState ℕ ℕ)
observing = record {
  nbyte = 0;
  nbit = 0;
  len = 80;
  buff = replicate 80 0;
  body = record {
    station = station;
    seqno = 3;
    time = 7300;
    obs = one_signal ∷ [];
    cp = λ s j. 0;
    lock = λ s j. 0;
    lltime = λ s j. 0;
    gephs = [];
  };
}

abbrev pub priorities : Priorities
priorities = record { opts = λ sys. []; pris = λ sys. [] }

pub one_cell :
    (sent_body setup gps msm7 0 observing).index.nsat
      * (sent_body setup gps msm7 0 observing).index.nsig
    ≤ 64
unfolding msm_body gen_msm_index visits visit_signals to_satid satsys find_sys prn_of maxsat
    same_sys sys_id to_sigid code2obs defined_code msm_sig search_sig beidou_freq mark number
one_cell = omega arith

msm7_sent : (encode_full setup msm7 gps 0 observing).1 ≡ true
unfolding encode_full encode_msm first_number
msm7_sent = refl

pub msm7_fits : AllFit (sent_fields setup gps msm7 0 observing)
unfolding msm_body gen_msm_index visits visit_signals to_satid satsys find_sys prn_of maxsat
    same_sys sys_id to_sigid code2obs defined_code msm_sig search_sig beidou_freq mark number
    mark_cells cell_of number_cells gen_msm_sat sat_loop sat_step gen_msm_sig sig_loop sig_step
    locktime_d whole_cycles info_of fcn_glo range_ms band_wave satwavelen rough_units int_rrng
    mod_rrng rrate fine psrng psrng_ex phrng phrng_ex lock_word lock_word_ex cnr_word cnr_word_ex
    rate_word to_msm_lock to_msm_lock_ex round round_u first_number mask_of epoch_word compact_words
    full_words head_fields full_fields
msm7_fits = omega arith

pub msm7_length : total (sent_fields setup gps msm7 0 observing) ≡ 286
unfolding msm_body gen_msm_index visits visit_signals to_satid satsys find_sys prn_of maxsat
    same_sys sys_id to_sigid code2obs defined_code msm_sig search_sig beidou_freq mark number
    mark_cells cell_of number_cells mask_of compact_words full_words head_fields full_fields
    gen_msm_sat sat_loop sat_step gen_msm_sig sig_loop sig_step round range_ms satwavelen band_wave
msm7_length = refl

abbrev msm_receiver : Rtcm (ObsState ℕ ℕ)
msm_receiver = record observing { buff = (encode_full setup msm7 gps 0 observing).0.buff }

decode_msm-encode_full_example :
    decode_msm setup gps priorities msm7 msm_receiver
    ≡ with_cells setup gps
        (sent_body setup gps msm7 0 observing).head
        msm_receiver
        priorities
        msm7
        (full_words setup msm7 (sent_body setup gps msm7 0 observing))
unfolding Agrees test_staid
decode_msm-encode_full_example =
    decode_msm-encode_full setup gps msm7 0 observing priorities msm_receiver blank-IsBytes
      msm7_sent one_cell msm7_fits (omega (arith, msm7_length)) (omega (arith, msm7_length))
      (λ q n narrow from upto. refl) refl

total-sent_fields_example : 24 + total (sent_fields setup gps msm7 0 observing) ≤ 8 * 1026
total-sent_fields_example = total-sent_fields setup gps msm7 0 observing one_cell

sent_length_msm7 : (sent setup gps priorities msm7 1077 0 observing observing).len ≡ 39
unfolding gen_rtcm3 start_frame close_frame pad put setbitu setbits write_loop write_bit write_field
    write_fields encode_full encode_msm msm_body gen_msm_index visits visit_signals to_satid satsys
    find_sys prn_of maxsat same_sys sys_id to_sigid code2obs defined_code msm_sig search_sig
    beidou_freq mark number mark_cells cell_of number_cells gen_msm_sat sat_loop sat_step
    gen_msm_sig sig_loop sig_step locktime_d whole_cycles info_of fcn_glo range_ms band_wave
    satwavelen rough_units int_rrng mod_rrng rrate fine psrng psrng_ex phrng phrng_ex lock_word
    lock_word_ex cnr_word cnr_word_ex rate_word to_msm_lock to_msm_lock_ex round round_u
    first_number mask_of epoch_word compact_words full_words head_fields full_fields
sent_length_msm7 = refl

gen_rtcm3-feed_msm_example :
    ((gen_rtcm3 (encoder setup gps priorities msm7) observing 1077 0).1 ≡ true)
    × (feed (decoder setup gps priorities msm7) observing (
          take
            (sent setup gps priorities msm7 1077 0 observing observing).nbyte
            (sent setup gps priorities msm7 1077 0 observing observing).buff)
        ≡ (
          (result setup gps priorities msm7 1077 0 observing observing).0,
          statuses
              ((sent setup gps priorities msm7 1077 0 observing observing).len + 2)
              (result setup gps priorities msm7 1077 0 observing observing).1,
        ))
unfolding test_staid
gen_rtcm3-feed_msm_example =
    gen_rtcm3-feed_msm setup gps priorities msm7 1077 0 observing observing blank-IsBytes msm7_sent
      one_cell msm7_fits (omega (arith, msm7_length)) refl (omega (arith, sent_length_msm7)) refl

abbrev one_visit : Visit ℕ ℕ
one_visit = record { sat = 7; sig = 2; f = 1; j = 0; obs = one_signal }

gen_msm_index-IsFound_example : IsFound (gen_msm_index (one_visit ∷ [])) one_visit
unfolding gen_msm_index mark number
gen_msm_index-IsFound_example =
    gen_msm_index-IsFound one_visit [] [] (omega arith) (omega arith) (omega arith) (omega arith)
      (omega arith)

decode_msm-IsTable_example : IsTable 64 (decode_msm setup gps priorities msm7 msm_receiver).0.body
decode_msm-IsTable_example =
    decode_msm-IsTable setup gps priorities msm7 msm_receiver
      (record { distinct = (tt, tt); bounded = omega arith })
