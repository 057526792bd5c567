-- ===== src/Codes/Ids.antt =====
-- Codes, names and signal ids are translated there and back.
use go_ntrip.Base.{
  ℕ, zero, suc, ◌+◌, ◌-◌, ◌≤◌, ◌<◌, ◌≡◌, refl, sym, subst, Bool, true, false, ◌&&◌, ◌||◌, ◌==◌,
  get_or, passes_below, passes_below_at, arith,
}
use go_ntrip.Satellite.{
  System, System.gps, System.glo, System.gal, System.qzs, System.cmp, System.leo, System.sbs,
  System.sys_none,
}
use go_ntrip.Codes.Tables.{no_name}
use go_ntrip.Codes.{
  CodeNumbers, same_name, search_code, obs2code, code2obs, defined_code, msm_sig, beidou_freq,
  search_sig, to_sigid, sig_code,
}

-- The constants number the table of names.
abbrev pub numbered : CodeNumbers
numbered = record {
  l1p = 2;
  l1y = 4;
  l1m = 5;
  l1n = 6;
  l2d = 15;
  l2p = 19;
  l2y = 21;
  l2m = 22;
  l2n = 23;
  maxcode = 48;
}

code_returns : ℕ → Bool
code_returns i =
    let code = i + 1 in
    let back = obs2code (code2obs numbered code).0 in
    (back.0 == code) && (back.1 == (code2obs numbered code).1)

all_codes : passes_below code_returns 48 ≡ true
unfolding passes_below code_returns obs2code code2obs search_code
all_codes = refl

-- An id without a signal; the ids that `to_sigid` replaces by that of another signal; and id 18 of
-- Galileo, "8I", a name that the table of codes does not have.
abbrev pub unused : System → ℕ → Bool
unused gps id =
    (id == 5)
    || (id == 6)
    || (id == 11)
    || (id == 12)
    || same_name (get_or (msm_sig gps) (id - 1) no_name) no_name
unused gal id = (id == 18) || same_name (get_or (msm_sig gal) (id - 1) no_name) no_name
unused sys id = same_name (get_or (msm_sig sys) (id - 1) no_name) no_name

id_returns : System → ℕ → Bool
id_returns sys i =
    let id = i + 1 in
    let back = to_sigid numbered sys (sig_code sys id).0 in
    unused sys id || ((back.0 == id) && (back.1 == (sig_code sys id).1))

all_ids : (sys : System) → passes_below (id_returns sys) 32 ≡ true
unfolding passes_below id_returns to_sigid sig_code obs2code code2obs search_code search_sig
    defined_code beidou_freq msm_sig
all_ids gps = refl
all_ids glo = refl
all_ids gal = refl
all_ids qzs = refl
all_ids cmp = refl
all_ids leo = refl
all_ids sbs = refl
all_ids sys_none = refl

-- The name, the code and the frequency of a code from 1 to 48 are found again from its name.
pub obs2code-code2obs :
    (code : ℕ)
    → 0 < code
    → code ≤ 48
    → obs2code (code2obs numbered code).0 ≡ (code, (code2obs numbered code).1)
unfolding code_returns
obs2code-code2obs zero low high = absurd (omega arith)
obs2code-code2obs (suc i) low high =
    let e : i + 1 ≡ suc i = omega arith in
    let t = passes_below_at code_returns 48 i (omega arith) all_codes in
    subst (λ k. obs2code (code2obs numbered k).0 ≡ (k, (code2obs numbered k).1)) e (ground arith)

-- When the constants CODE_... number the table of codes, then for every system and every signal id
-- from 1 to 32 that has a signal, to_sigid of the code that a decoder finds for the id is the id
-- again, with the same frequency; left out are the four ids of GPS whose codes to_sigid replaces
-- and id 18 of Galileo.
pub to_sigid-sig_code :
    (sys : System) (id : ℕ)
    → 0 < id
    → id ≤ 32
    → unused sys id ≡ false
    → to_sigid numbered sys (sig_code sys id).0 ≡ (id, (sig_code sys id).1)
unfolding id_returns
to_sigid-sig_code sys zero low high used = absurd (omega arith)
to_sigid-sig_code sys (suc i) low high used =
    let e : i + 1 ≡ suc i = omega arith in
    let t = passes_below_at (id_returns sys) 32 i (omega arith) (all_ids sys) in
    let used' : unused sys (i + 1) ≡ false = subst (λ k. unused sys k ≡ false) (sym e) used in
    subst (λ k. to_sigid numbered sys (sig_code sys k).0 ≡ (k, (sig_code sys k).1)) e (ground arith)

-- Id 18 of Galileo is not decoded.
pub sig_code_8i : sig_code gal 18 ≡ (0, 0)
unfolding sig_code obs2code search_code msm_sig beidou_freq
sig_code_8i = refl
