-- ===== src/Station.antt =====
-- c/rtklib/rtcm3.c and rtcm3e.c: the position of the reference station, types 1005 and 1006, the
-- 38-bit fields of the coordinates (`set38bits`, `getbits_38`), and the test of the station id.
pub mod RoundTrip
use go_ntrip.Base.{
  ℕ, ◌+◌, ◌*◌, List, [], ◌∷◌, ◌++◌, Bool, true, false, ◌&&◌, ◌||◌, not, ltb, ◌==◌, if◌then◌else◌, ℤ,
  pos, negsuc, Option, none, some,
}
use go_ntrip.Bits.{getbitu, getbits}
use go_ntrip.Bits.Message.{Field, Field.u, Field.s, write_fields}
use go_ntrip.Rtcm.{Rtcm}
use go_ntrip.Ephemeris.{Doubles, Clock, round}

-- The members of `sta_t` that the messages set.
pub record Sta (D : Type 0) : Type 0 where
  pub deltype : ℕ
  pub x : D
  pub y : D
  pub z : D
  pub del_x : D
  pub del_y : D
  pub del_z : D
  pub hgt : D
  pub itrf : ℕ

-- The members of `rtcm_t` that these messages use; `only` is the number behind "-STA=" in the
-- option text, if there is one.
pub record StaState (D : Type 0) : Type 0 where
  pub sta : Sta D
  pub staid : ℕ
  pub obsflag : Bool
  pub only : Option ℕ

-- The two words of a 38-bit coordinate.
pub record Words38 : Type 0 where
  pub high : ℕ
  pub low : ℕ

-- What a message says: the station, and the coordinates and the height as words.
pub record StaWords : Type 0 where
  pub staid : ℕ
  pub itrf : ℕ
  pub x : Words38
  pub y : Words38
  pub z : Words38
  pub hgt : ℕ

-- `set38bits`
unfoldable pub fields38 : Words38 → List Field → List Field
fields38 v rest = s 32 v.high ∷ u 6 v.low ∷ rest

-- The fields behind the message number, up to the coordinates' end.
unfoldable pub position_fields : StaWords → List Field → List Field
position_fields w rest =
    u 12 w.staid
    ∷ u 6 w.itrf
    ∷ u 1 1
    ∷ u 1 1
    ∷ u 1 0
    ∷ u 1 0
    ∷ fields38 w.x (u 1 1 ∷ u 1 0 ∷ fields38 w.y (u 2 0 ∷ fields38 w.z rest))

unfoldable pub fields_1005 : StaWords → List Field
fields_1005 w = u 12 1005 ∷ position_fields w []

unfoldable pub fields_1006 : StaWords → List Field
fields_1006 w = u 12 1006 ∷ position_fields w (u 16 w.hgt ∷ [])

-- The two calls in `getbits_38`.
unfoldable pub read_38 : List ℕ → ℕ → Words38
read_38 buff i = record { high = getbits buff i 32; low = getbitu buff (i + 32) 6 }

unfoldable pub read_1005 : List ℕ → StaWords
read_1005 buff = record {
  staid = getbitu buff 36 12;
  itrf = getbitu buff 48 6;
  x = read_38 buff 58;
  y = read_38 buff 98;
  z = read_38 buff 138;
  hgt = 0;
}

unfoldable pub read_1006 : List ℕ → StaWords
read_1006 buff = record {
  staid = getbitu buff 36 12;
  itrf = getbitu buff 48 6;
  x = read_38 buff 58;
  y = read_38 buff 98;
  z = read_38 buff 138;
  hgt = getbitu buff 176 16;
}

-- The station id is accepted, or the message is dropped; a station that does not match the one in
-- use resets it.
unfoldable pub test_staid : {D : Type 0} → StaState D → ℕ → StaState D × Bool
test_staid st id =
    let other : Bool = elim st.only [ none ↦ false | some wanted ↦ not (id == wanted) ] in
    if other
    then (st, false)
    else if st.staid == 0 || st.obsflag
    then (record st { staid = id }, true)
    else if not (id == st.staid)
    then (record st { staid = 0 }, false)
    else (st, true)

module _ {D T : Type 0} (d : Doubles D) (k : Clock D T) where
  -- `set38bits`: the value in units of 64 rounded down, and what is left.
  unfoldable pub split38 : D → Words38
  split38 value =
      let word_h = d.to_int (d.floor (d.div value (d.num 64))) in
      record { high = word_h; low = d.to_uint (d.sub value (d.mul (d.of_int word_h) (d.num 64))) }

  -- `getbits_38`
  unfoldable pub join38 : Words38 → D
  join38 v = d.add (d.mul (d.of_int v.high) (d.num 64)) (d.of_uint v.low)

  -- The height that `encode_type1006` writes: 0 for one out of range.
  unfoldable pub height : D → ℕ
  height hgt = if d.le (d.num 0) hgt && d.le hgt d.hgt_max then round d k (d.div hgt d.e_4) else 0

  unfoldable pub words_1005 : StaState D → StaWords
  words_1005 st = record {
    staid = st.staid;
    itrf = 0;
    x = split38 (d.div st.sta.x d.e_4);
    y = split38 (d.div st.sta.y d.e_4);
    z = split38 (d.div st.sta.z d.e_4);
    hgt = 0;
  }

  unfoldable pub words_1006 : StaState D → StaWords
  words_1006 st = record (words_1005 st) { hgt = height st.sta.hgt }

  unfoldable pub encode_sta : List Field → Rtcm (StaState D) → Rtcm (StaState D) × Bool
  encode_sta fields r =
      let out = write_fields r.buff 24 fields in (record r { buff = out.0; nbit = out.1 }, true)

  unfoldable pub encode_type1005 : Rtcm (StaState D) → Rtcm (StaState D) × Bool
  encode_type1005 r = encode_sta (fields_1005 (words_1005 r.body)) r

  unfoldable pub encode_type1006 : Rtcm (StaState D) → Rtcm (StaState D) × Bool
  encode_type1006 r = encode_sta (fields_1006 (words_1006 r.body)) r

  -- The station as the words say.
  unfoldable pub sta_of : ℕ → D → StaWords → Sta D
  sta_of deltype hgt w = record {
    deltype = deltype;
    x = d.mul (join38 w.x) d.e_4;
    y = d.mul (join38 w.y) d.e_4;
    z = d.mul (join38 w.z) d.e_4;
    del_x = d.num 0;
    del_y = d.num 0;
    del_z = d.num 0;
    hgt = hgt;
    itrf = w.itrf;
  }

  -- The end of the decoders.
  unfoldable pub save_sta : ℕ → D → Rtcm (StaState D) → StaWords → Rtcm (StaState D) × ℤ
  save_sta deltype hgt r w =
      let tested = test_staid r.body w.staid in
      if tested.1
      then (record r { body = record (tested.0) { sta = sta_of deltype hgt w } }, pos 5)
      else (record r { body = tested.0 }, negsuc 0)

  unfoldable pub decode_type1005 : Rtcm (StaState D) → Rtcm (StaState D) × ℤ
  decode_type1005 r =
      if not (36 + 140 == r.len * 8)
      then (r, negsuc 0)
      else save_sta 0 (d.num 0) r (read_1005 r.buff)

  unfoldable pub decode_type1006 : Rtcm (StaState D) → Rtcm (StaState D) × ℤ
  decode_type1006 r =
      let w = read_1006 r.buff in
      if ltb (r.len * 8) (36 + 156)
      then (r, negsuc 0)
      else save_sta 1 (d.mul (d.of_uint w.hgt) d.e_4) r w
