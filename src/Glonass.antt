-- ===== src/Glonass.antt =====
-- c/rtklib/rtcm3.c, `decode_type1020`, and rtcm3e.c, `encode_type1020`: the ephemeris of GLONASS,
-- whose signed members are sent as sign and magnitude (`setbitg`, `getbitg`).
pub mod RoundTrip
use go_ntrip.Base.{
  ℕ, ◌+◌, ◌-◌, ◌*◌, ◌%◌, ◌^◌, bit_and, List, [], ◌∷◌, Bool, true, false, ◌&&◌, not, ltb, ◌==◌,
  if◌then◌else◌, ℤ, pos, negsuc,
}
use go_ntrip.Bits.{getbitu}
use go_ntrip.Bits.Message.{Field, Field.u, write_fields}
use go_ntrip.Rtcm.{Rtcm}
use go_ntrip.Satellite.{System.glo, PrnRanges, satno, satsys}
use go_ntrip.Ephemeris.{Doubles, Clock, round, same_sys}

-- The six numbers of a calendar date.
pub record Epoch (D : Type 0) : Type 0 where
  pub year : D
  pub month : D
  pub day : D
  pub hour : D
  pub minute : D
  pub second : D

-- The operations on doubles and times that this message uses besides those of `Doubles`; `tow` and
-- `week` are the two results of time2gpst, `now` is timeget(), `is_zero` tests the member `time`.
pub record Calendar (D T : Type 0) : Type 0 where
  pub neg : D → D
  pub abs : D → D
  pub fmod : D → D → D
  pub gpst2utc : T → T
  pub utc2gpst : T → T
  pub timeadd : T → D → T
  pub timediff : T → T → D
  pub time2epoch : T → Epoch D
  pub epoch2time : Epoch D → T
  pub tow : T → D
  pub week : T → ℕ
  pub gpst2time : ℕ → D → T
  pub now : T
  pub is_zero : T → Bool

-- `geph_t`
pub record Geph (D T : Type 0) : Type 0 where
  pub sat : ℕ
  pub iode : ℕ
  pub frq : ℕ
  pub svh : ℕ
  pub age : ℕ
  pub toe : T
  pub tof : T
  pub vel0 : D
  pub pos0 : D
  pub acc0 : D
  pub vel1 : D
  pub pos1 : D
  pub acc1 : D
  pub vel2 : D
  pub pos2 : D
  pub acc2 : D
  pub taun : D
  pub gamn : D
  pub dtaun : D

-- The members of `rtcm_t` that this message uses: `nav.geph` by its index.
pub record GloState (D T : Type 0) : Type 0 where
  pub gephs : ℕ → Geph D T
  pub ephsat : ℕ
  pub time : T
  pub ephall : Bool

-- The sign bit and the other bits of a field.
pub record Magnitude : Type 0 where
  pub sign : ℕ
  pub size : ℕ

pub record Words1020 : Type 0 where
  pub prn : ℕ
  pub fcn : ℕ
  pub tk_h : ℕ
  pub tk_m : ℕ
  pub tk_s : ℕ
  pub bn : ℕ
  pub tb : ℕ
  pub vel0 : Magnitude
  pub pos0 : Magnitude
  pub acc0 : Magnitude
  pub vel1 : Magnitude
  pub pos1 : Magnitude
  pub acc1 : Magnitude
  pub vel2 : Magnitude
  pub pos2 : Magnitude
  pub acc2 : Magnitude
  pub gamn : Magnitude
  pub taun : Magnitude

-- What is sent and not read.
pub record Unread1020 : Type 0 where
  pub dtaun : ℕ
  pub age : ℕ
  pub nt : ℕ

-- `setbitg(buff,i,len,value)`, from the sign and the size of the value.
unfoldable pub field_g : ℕ → Magnitude → List Field → List Field
field_g len v rest = u 1 v.sign ∷ u (len - 1) v.size ∷ rest

-- `value<0?1:0` and `value<0?-value:value` of an int.
unfoldable pub magnitude : ℕ → Magnitude
magnitude value =
    if ltb value (2 ^ 31)
    then record { sign = 0; size = value }
    else record { sign = 1; size = 2 ^ 32 - value }

-- The two calls in `getbitg`.
unfoldable pub read_g : List ℕ → ℕ → ℕ → Magnitude
read_g buff i len = record { sign = getbitu buff i 1; size = getbitu buff (i + 1) (len - 1) }

unfoldable pub fields_1020 : Words1020 → Unread1020 → List Field
fields_1020 w x =
    u 12 1020
    ∷ u 6 w.prn
    ∷ u 5 w.fcn
    ∷ u 4 0
    ∷ u 5 w.tk_h
    ∷ u 6 w.tk_m
    ∷ u 1 w.tk_s
    ∷ u 1 w.bn
    ∷ u 1 0
    ∷ u 7 w.tb
    ∷ field_g 24 w.vel0 (
        field_g 27 w.pos0 (
          field_g 5 w.acc0 (
            field_g 24 w.vel1 (
              field_g 27 w.pos1 (
                field_g 5 w.acc1 (
                  field_g 24 w.vel2 (
                    field_g 27 w.pos2 (
                      field_g 5 w.acc2 (
                        u 1 0
                        ∷ field_g 11 w.gamn (
                            u 3 0
                            ∷ field_g 22 w.taun (
                                u 5 x.dtaun
                                ∷ u 5 x.age
                                ∷ u 1 0
                                ∷ u 4 0
                                ∷ u 11 x.nt
                                ∷ u 2 0
                                ∷ u 1 0
                                ∷ u 11 0
                                ∷ u 32 0
                                ∷ u 5 0
                                ∷ u 22 0
                                ∷ u 1 0
                                ∷ u 7 0
                                ∷ [])))))))))))

unfoldable pub read_1020 : List ℕ → Words1020
read_1020 buff = record {
  prn = getbitu buff 36 6;
  fcn = getbitu buff 42 5;
  tk_h = getbitu buff 51 5;
  tk_m = getbitu buff 56 6;
  tk_s = getbitu buff 62 1;
  bn = getbitu buff 63 1;
  tb = getbitu buff 65 7;
  vel0 = read_g buff 72 24;
  pos0 = read_g buff 96 27;
  acc0 = read_g buff 123 5;
  vel1 = read_g buff 128 24;
  pos1 = read_g buff 152 27;
  acc1 = read_g buff 179 5;
  vel2 = read_g buff 184 24;
  pos2 = read_g buff 208 27;
  acc2 = read_g buff 235 5;
  gamn = read_g buff 241 11;
  taun = read_g buff 255 22;
}

module _ {D T : Type 0} (d : Doubles D) (k : Clock D T) (g : Calendar D T) where
  -- Moscow time of a time of gps.
  unfoldable pub moscow : T → T
  moscow t = g.timeadd (g.gpst2utc t) (d.num 10800)

  -- The first day of the leap year period of a date.
  unfoldable pub leap_start : Epoch D → Epoch D
  leap_start ep = record {
    year = d.mul (d.floor (d.div ep.year (d.num 4))) (d.num 4);
    month = d.num 1;
    day = d.num 1;
    hour = d.num 0;
    minute = d.num 0;
    second = d.num 0;
  }

  unfoldable pub words_1020 : Geph D T → ℕ → Words1020
  words_1020 geph prn =
      let ep = g.time2epoch (moscow geph.tof) in
      let eq = g.time2epoch (moscow geph.toe) in
      record {
        prn = prn;
        fcn = (geph.frq + 7) % 2 ^ 32;
        tk_h = d.to_int ep.hour;
        tk_m = d.to_int ep.minute;
        tk_s = round d k (d.div ep.second (d.num 30));
        bn = geph.svh;
        tb = round d k (
            d.div
              (d.add (d.add (d.mul eq.hour (d.num 3600)) (d.mul eq.minute (d.num 60))) eq.second)
              (d.num 900));
        vel0 = magnitude (round d k (d.div (d.div geph.vel0 (d.p2 20)) (d.num 1000)));
        pos0 = magnitude (round d k (d.div (d.div geph.pos0 (d.p2 11)) (d.num 1000)));
        acc0 = magnitude (round d k (d.div (d.div geph.acc0 (d.p2 30)) (d.num 1000)));
        vel1 = magnitude (round d k (d.div (d.div geph.vel1 (d.p2 20)) (d.num 1000)));
        pos1 = magnitude (round d k (d.div (d.div geph.pos1 (d.p2 11)) (d.num 1000)));
        acc1 = magnitude (round d k (d.div (d.div geph.acc1 (d.p2 30)) (d.num 1000)));
        vel2 = magnitude (round d k (d.div (d.div geph.vel2 (d.p2 20)) (d.num 1000)));
        pos2 = magnitude (round d k (d.div (d.div geph.pos2 (d.p2 11)) (d.num 1000)));
        acc2 = magnitude (round d k (d.div (d.div geph.acc2 (d.p2 30)) (d.num 1000)));
        gamn = magnitude (round d k (d.div geph.gamn (d.p2 40)));
        taun = magnitude (round d k (d.div geph.taun (d.p2 30)));
      }

  unfoldable pub unread_1020 : Geph D T → Unread1020
  unread_1020 geph =
      let time = moscow geph.tof in
      let start = g.epoch2time (leap_start (g.time2epoch time)) in
      record {
        dtaun = round d k (d.div geph.dtaun (d.p2 30));
        age = geph.age;
        nt = d.to_int (d.floor (d.add (d.div (g.timediff time start) (d.num 86400)) (d.num 1)));
      }

  -- `getbitg` as a double.
  unfoldable pub value_of : Magnitude → D
  value_of v = if v.sign == 0 then d.of_uint v.size else g.neg (d.of_uint v.size)

  -- A time of the day brought within half a day of `tod`.
  unfoldable pub near_day : D → D → D
  near_day tod t =
      if d.lt t (d.sub tod (d.num 43200))
      then d.add t (d.num 86400)
      else if d.lt (d.add tod (d.num 43200)) t
      then d.sub t (d.num 86400)
      else t

  -- The time of gps of the day's second `t` in Moscow time, on the day of `now`.
  unfoldable pub time_of : T → D → T
  time_of now t =
      let utc = g.gpst2utc now in
      let tod = g.fmod (g.tow utc) (d.num 86400) in
      g.utc2gpst (
        g.gpst2time (g.week utc)
          (d.add (d.sub (g.tow utc) tod) (near_day tod (d.sub t (d.num 10800)))))

  unfoldable pub geph_1020 : Words1020 → ℕ → T → Geph D T
  geph_1020 w sat now = record {
    sat = sat;
    iode = bit_and w.tb 0x7f;
    frq = (w.fcn + (2 ^ 32 - 7)) % 2 ^ 32;
    svh = w.bn;
    age = 0;
    toe = time_of now (d.mul (d.of_uint w.tb) (d.num 900));
    tof = time_of now (
        d.add (d.add (d.mul (d.of_uint w.tk_h) (d.num 3600)) (d.mul (d.of_uint w.tk_m) (d.num 60)))
          (d.mul (d.of_uint w.tk_s) (d.num 30)));
    vel0 = d.mul (d.mul (value_of w.vel0) (d.p2 20)) (d.num 1000);
    pos0 = d.mul (d.mul (value_of w.pos0) (d.p2 11)) (d.num 1000);
    acc0 = d.mul (d.mul (value_of w.acc0) (d.p2 30)) (d.num 1000);
    vel1 = d.mul (d.mul (value_of w.vel1) (d.p2 20)) (d.num 1000);
    pos1 = d.mul (d.mul (value_of w.pos1) (d.p2 11)) (d.num 1000);
    acc1 = d.mul (d.mul (value_of w.acc1) (d.p2 30)) (d.num 1000);
    vel2 = d.mul (d.mul (value_of w.vel2) (d.p2 20)) (d.num 1000);
    pos2 = d.mul (d.mul (value_of w.pos2) (d.p2 11)) (d.num 1000);
    acc2 = d.mul (d.mul (value_of w.acc2) (d.p2 30)) (d.num 1000);
    taun = d.mul (value_of w.taun) (d.p2 30);
    gamn = d.mul (value_of w.gamn) (d.p2 40);
    dtaun = d.num 0;
  }

  unfoldable pub encode_type1020 : PrnRanges → Rtcm (GloState D T) → Rtcm (GloState D T) × Bool
  encode_type1020 c r =
      let found = satsys c r.body.ephsat in
      let geph = r.body.gephs (found.1 - 1) in
      let out = write_fields r.buff 24 (fields_1020 (words_1020 geph found.1) (unread_1020 geph)) in
      if same_sys found.0 glo && (geph.sat == r.body.ephsat)
      then (record r { buff = out.0; nbit = out.1 }, true)
      else (r, false)

  -- The end of the decoder, for a satellite with a number, at the time `now`.
  unfoldable pub save_geph : Rtcm (GloState D T) → ℕ → Geph D T → Rtcm (GloState D T) × ℤ
  save_geph r index geph =
      let known = r.body.gephs index in
      let same =
        d.lt (g.abs (g.timediff geph.toe known.toe)) (d.num 1) && (geph.svh == known.svh) in
      if not r.body.ephall && same then (r, pos 0) else (
        record r {
          body = record (r.body) {
            gephs = λ j. if j == index then geph else r.body.gephs j;
            ephsat = geph.sat;
          };
        },
        pos 2,
      )

  -- The time of the receiver, the clock's when there is none.
  unfoldable pub with_time : Rtcm (GloState D T) → Rtcm (GloState D T)
  with_time r = record r {
    body = record (r.body) {
      time = if g.is_zero r.body.time then g.utc2gpst g.now else r.body.time;
    };
  }

  unfoldable pub decode_words :
      PrnRanges → Rtcm (GloState D T) → Words1020 → Rtcm (GloState D T) × ℤ
  decode_words c r w =
      let sat = satno c glo (pos w.prn) in
      let timed = with_time r in
      if sat == 0
      then (r, negsuc 0)
      else save_geph timed (w.prn - 1) (geph_1020 w sat timed.body.time)

  unfoldable pub decode_type1020 : PrnRanges → Rtcm (GloState D T) → Rtcm (GloState D T) × ℤ
  decode_type1020 c r =
      if ltb (r.len * 8) (36 + 348) then (r, negsuc 0) else decode_words c r (read_1020 r.buff)
