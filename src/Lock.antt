-- ===== src/Lock.antt =====
-- c/rtklib/rtcm3e.c and rtcm3.c: lock time indicators, from the lock time to the indicator that is
-- sent (`to_lock`, `to_msm_lock`, `to_msm_lock_ex`), and the slip that a receiver reads from two of
-- them (`lossoflock`).
pub mod Slip
use go_ntrip.Base.{
  ℕ, ◌+◌, ◌-◌, ◌*◌, ◌/◌, ◌%◌, ◌^◌, Bool, ◌&&◌, ◌||◌, ltb, ◌==◌, if◌then◌else◌, ℤ, pos, negsuc,
}
use go_ntrip.Ephemeris.{Doubles}

-- `lock` in seconds.
unfoldable pub to_lock : ℤ → ℕ
to_lock (negsuc n) = 0
to_lock (pos lock) =
    if ltb lock 24
    then lock
    else if ltb lock 72
    then (lock + 24) / 2
    else if ltb lock 168
    then (lock + 120) / 4
    else if ltb lock 360
    then (lock + 408) / 8
    else if ltb lock 744
    then (lock + 1176) / 16
    else if ltb lock 937
    then (lock + 3096) / 32
    else 127

module _ {D : Type 0} (d : Doubles D) where
  -- `lock` in seconds, a double.
  unfoldable pub to_msm_lock : D → ℕ
  to_msm_lock lock =
      if d.lt lock (d.lit 32 3)
      then 0
      else if d.lt lock (d.lit 64 3)
      then 1
      else if d.lt lock (d.lit 128 3)
      then 2
      else if d.lt lock (d.lit 256 3)
      then 3
      else if d.lt lock (d.lit 512 3)
      then 4
      else if d.lt lock (d.lit 1024 3)
      then 5
      else if d.lt lock (d.lit 2048 3)
      then 6
      else if d.lt lock (d.lit 4096 3)
      then 7
      else if d.lt lock (d.lit 8192 3)
      then 8
      else if d.lt lock (d.lit 16384 3)
      then 9
      else if d.lt lock (d.lit 32768 3)
      then 10
      else if d.lt lock (d.lit 65536 3)
      then 11
      else if d.lt lock (d.lit 131072 3)
      then 12
      else if d.lt lock (d.lit 262144 3)
      then 13
      else if d.lt lock (d.lit 524288 3)
      then 14
      else 15

  -- The product is an int, which is not negative once it is used.
  unfoldable pub to_msm_lock_ex : D → ℕ
  to_msm_lock_ex lock =
      let lock_ms = d.to_int (d.mul lock (d.num 1000)) in
      if d.lt lock (d.num 0)
      then 0
      else if d.lt lock (d.lit 64 3)
      then lock_ms
      else if d.lt lock (d.lit 128 3)
      then (lock_ms + 64) / 2
      else if d.lt lock (d.lit 256 3)
      then (lock_ms + 256) / 4
      else if d.lt lock (d.lit 512 3)
      then (lock_ms + 768) / 8
      else if d.lt lock (d.lit 1024 3)
      then (lock_ms + 2048) / 16
      else if d.lt lock (d.lit 2048 3)
      then (lock_ms + 5120) / 32
      else if d.lt lock (d.lit 4096 3)
      then (lock_ms + 12288) / 64
      else if d.lt lock (d.lit 8192 3)
      then (lock_ms + 28672) / 128
      else if d.lt lock (d.lit 16384 3)
      then (lock_ms + 65536) / 256
      else if d.lt lock (d.lit 32768 3)
      then (lock_ms + 147456) / 512
      else if d.lt lock (d.lit 65536 3)
      then (lock_ms + 327680) / 1024
      else if d.lt lock (d.lit 131072 3)
      then (lock_ms + 720896) / 2048
      else if d.lt lock (d.lit 262144 3)
      then (lock_ms + 1572864) / 4096
      else if d.lt lock (d.lit 524288 3)
      then (lock_ms + 3407872) / 8192
      else if d.lt lock (d.lit 1048576 3)
      then (lock_ms + 7340032) / 16384
      else if d.lt lock (d.lit 2097152 3)
      then (lock_ms + 15728640) / 32768
      else if d.lt lock (d.lit 4194304 3)
      then (lock_ms + 33554432) / 65536
      else if d.lt lock (d.lit 8388608 3)
      then (lock_ms + 71303168) / 131072
      else if d.lt lock (d.lit 16777216 3)
      then (lock_ms + 150994944) / 262144
      else if d.lt lock (d.lit 33554432 3)
      then (lock_ms + 318767104) / 524288
      else if d.lt lock (d.lit 67108864 3)
      then (lock_ms + 671088640) / 1048576
      else 704

-- The indicators kept by satellite and frequency.
abbrev pub Locks : Type 0
Locks = ℕ → ℕ → ℕ

-- `rtcm->lock[sat-1][freq]` before and after, and the slip flag; the member is an unsigned short.
unfoldable pub lossoflock : Locks → ℕ → ℕ → ℕ → Locks × Bool
lossoflock locks sat freq lock = (
  λ s f. if (s == sat - 1) && (f == freq) then lock % 2 ^ 16 else locks s f,
  (lock == 0 && locks (sat - 1) freq == 0) || ltb lock (locks (sat - 1) freq),
)
