-- ===== src/Lock/Slip.antt =====
-- Indicators grow with the lock time, so a receiver sees no slip while the lock lasts.
use go_ntrip.Base.{
  ℕ, zero, suc, ◌-◌, ◌≤◌, ◌<◌, ◌≡◌, refl, sym, subst, inl, inr, Bool-cases, leb, leb→le, false, pos,
  arith,
}
use go_ntrip.Lock.{to_lock, Locks, lossoflock}

to_lock_step : (t : ℕ) → (to_lock (pos t) ≤ to_lock (pos (suc t))) × (to_lock (pos t) ≤ 127)
unfolding to_lock
to_lock_step t = ground arith

rising : (f : ℕ → ℕ) → ((t : ℕ) → f t ≤ f (suc t)) → (a b : ℕ) → a ≤ b → f a ≤ f b
rising f step a zero h =
    let e : a ≡ zero = omega arith in subst (λ n. f n ≤ f zero) (sym e) (omega arith)
rising f step a (suc b) h = elim (Bool-cases (leb a b)) [
  | inl below ↦ omega (arith, rising f step a b (leb→le a b below), step b)
  | inr top ↦ let e : a ≡ suc b = ground arith in subst (λ n. f n ≤ f (suc b)) (sym e) (omega arith)
]

to_lock-pos : to_lock (pos 1) ≡ 1
unfolding to_lock
to_lock-pos = refl

-- If the kept indicator is that of a positive lock time and the lock time has not fallen since,
-- lossoflock reports no slip on the new indicator and keeps it.
pub lossoflock-to_lock :
    (locks : Locks) (sat freq t later : ℕ)
    → locks (sat - 1) freq ≡ to_lock (pos t)
    → 0 < t
    → t ≤ later
    → let out = lossoflock locks sat freq (to_lock (pos later)) in
      (out.1 ≡ false) × (out.0 (sat - 1) freq ≡ to_lock (pos later))
unfolding lossoflock
lossoflock-to_lock locks sat freq t later kept some order =
    let grows = rising (λ n. to_lock (pos n)) (λ n. (to_lock_step n).0) in
    let up = grows t later order in
    let first = grows 1 later (omega arith) in
    let small = (to_lock_step later).1 in (ground (arith, to_lock-pos), ground arith)
