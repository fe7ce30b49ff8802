-- ===== src/Time/Arithmetic.antt =====
-- The arithmetic of include/zthread/Time.h.
use zthread.Base.{
  ℕ, zero, suc, ◌+◌, ◌-◌, ◌*◌, ◌^◌, ◌≤◌, ◌<◌, ◌≡◌, refl, true, false, ltb, arith, Bool-cases, inl,
  inr,
}
use zthread.Time.{Time, ulong, add_time, borrow, subtract_millis, subtract_time, now}

-- A time in milliseconds.
abbrev pub total : Time → ℕ
total t = t.seconds * 1000 + t.milliseconds

-- The milliseconds are less than a second.
abbrev pub IsNormal : Time → Type 0
IsNormal t = t.milliseconds < 1000

-- Borrowing keeps the time, and goes on until the milliseconds are enough or there are no seconds.
abbrev Borrowed : ℕ → ℕ → Time → Type 0
Borrowed millis n b =
    (total b ≡ n) × (b.milliseconds < millis + 1000) × (b.milliseconds < millis → b.seconds ≡ 0)

ltb-true : (a b : ℕ) → ltb a b ≡ true → a < b
ltb-true a b h = ground arith

ltb-false : (a b : ℕ) → ltb a b ≡ false → b ≤ a
ltb-false a b h = ground arith

borrow_lem :
    (millis s ms : ℕ)
    → millis + 2000 < 2 ^ 64
    → ms < millis + 1000
    → Borrowed millis (s * 1000 + ms) (borrow millis s ms)
unfolding borrow
borrow_lem millis zero ms h k = (refl, k, λ _. refl)
borrow_lem millis (suc s) ms h k = elim (Bool-cases (ltb ms millis)) [
  | inl low ↦
      let l = ltb-true ms millis low in
      let e : ulong (ms + 1000) ≡ ms + 1000 = omega arith in
      let (a, b, c) = borrow_lem millis s (ms + 1000) h (omega arith) in
      rw (low, e) (omega (arith, a), b, c)
  | inr high ↦ let l = ltb-false ms millis high in rw high (refl, k, λ x. omega arith)
]

add_time-total :
    (u t : Time)
    → IsNormal u
    → IsNormal t
    → t.seconds + u.seconds + 1 < 2 ^ 64
    → (total (add_time u t) ≡ total t + total u) × IsNormal (add_time u t)
unfolding add_time
add_time-total u t nu nt h = (omega arith, omega arith)

-- The difference of two times in normal form, the second not later than the first, is exact and in
-- normal form.
pub subtract_time-total :
    (u t : Time)
    → IsNormal u
    → IsNormal t
    → total u ≤ total t
    → (total (subtract_time u t) ≡ total t - total u) × IsNormal (subtract_time u t)
unfolding subtract_time
subtract_time-total u t nu nt h =
    ground (arith, borrow_lem u.milliseconds t.seconds t.milliseconds (omega arith) (omega arith))

-- Taking milliseconds from a time in normal form takes that many, or all there are, and keeps the
-- normal form, if the milliseconds leave room for two seconds more in an unsigned long.
pub subtract_millis-total :
    (millis : ℕ) (t : Time)
    → IsNormal t
    → millis + 2000 < 2 ^ 64
    → (total (subtract_millis millis t) ≡ total t - millis) × IsNormal (subtract_millis millis t)
unfolding subtract_millis
subtract_millis-total millis t n h =
    ground (arith, borrow_lem millis t.seconds t.milliseconds h (omega arith))

same_time : (t u : Time) → t.seconds ≡ u.seconds → t.milliseconds ≡ u.milliseconds → t ≡ u
same_time t u e f = λ i. record { seconds = e i; milliseconds = f i }

-- Adding a time and taking it away again gives the time back, for times in normal form whose seconds
-- do not overflow.
pub subtract_time-add_time :
    (u t : Time)
    → IsNormal u
    → IsNormal t
    → t.seconds + u.seconds + 1 < 2 ^ 64
    → subtract_time u (add_time u t) ≡ t
subtract_time-add_time u t nu nt h =
    let (a, n) = add_time-total u t nu nt h in
    let (b, m) = subtract_time-total u (add_time u t) nu n (omega (arith, a)) in
    same_time (subtract_time u (add_time u t)) t (omega (arith, a, b, m)) (omega (arith, a, b, m))

-- If the clock does not go back, the times that `Time` gives since the first are in normal form, measure the
-- milliseconds since then, and do not go back either.
pub now_advances :
    (first earlier later : Time)
    → IsNormal first
    → IsNormal earlier
    → IsNormal later
    → total first ≤ total earlier
    → total earlier ≤ total later
    → (total (now first earlier) ≡ total earlier - total first)
      × (total (now first earlier) ≤ total (now first later))
      × IsNormal (now first later)
unfolding now
now_advances first earlier later f a b p q =
    let (e, _) = subtract_time-total first earlier f a p in
    let (l, n) = subtract_time-total first later f b (omega arith) in (e, omega arith, n)
