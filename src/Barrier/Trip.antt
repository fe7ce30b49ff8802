-- ===== src/Barrier/Trip.antt =====
-- include/zthread/Barrier.h: the threads meet.
use zthread.Base.{
  ℕ, suc, ◌+◌, ◌-◌, ◌^◌, ◌<◌, ◌≡◌, sym, ap, ap₂, ◌∙◌, false, List, [], ◌∷◌, ◌++◌, append_assoc,
  append-nil, arith, ◌==◌, length,
}
use zthread.Blocking.{waits, state}
use zthread.Barrier.{Barrier, completes, u32, arrive}

-- The threads of a list arrive one after the other, none of them interrupted.
unfoldable pub arrive_all : List ℕ → Barrier → Barrier
unfolding arrive
arrive_all [] b = b
arrive_all (t ∷ ts) b = arrive_all ts (state (arrive t false completes b))

-- An unbroken barrier at which `ts` wait, `old` have been woken before, and the count is `n`.
abbrev pub awaiting : ℕ → ℕ → List ℕ → List ℕ → Barrier
awaiting g n old ts = record {
  broken = false;
  count = n;
  generation = g;
  arrived = record { waiting = ts; woken = old };
}

-- The count on arrival: 0 goes to the largest unsigned int.
abbrev lower : ℕ → ℕ
lower n = u32 (n + 2 ^ 32 - 1)

positive : (n : ℕ) → 0 < n → (n == 0) ≡ false
positive n h = ground arith

arrive-awaiting :
    (t g n : ℕ) (old ts : List ℕ)
    → 0 < lower n
    → arrive t false completes (awaiting g n old ts)
      ≡ waits (awaiting g (lower n) old (ts ++ t ∷ []))
unfolding arrive
arrive-awaiting t g n old ts h = rw (positive (lower n) h)

-- While the count does not come to 0 all that arrive wait, in their order.
arrive_all-awaiting :
    (us : List ℕ) (g n : ℕ) (old ts : List ℕ)
    → length us < n
    → n < 2 ^ 32
    → arrive_all us (awaiting g n old ts) ≡ awaiting g (n - length us) old (ts ++ us)
unfolding arrive_all
arrive_all-awaiting [] g n old ts h k =
    ap₂ (λ m us. awaiting g m old us) (omega arith) (sym (append-nil ts))
arrive_all-awaiting (u ∷ us) g n old ts h k =
    ap (λ o. arrive_all us (state o)) (arrive-awaiting u g n old ts (omega arith))
    ∙ ap (λ m. arrive_all us (awaiting g m old (ts ++ u ∷ []))) lowered
    ∙ arrive_all-awaiting us g (n - 1) old (ts ++ u ∷ []) (omega arith) (omega arith)
    ∙ ap₂ (λ m us'. awaiting g m old us') (omega arith) (append_assoc ts (u ∷ []) us)
  where
    lowered : lower n ≡ n - 1
    lowered = omega arith

-- Tripping does not set the count back: of the threads that come to a tripped barrier that nobody
-- resets, fewer than 2^32 in number, every one waits, however many the barrier is for.
pub no_second_trip :
    (g : ℕ) (u : ℕ) (us old : List ℕ)
    → suc (length us) < 2 ^ 32
    → arrive_all (u ∷ us) (awaiting g 0 old []) ≡ awaiting g (2 ^ 32 - suc (length us)) old (u ∷ us)
unfolding arrive_all
no_second_trip g u us old h =
    ap (λ o. arrive_all us (state o)) (arrive-awaiting u g 0 old [] (omega arith))
    ∙ arrive_all-awaiting us g (2 ^ 32 - 1) old (u ∷ []) (omega arith) (omega arith)
    ∙ ap (λ n. awaiting g n old (u ∷ us)) (omega arith)
