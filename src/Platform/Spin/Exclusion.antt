-- ===== src/Platform/Spin/Exclusion.antt =====
-- src/linux/AtomicFastLock.h: one holder, and spinning threads that keep each other out.
use zthread.Base.{
  ℕ, zero, suc, ◌+◌, ◌≤◌, ◌≡◌, refl, sym, ap, ◌∙◌, inl, inr, false, ◌&&◌, List, [], ◌∷◌, ◌++◌,
  length, length-append, is_empty, arith, Bool-cases, ◌==◌, ==_iff,
}
use zthread.Base.Int.{ℤ, pos, negsuc, suc_ℤ, pred_ℤ, is_zero}
use zthread.Platform.Spin.{
  System, dec_and_test, attempt, Step, attempts, undoes, releases, Reach, here, next, Act, fails,
  undoes_own, Spins, stop, fails_then, undoes_then,
}

-- The counter after so many decrements that nobody has undone.
abbrev pub lowered : ℕ → ℤ
lowered zero = pos 1
lowered (suc zero) = pos 0
lowered (suc (suc n)) = negsuc n

lower : (n : ℕ) → pred_ℤ (lowered n) ≡ lowered (suc n)
lower zero = refl
lower (suc zero) = refl
lower (suc (suc n)) = refl

raise : (n : ℕ) → suc_ℤ (lowered (suc n)) ≡ lowered n
raise zero = refl
raise (suc zero) = refl
raise (suc (suc n)) = refl

-- Only the first decrement meets zero.
first_is_zero : (n : ℕ) → is_zero (lowered (suc n)) ≡ (n == 0)
first_is_zero zero = refl
first_is_zero (suc n) = ground arith

-- How many threads have decremented the counter.
abbrev pub below : System → ℕ
below s = length s.holders + length s.failed

data Inv (s : System) : Type 0 where
  counted : s.value ≡ lowered (below s) → length s.holders ≤ 1 → Inv s

without :
    (before after : List ℕ) (t : ℕ) {ts : List ℕ}
    → ts ≡ before ++ t ∷ after
    → length ts ≡ suc (length (before ++ after))
without before after t e =
    ap length e ∙ length-append before (t ∷ after) ∙ omega (arith, length-append before after)

-- A counter that was lowered once less than before.
raised : (v : ℤ) (n m : ℕ) → v ≡ lowered n → n ≡ suc m → suc_ℤ v ≡ lowered m
raised v n m e f = ap suc_ℤ (e ∙ ap lowered f) ∙ raise m

lowers :
    (s : System) {n : ℕ}
    → s.value ≡ lowered (below s)
    → n ≡ suc (below s)
    → pred_ℤ s.value ≡ lowered n
lowers s v e = ap pred_ℤ v ∙ lower (below s) ∙ ap lowered (sym e)

hits : (s : System) → s.value ≡ lowered (below s) → (dec_and_test s.value).0 ≡ (below s == 0)
hits s v = ap is_zero (lowers s v refl) ∙ first_is_zero (below s)

at_rest : (s : System) → (below s == 0) ≡ (is_empty s.holders && is_empty s.failed)
at_rest s = empty s.holders s.failed
  where
    empty : (xs ys : List ℕ) → (length xs + length ys == 0) ≡ (is_empty xs && is_empty ys)
    empty [] [] = refl
    empty [] (y ∷ ys) = ground arith
    empty (x ∷ xs) ys = ground arith

attempt-Inv : (t : ℕ) (s : System) → Inv s → Inv (attempt t s)
unfolding attempt
attempt-Inv t s (counted v h) = elim (Bool-cases (below s == 0)) [
  | inl e ↦
      let zero_below : below s ≡ 0 = (==_iff (below s) 0).0 e in
      rw (hits s v ∙ e) (counted (lowers s v (omega arith)) (omega arith))
  | inr e ↦ rw (hits s v ∙ e) (counted (lowers s v (omega arith)) h)
]

Step-Inv : {r s : System} → Step r s → Inv r → Inv s
Step-Inv {r} (attempts t) i = attempt-Inv t r i
Step-Inv {r} (undoes t before after e) (counted v h) =
    let one_less = without before after t e in counted (raised r.value _ _ v (omega arith)) h
Step-Inv {r} (releases t before after e) (counted v h) =
    let one_less = without before after t e in
    counted (raised r.value _ _ v (omega arith)) (omega arith)

Reach-Inv : {s : System} → Reach s → Inv s
Reach-Inv here = counted refl (omega arith)
Reach-Inv (next r st) = Step-Inv st (Reach-Inv r)

counts : {s : System} → Inv s → (s.value ≡ lowered (below s)) × (length s.holders ≤ 1)
counts (counted v h) = (v, h)

-- However the decrements and increments of any number of threads interleave, at most one thread holds
-- the lock, and the next decrement takes it exactly when nobody holds it and nobody has still to undo
-- a failed decrement.
pub spin_exclusion :
    {s : System}
    → Reach s
    → (length s.holders ≤ 1)
      × ((dec_and_test s.value).0 ≡ (is_empty s.holders && is_empty s.failed))
spin_exclusion {s} r = let (v, h) = counts (Reach-Inv r) in (h, hits s v ∙ at_rest s)

-- The lock is free, and one thread has still to undo a failed decrement.
abbrev pub contested : ℕ → System
contested u = record { value = pos 0; holders = []; failed = u ∷ [] }

-- Thread `v` took the lock, `u` failed, and `v` let go.
contested-Reach : (u v : ℕ) → Reach (contested u)
unfolding attempt
contested-Reach u v = next (next (next here (attempts v)) (attempts u)) (releases v [] [] refl)

-- Two threads by turns: `t` fails while `u` has still to undo its decrement, and `u` fails while `t`
-- has.
abbrev pub rounds : ℕ → ℕ → ℕ → List Act
rounds t u zero = []
rounds t u (suc n) = fails t ∷ undoes_own u ∷ fails u ∷ undoes_own t ∷ rounds t u n

spins : (t u n : ℕ) → Spins (contested u) (rounds t u n) (contested u)
unfolding attempt
spins t u zero = stop
spins t u (suc n) = fails_then t refl refl (
    undoes_then u (t ∷ []) [] refl refl
      (fails_then u refl refl (undoes_then t (u ∷ []) [] refl refl (spins t u n))))

-- The spin lock can stay free for ever under contention: from a state that the threads reach, in which
-- nobody holds it, two different threads can go on for any number of rounds, in each of which the one
-- fails before the other has undone its failed decrement, and then the other before the one has, and
-- be where they were; nobody holds the lock at any of these steps.
pub spin_livelock :
    (t u n : ℕ)
    → (t == u) ≡ false
    → Reach (contested u) × Spins (contested u) (rounds t u n) (contested u)
spin_livelock t u n _ = (contested-Reach u t, spins t u n)
