-- ===== src/Semaphore/System/Bound.antt =====
-- src/SemaphoreImpl.h: the bound of a checked semaphore.
use zthread.Base.{ℕ, zero, suc, ◌≡◌, refl, sym, ap, subst, ◌∙◌, Bool, true, false, ◌&&◌}
use zthread.Base.Int.{ℤ, suc_ℤ, pred_ℤ, suc-pred}
use zthread.Semaphore.{Semaphore, equal_ℤ, release_pass}
use zthread.Semaphore.Acquire.{left, finish_acquire-left}
use zthread.Semaphore.System.{
  System, start, Step, takes, enters, acquires, tries, releases, wakes, Reach, here, next,
}
use zthread.Semaphore.System.Permits.{plus, equal_self, finish_try-left}

-- `z` is at most `m`.
abbrev pub AtMost : ℤ → ℤ → Type 0
AtMost m z = (k : ℕ) × (plus k z ≡ m)

AtMost-pred : (m z : ℤ) → AtMost m z → AtMost m (pred_ℤ z)
AtMost-pred m z (k, e) = (suc k, ap (plus k) (suc-pred z) ∙ e)

AtMost-suc : (m z : ℤ) → equal_ℤ z m ≡ false → AtMost m z → AtMost m (suc_ℤ z)
AtMost-suc m z h (zero, e) =
    let clash : true ≡ false = sym (equal_self z) ∙ ap (equal_ℤ z) e ∙ h in cc
AtMost-suc m z h (suc k, e) = (k, e)

-- The semaphore is checked, with this bound, and its count is at most that.
record Bounded (m : ℤ) (o : Semaphore) : Type 0 where
  checked : o.checked ≡ true
  bound : o.max_count ≡ m
  count : AtMost m o.count

Bounded-left :
    (m : ℤ) (t : ℕ) (took : Bool) (o : Semaphore) → Bounded m o → Bounded m (left t took o)
Bounded-left m t true o i = record {
  checked = i.checked;
  bound = i.bound;
  count = AtMost-pred m o.count i.count;
}
Bounded-left m t false o i = record { checked = i.checked; bound = i.bound; count = i.count }

Step-Bounded : (m : ℤ) {r s : System} → Step r s → Bounded m r.semaphore → Bounded m s.semaphore
unfolding release_pass
Step-Bounded m {r} (takes a) i = record {
  checked = i.checked;
  bound = i.bound;
  count = AtMost-pred m r.semaphore.count i.count;
}
Step-Bounded m {r} (enters t insert a) i = record {
  checked = i.checked;
  bound = i.bound;
  count = i.count;
}
Step-Bounded m {r} (acquires t state before after e) i =
    subst (Bounded m) (sym (finish_acquire-left t state r.semaphore))
      (Bounded-left m t _ r.semaphore i)
Step-Bounded m {r} (tries t state before after e) i =
    subst (Bounded m) (sym (finish_try-left t state r.semaphore)) (Bounded-left m t _ r.semaphore i)
Step-Bounded m {r} (releases f) i = record {
  checked = i.checked;
  bound = i.bound;
  count =
      AtMost-suc m r.semaphore.count
        (ap (equal_ℤ r.semaphore.count) (sym i.bound)
          ∙ sym (ap (λ b. b && equal_ℤ r.semaphore.count r.semaphore.max_count) i.checked)
          ∙ f)
        i.count;
}
Step-Bounded m {r} (wakes ms) i = record { checked = i.checked; bound = i.bound; count = i.count }

Reach-Bounded :
    (c m : ℤ) {s : System} → AtMost m c → Reach (start c m true) s → Bounded m s.semaphore
Reach-Bounded c m a here = record { checked = refl; bound = refl; count = a }
Reach-Bounded c m a (next r st) = Step-Bounded m st (Reach-Bounded c m a r)

-- The count of a checked semaphore, BoundedSemaphore's, never goes beyond its bound if it starts within,
-- whatever threads acquire and release.
pub count_within_bound :
    (c m : ℤ) {s : System} → AtMost m c → Reach (start c m true) s → AtMost m s.semaphore.count
count_within_bound c m a r = (Reach-Bounded c m a r).count
