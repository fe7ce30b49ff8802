-- ===== src/Semaphore/System/Permits.antt =====
-- src/SemaphoreImpl.h: the permits, over any number of threads.
use zthread.Base.{
  ℕ, zero, suc, ◌+◌, ◌≡◌, refl, sym, ap, ◌∙◌, Bool, true, false, ◌&&◌, List, [], ◌∷◌, ◌++◌,
  if◌then◌else◌, length, length-append, is_empty, arith,
}
use zthread.Base.Int.{ℤ, pos, negsuc, suc_ℤ, pred_ℤ, is_positive, is_zero, suc-pred}
use zthread.Status.{State}
use zthread.Semaphore.{Semaphore, available, depart, equal_ℤ, finish_try, release_pass}
use zthread.Semaphore.Acquire.{left, finish_acquire-left}
use zthread.Semaphore.System.{
  System, start, is_granted, returned, Step, takes, enters, acquires, tries, releases, wakes, Reach,
  here, next,
}

-- A count so much higher.
abbrev pub plus : ℕ → ℤ → ℤ
plus zero z = z
plus (suc n) z = plus n (suc_ℤ z)

suc-plus : (n : ℕ) (z : ℤ) → plus n (suc_ℤ z) ≡ suc_ℤ (plus n z)
suc-plus zero z = refl
suc-plus (suc n) z = suc-plus n (suc_ℤ z)

plus-suc : (n : ℕ) (z : ℤ) → suc_ℤ (plus n z) ≡ plus (n + 1) z
plus-suc n z = sym (suc-plus n z) ∙ ap (λ m. plus m z) (succ n)
  where
    succ : (n : ℕ) → suc n ≡ n + 1
    succ n = omega arith

pub plus-pred : (n : ℕ) (z : ℤ) → plus (n + 1) (pred_ℤ z) ≡ plus n z
plus-pred n z = ap (λ m. plus m (pred_ℤ z)) (succ n) ∙ ap (plus n) (suc-pred z)
  where
    succ : (n : ℕ) → n + 1 ≡ suc n
    succ n = omega arith

pub equal_self : (z : ℤ) → equal_ℤ z z ≡ true
equal_self (pos n) = ground arith
equal_self (negsuc n) = ground arith

-- How the count stands to the permits, the entry count to the threads that stay, and the count of a
-- checked semaphore to its bound.
record Inv (c : ℤ) (s : System) : Type 0 where
  permits : plus s.acquired s.semaphore.count ≡ plus s.released c
  entries : s.semaphore.entry_count ≡ pos (length s.staying)

pub finish_try-left :
    (t : ℕ) (state : State) (o : Semaphore)
    → (finish_try state (depart t o)).1 ≡ left t (is_granted (finish_try state (depart t o)).0) o
unfolding finish_try
finish_try-left t state o = ground arith

without :
    (before after : List ℕ) (t : ℕ) {ts : List ℕ}
    → ts ≡ before ++ t ∷ after
    → length ts ≡ suc (length (before ++ after))
without before after t e =
    ap length e ∙ length-append before (t ∷ after) ∙ omega (arith, length-append before after)

permits-left :
    (took : Bool) (a : ℕ) (z c : ℤ)
    → plus a z ≡ c
    → plus (if took then a + 1 else a) (if took then pred_ℤ z else z) ≡ c
permits-left true a z c e = plus-pred a z ∙ e
permits-left false a z c e = e

returned-Inv :
    (c : ℤ) (t : ℕ) (took : Bool) (before after : List ℕ) (s : System) (o : Semaphore)
    → o ≡ left t took s.semaphore
    → s.staying ≡ before ++ t ∷ after
    → Inv c s
    → Inv c (returned o took (before ++ after) s)
returned-Inv c t took before after s o e f i = record {
  permits =
      ap (λ (x : Semaphore). plus (if took then s.acquired + 1 else s.acquired) x.count) e
      ∙ permits-left took s.acquired s.semaphore.count (plus s.released c) i.permits;
  entries =
      ap (λ (x : Semaphore). x.entry_count) e
      ∙ ap pred_ℤ (i.entries ∙ ap pos (without before after t f));
}

Step-Inv : (c : ℤ) {r s : System} → Step r s → Inv c r → Inv c s
unfolding release_pass
Step-Inv c {r} (takes a) i = record {
  permits = plus-pred r.acquired r.semaphore.count ∙ i.permits;
  entries = i.entries;
}
Step-Inv c {r} (enters t insert a) i = record { permits = i.permits; entries = ap suc_ℤ i.entries }
Step-Inv c {r} (acquires t state before after e) i =
    returned-Inv c t _ before after r _ (finish_acquire-left t state r.semaphore) e i
Step-Inv c {r} (tries t state before after e) i =
    returned-Inv c t _ before after r _ (finish_try-left t state r.semaphore) e i
Step-Inv c {r} (releases f) i = record {
  permits = suc-plus r.acquired r.semaphore.count ∙ ap suc_ℤ i.permits ∙ plus-suc r.released c;
  entries = i.entries;
}
Step-Inv c {r} (wakes ms) i = record { permits = i.permits; entries = i.entries }

Reach-Inv : (c m : ℤ) (b : Bool) {s : System} → Reach (start c m b) s → Inv c s
Reach-Inv c m b here = record { permits = refl; entries = refl }
Reach-Inv c m b (next r st) = Step-Inv c st (Reach-Inv c m b r)

-- However `acquire`, `tryAcquire` and `release` of any number of threads interleave, whatever states
-- their waits come back with: the count is the initial one, and what was released, less what was
-- acquired; and the entry count is the number of threads that wait, so that a thread takes a permit
-- without waiting only where there is one and nobody waits.
pub permits_accounted :
    (c m : ℤ) (b : Bool) {s : System}
    → Reach (start c m b) s
    → (plus s.acquired s.semaphore.count ≡ plus s.released c)
      × (s.semaphore.entry_count ≡ pos (length s.staying))
      × (available s.semaphore ≡ (is_positive s.semaphore.count && is_empty s.staying))
permits_accounted c m b {s} r =
    let i = Reach-Inv c m b r in
    (
      i.permits,
      i.entries,
      ap (λ z. is_positive s.semaphore.count && is_zero z) i.entries
          ∙ ap (λ e. is_positive s.semaphore.count && e) (nobody s.staying),
    )
  where
    nobody : (ts : List ℕ) → is_zero (pos (length ts)) ≡ is_empty ts
    nobody [] = refl
    nobody (t ∷ ts) = refl
