-- ===== src/Executor/Counts.antt =====
-- `WaiterQueue` of src/PoolExecutor.cxx and src/ThreadedExecutor.cxx: how tasks are counted, and whom
-- their end wakes.
use zthread.Base.{
  ℕ, suc, ◌+◌, ◌^◌, ◌<◌, ◌≡◌, refl, ap, ◌∙◌, inl, inr, true, false, ◌&&◌, some, List, [], ◌∷◌, ◌++◌,
  ◌==◌, arith, if◌then◌else◌, is_empty, Bool-cases,
}
use zthread.Waiters.{Monitors}
use zthread.Waiters.Passes.{wake_all}
use zthread.Waiters.Stay.{Shared, on_object}
use zthread.Waiters.Laws.{deaf, wake_all-free}
use zthread.Waiters.Broadcast.{Told, AllFree, wake_all-AllFree, wake_all-keeps, wake_all-tells}
use zthread.Executor.Groups.{
  Group, WaiterQueue, total, on_group, lower, first_done, is_first, sweep, sweep_pass, sweep_loop,
  ensure_group, ensured, decrement, increment, on_last, last_or, back, empty_group, u64,
}

-- The first group with identity `n` is there, and a task of it executes.
abbrev pub Runs : ℕ → List Group → Type 0
Runs n [] = ⊥
Runs n (g ∷ gs) = if g.id == n then (0 < g.count) × (g.count < 2 ^ 64) else Runs n gs

total-lower : (n : ℕ) (gs : List Group) → Runs n gs → suc (total (on_group n lower gs)) ≡ total gs
total-lower n [] r = elim r [ ]
total-lower n (g ∷ gs) r = elim (Bool-cases (g.id == n)) [
  | inl e ↦ let (a, b) = rw e at r in rw e (omega arith)
  | inr e ↦ rw e (omega (arith, total-lower n gs (rw e at r)))
]

-- One group of the loop, where no monitor is busy.
data Swept (g : Group) (gs : List Group) (ms : Monitors) : Type 0 where
  goes_on :
      first_done gs ≡ true
      → sweep (g ∷ gs) ms ≡ sweep gs (wake_all g.waiters ms).monitors
      → Swept g gs ms
  stops : sweep (g ∷ gs) ms ≡ (true, gs, (wake_all g.waiters ms).monitors) → Swept g gs ms

sweep-cases : (g : Group) (gs : List Group) (ms : Monitors) → AllFree ms → Swept g gs ms
unfolding sweep
sweep-cases g gs ms n = elim (Bool-cases (first_done gs)) [
  | inl d ↦ goes_on d (rw (wake_all-free g.waiters ms n, d) refl)
  | inr d ↦ stops (rw (wake_all-free g.waiters ms n, d) refl)
]

-- Where no monitor is busy, the loop ends in its first round, and only groups without tasks are gone.
sweep-free :
    (gs : List Group) (ms : Monitors)
    → AllFree ms
    → first_done gs ≡ true
    → ((sweep gs ms).0 ≡ true) × (total (sweep gs ms).1 ≡ total gs)
unfolding sweep
sweep-free [] ms n h = cc
sweep-free (g ∷ gs) ms n h = elim (sweep-cases g gs ms n) [
  | goes_on d e ↦
      let (a, b) =
        sweep-free gs (wake_all g.waiters ms).monitors (wake_all-AllFree g.waiters ms n) d in
      rw e (a, ground (arith, b))
  | stops e ↦ rw e (refl, ground arith)
]

sweep-keeps :
    (gs : List Group) (ms : Monitors) (t : ℕ) → AllFree ms → Told (ms t) → Told ((sweep gs ms).2 t)
unfolding sweep
sweep-keeps [] ms t n h = h
sweep-keeps (g ∷ gs) ms t n h =
    let told = wake_all-keeps g.waiters ms t n h in
    elim (sweep-cases g gs ms n) [
      | goes_on d e ↦
          rw e (
            sweep-keeps gs (wake_all g.waiters ms).monitors t (wake_all-AllFree g.waiters ms n)
              told)
      | stops e ↦ rw e told
    ]

sweep-tells :
    (g : Group) (gs : List Group) (ms : Monitors) (before after : List ℕ) (t : ℕ)
    → AllFree ms
    → g.waiters ≡ before ++ t ∷ after
    → deaf (ms t) ≡ false
    → Told ((sweep (g ∷ gs) ms).2 t)
unfolding sweep
sweep-tells g gs ms before after t n e h =
    let told : Told ((wake_all g.waiters ms).monitors t) =
      ap (λ ws. ((wake_all ws ms).monitors t).status.pending.signaled) e
      ∙ wake_all-tells before after t ms n h in
    elim (sweep-cases g gs ms n) [
      | goes_on d o ↦
          rw o (
            sweep-keeps gs (wake_all g.waiters ms).monitors t (wake_all-AllFree g.waiters ms n)
              told)
      | stops o ↦ rw o told
    ]

abbrev pub lowered : ℕ → Shared WaiterQueue → Shared WaiterQueue
lowered n s = on_object (λ q. record q { groups = on_group n lower q.groups }) s

total-ensure_group : (q : WaiterQueue) → total (ensure_group q).groups ≡ total q.groups
total-ensure_group q = ground arith

swept :
    (s : Shared WaiterQueue)
    → AllFree s.monitors
    → first_done s.object.groups ≡ true
    → sweep_loop [] s ≡ some (sweep_pass s).1
unfolding sweep_loop sweep_pass
swept s n h = rw (sweep-free s.object.groups s.monitors n h).0 refl

-- Where no thread holds a monitor's lock, the end of a task that is counted in a group lowers the
-- number of tasks that execute by one, whatever groups it finishes, and `decrement` does not back
-- off.
pub decrement_counts :
    (n : ℕ) (s : Shared WaiterQueue)
    → AllFree s.monitors
    → Runs n s.object.groups
    → (s' : Shared WaiterQueue) × (decrement [] n s ≡ some s')
      × (suc (total s'.object.groups) ≡ total s.object.groups)
unfolding decrement sweep_pass
decrement_counts n s free r =
    elim (Bool-cases (is_first n s.object.groups && first_done (lowered n s).object.groups)) [
      | inl d ↦
          let done : first_done (lowered n s).object.groups ≡ true = ground arith in
          let (a, b) = sweep-free (lowered n s).object.groups s.monitors free done in
          (
            on_object ensure_group (sweep_pass (lowered n s)).1,
            rw d (ap ensured (swept (lowered n s) free done)),
            ap suc (total-ensure_group (sweep_pass (lowered n s)).1.object ∙ b)
                ∙ total-lower n s.object.groups r,
          )
      | inr d ↦ (lowered n s, rw d refl, total-lower n s.object.groups r)
    ]

same : (n : ℕ) → (n == n) ≡ true
same n = ground arith

on_first : (g : Group) (gs : List Group) → on_group g.id lower (g ∷ gs) ≡ lower g ∷ gs
on_first g gs = rw (same g.id) refl

-- When the last task of the first group ends, and no thread holds a monitor's lock, every thread that
-- waits for that group, and has no interruption of interest pending, holds the signal.
pub decrement_wakes :
    (s : Shared WaiterQueue) (g : Group) (gs : List Group) (before after : List ℕ) (t : ℕ)
    → AllFree s.monitors
    → s.object.groups ≡ g ∷ gs
    → g.count ≡ 1
    → g.waiters ≡ before ++ t ∷ after
    → deaf (s.monitors t) ≡ false
    → (s' : Shared WaiterQueue) × (decrement [] g.id s ≡ some s')
      × ((s'.monitors t).status.pending.signaled ≡ true)
unfolding decrement sweep_pass
decrement_wakes s g gs before after t free e one w h =
    let l : on_group g.id lower s.object.groups ≡ lower g ∷ gs =
      ap (on_group g.id lower) e ∙ on_first g gs in
    let first : is_first g.id s.object.groups ≡ true = ap (is_first g.id) e ∙ same g.id in
    let done : first_done (on_group g.id lower s.object.groups) ≡ true =
      ap first_done l ∙ ground arith in
    (
      on_object ensure_group (sweep_pass (lowered g.id s)).1,
      rw (first, done) (ap ensured (swept (lowered g.id s) free done)),
      ap (λ x. ((sweep x s.monitors).2 t).status.pending.signaled) l
          ∙ sweep-tells (lower g) gs s.monitors before after t free w h,
    )

total-on_last :
    (d : Group) (gs : List Group)
    → is_empty gs ≡ false
    → (last_or d gs).count + 1 < 2 ^ 64
    → total (on_last (λ g. record g { count = u64 (g.count + 1) }) gs) ≡ suc (total gs)
total-on_last d [] e h = cc
total-on_last d (g ∷ []) e h = omega arith
total-on_last d (g ∷ k ∷ gs) e h = omega (arith, total-on_last g (k ∷ gs) refl h)

total-append_empty : (n : ℕ) (gs : List Group) → total (gs ++ empty_group n ∷ []) ≡ total gs
total-append_empty n [] = refl
total-append_empty n (g ∷ gs) = omega (arith, total-append_empty n gs)

-- A task that begins raises the number of tasks that execute by one, also where its group is closed
-- behind it because threads wait for it, while the group's count does not overflow.
pub increment_counts :
    (q : WaiterQueue)
    → is_empty q.groups ≡ false
    → (back q).count + 1 < 2 ^ 64
    → total (increment q).1.groups ≡ suc (total q.groups)
unfolding increment
increment_counts q e h = elim (Bool-cases (is_empty (back q).waiters)) [
  | inl w ↦ rw w (total-on_last (empty_group 0) q.groups e h)
  | inr w ↦ rw w (
      total-append_empty q.next_id (on_last (λ g. record g { count = u64 (g.count + 1) }) q.groups)
      ∙ total-on_last (empty_group 0) q.groups e h)
]
