-- ===== src/Platform/Recursive.antt =====
-- Three recursive locks: src/vanilla/SimpleRecursiveLock.h (Simple), src/win32/AtomicFastRecursiveLock.h
-- (Atomic) and src/posix/ConditionRecursiveLock.h (Conditional). A thread is a number, not 0, which is
-- the free lock of the last two; a count has 32 bits.
pub mod Agreement
pub mod Exclusion
pub mod Robbed
use zthread.Base.{
  ℕ, ◌+◌, ◌-◌, ◌%◌, ◌^◌, Bool, true, false, not, ◌&&◌, ◌||◌, Option, none, some, List, [], ◌∷◌,
  ◌==◌, if◌then◌else◌,
}

abbrev pub u32 : ℕ → ℕ
u32 n = n % 2 ^ 32

abbrev pub up : ℕ → ℕ
up n = u32 (n + 1)

abbrev pub down : ℕ → ℕ
down n = u32 (n + 2 ^ 32 - 1)

-- `_owner`, with `none` for `ThreadOps::INVALID`. Each stay in `_lock` is one step.
pub record Simple : Type 0 where
  pub owner : Option ℕ
  pub count : ℕ

abbrev pub simple_init : Simple
simple_init = record { owner = none; count = 0 }

-- `_owner == ThreadOps::INVALID || _owner == self`
abbrev pub may_enter : ℕ → Simple → Bool
may_enter self l = elim l.owner [ none ↦ true | some t ↦ t == self ]

unfoldable pub simple_try : ℕ → Simple → Bool × Simple
simple_try self l =
    if may_enter self l
    then (true, record { owner = some self; count = up l.count })
    else (false, l)

-- The loop; the list is what other threads do between two rounds, `none` if it goes on after them.
unfoldable pub simple_acquire : ℕ → List (Simple → Simple) → Simple → Option Simple
simple_acquire self [] l =
    let (was_locked, m) = simple_try self l in if was_locked then some m else none
simple_acquire self (others ∷ rest) l =
    let (was_locked, m) = simple_try self l in
    let again = simple_acquire self rest (others m) in if was_locked then some m else again

unfoldable pub simple_release : Simple → Simple
simple_release l =
    let n = down l.count in
    if n == 0 then record { owner = none; count = n } else record l { count = n }

-- The word `_lock` and the count, which only the owner changes.
pub record Atomic : Type 0 where
  pub lock : ℕ
  pub count : ℕ

-- `InterlockedCompareExchange(&_lock, id, 0)`: the old value, and the new one.
abbrev pub compare_exchange : ℕ → ℕ → ℕ × ℕ
compare_exchange word id = (word, if word == 0 then id else word)

unfoldable pub atomic_try : ℕ → Atomic → Bool × Atomic
atomic_try id l =
    let (owner, word) = compare_exchange l.lock id in
    if (owner == 0) || (owner == id)
    then (true, record { lock = word; count = up l.count })
    else (false, record l { lock = word })

unfoldable pub atomic_acquire : ℕ → List (Atomic → Atomic) → Atomic → Option Atomic
atomic_acquire id [] l = let (taken, m) = atomic_try id l in if taken then some m else none
atomic_acquire id (others ∷ rest) l =
    let (taken, m) = atomic_try id l in
    let again = atomic_acquire id rest (others m) in if taken then some m else again

unfoldable pub atomic_release : Atomic → Atomic
atomic_release l =
    let n = down l.count in record { lock = (if n == 0 then 0 else l.lock); count = n }

-- With how often `_cond` was signaled. Each stay in `_mtx` is one step.
pub record Conditional : Type 0 where
  pub owner : ℕ
  pub count : ℕ
  pub signals : ℕ

abbrev pub mark : ℕ → Conditional → Conditional
mark self l = record l { owner = self; count = up l.count }

-- One return of `pthread_cond_wait`: what other threads did before it, and whether it is EINTR.
pub record Return : Type 0 where
  pub others : Conditional → Conditional
  pub eintr : Bool

-- The `do … while`: `none` while the thread still waits.
unfoldable pub wait_turn : List Return → Conditional → Option Conditional
wait_turn [] l = none
wait_turn (r ∷ rs) l =
    let m = r.others l in
    let again = wait_turn rs m in if r.eintr && (m.owner == 0) then again else some m

unfoldable pub conditional_acquire : ℕ → List Return → Conditional → Option Conditional
conditional_acquire self rs l =
    if not (l.owner == 0) && not (l.owner == self)
    then elim (wait_turn rs l) [ none ↦ none | some m ↦ some (mark self m) ]
    else some (mark self l)

unfoldable pub conditional_try : ℕ → Conditional → Bool × Conditional
conditional_try self l =
    if (l.owner == 0) || (l.owner == self) then (true, mark self l) else (false, l)

unfoldable pub conditional_release : Conditional → Conditional
conditional_release l =
    let n = down l.count in
    if n == 0
    then record { owner = 0; count = n; signals = l.signals + 1 }
    else record l { count = n }
