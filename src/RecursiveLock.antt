-- ===== src/RecursiveLock.antt =====
-- src/vanilla/DualMutexRecursiveLock.h: a recursive lock of two plain locks, used by any number of threads.
-- The state lock is held from the first to the last access of `_owner` and `_count`, so each such
-- stay is one step; the blocking lock is `blocking`, whether it is locked. A thread is a number.
pub mod Exclusion
pub mod Tests
use zthread.Base.{
  ℕ, suc, ◌+◌, ◌-◌, ◌%◌, ◌^◌, ◌<◌, ◌≡◌, Bool, true, false, Option, none, some, ◌==◌, if◌then◌else◌,
}

-- Where a thread stands in `acquire` or `tryAcquire`: in neither; after an attempt at the blocking lock
-- that failed; waiting for it; and with it, before it is recorded as the owner.
pub data Place : Type 0 where
  idle checking blocked marking : Place

-- With each thread's place, and how often it holds the lock.
pub record System : Type 0 where
  pub blocking : Bool
  pub owner : Option ℕ
  pub count : ℕ
  pub place : ℕ → Place
  pub depth : ℕ → ℕ

abbrev pub start : System
start = record {
  blocking = false;
  owner = none;
  count = 0;
  place = λ _. Place.idle;
  depth = λ _. 0;
}

abbrev pub u32 : ℕ → ℕ
u32 n = n % 2 ^ 32

abbrev pub set : {A : Type 0} → (ℕ → A) → ℕ → A → ℕ → A
set f t a u = if t == u then a else f u

abbrev pub owned_by : ℕ → System → Bool
owned_by self s = elim s.owner [ none ↦ false | some t ↦ t == self ]

abbrev pub moved : ℕ → Place → System → System
moved t p s = record s { place = set s.place t p }

-- The blocking lock is locked.
abbrev pub locked : ℕ → System → System
locked t s = record (moved t Place.marking s) { blocking = true }

-- `_count++`, for a thread that owns the lock.
abbrev pub again : ℕ → System → System
again t s = record (moved t Place.idle s) {
  count = u32 (s.count + 1);
  depth = set s.depth t (s.depth t + 1);
}

-- `_owner = self; _count++;`
abbrev pub marked : ℕ → System → System
marked t s = record (again t s) { owner = some t }

-- `release`
unfoldable pub released : ℕ → System → System
released t s =
    let n = u32 (s.count + 2 ^ 32 - 1) in
    let lowered = record s { count = n; depth = set s.depth t (s.depth t - 1) } in
    if n == 0 then record lowered { owner = none; blocking = false } else lowered

-- A thread that holds the lock releases it, and no thread holds it 2 ^ 32 times.
pub data Step (s : System) : System → Type 0 where
  tries_free : (t : ℕ) → s.place t ≡ Place.idle → s.blocking ≡ false → Step s (locked t s)
  tries_locked :
      (t : ℕ) → s.place t ≡ Place.idle → s.blocking ≡ true → Step s (moved t Place.checking s)
  enters_again :
      (t : ℕ)
      → s.place t ≡ Place.checking
      → owned_by t s ≡ true
      → s.depth t + 1 < 2 ^ 32
      → Step s (again t s)
  must_wait :
      (t : ℕ) → s.place t ≡ Place.checking → owned_by t s ≡ false → Step s (moved t Place.blocked s)
  gives_up :
      (t : ℕ) → s.place t ≡ Place.checking → owned_by t s ≡ false → Step s (moved t Place.idle s)
  unblocks : (t : ℕ) → s.place t ≡ Place.blocked → s.blocking ≡ false → Step s (locked t s)
  marks : (t : ℕ) → s.place t ≡ Place.marking → Step s (marked t s)
  releases : (t : ℕ) → s.place t ≡ Place.idle → 0 < s.depth t → Step s (released t s)

pub data Reach : System → Type 0 where
  here : Reach start
  next : {r s : System} → Reach r → Step r s → Reach s
