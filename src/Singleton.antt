-- ===== src/Singleton.antt =====
-- include/zthread/Singleton.h: `Singleton::instance` with LazyInstantiation, called by any number of threads
-- for as often as they like. Each access of `ptr` is one step, seen by all threads at once, and the lock
-- lets one thread in. Instances are numbered as they are made.
pub mod One
pub mod Tests
use zthread.Base.{ℕ, ◌+◌, ◌≡◌, Option, none, some, ◌==◌, if◌then◌else◌}

-- Where a thread stands: before the call; after a test that found no instance; with the lock; after the
-- call, with what it returned.
pub data Place : Type 0 where
  outside checked inside : Place
  returned : (instance_ : ℕ) → Place

-- What the thread with the lock does: the second test, `new T`, the assignment to `ptr`, and the end of
-- the block.
pub data Stage : Type 0 where
  testing creating unlocking : Stage
  constructed : (instance_ : ℕ) → Stage

pub record System : Type 0 where
  pub ptr : Option ℕ
  pub created : ℕ
  pub lock : Option (ℕ × Stage)
  pub place : ℕ → Place

abbrev pub start : System
start = record { ptr = none; created = 0; lock = none; place = λ _. Place.outside }

abbrev pub move : (ℕ → Place) → ℕ → Place → ℕ → Place
move f t p u = if t == u then p else f u

abbrev pub moved : ℕ → Place → System → System
moved t p s = record s { place = move s.place t p }

abbrev pub locked : ℕ → Stage → System → System
locked t g s = record s { lock = some (t, g) }

-- `new T`
abbrev pub made : ℕ → System → System
made t s = record s { created = s.created + 1; lock = some (t, Stage.constructed s.created) }

-- `ptr = …`
abbrev pub stored : ℕ → ℕ → System → System
stored t p s = record s { ptr = some p; lock = some (t, Stage.unlocking) }

-- The end of the block, and the return.
abbrev pub left : ℕ → ℕ → System → System
left t p s = record s { lock = none; place = move s.place t (Place.returned p) }

pub data Step (s : System) : System → Type 0 where
  finds :
      (t p : ℕ) → s.place t ≡ Place.outside → s.ptr ≡ some p → Step s (moved t (Place.returned p) s)
  misses : (t : ℕ) → s.place t ≡ Place.outside → s.ptr ≡ none → Step s (moved t Place.checked s)
  locks :
      (t : ℕ)
      → s.place t ≡ Place.checked
      → s.lock ≡ none
      → Step s (locked t Stage.testing (moved t Place.inside s))
  misses_again :
      (t : ℕ) → s.lock ≡ some (t, Stage.testing) → s.ptr ≡ none → Step s (locked t Stage.creating s)
  finds_again :
      (t p : ℕ)
      → s.lock ≡ some (t, Stage.testing)
      → s.ptr ≡ some p
      → Step s (locked t Stage.unlocking s)
  makes : (t : ℕ) → s.lock ≡ some (t, Stage.creating) → Step s (made t s)
  stores : (t p : ℕ) → s.lock ≡ some (t, Stage.constructed p) → Step s (stored t p s)
  unlocks : (t p : ℕ) → s.lock ≡ some (t, Stage.unlocking) → s.ptr ≡ some p → Step s (left t p s)
  calls_again : (t p : ℕ) → s.place t ≡ Place.returned p → Step s (moved t Place.outside s)

pub data Reach : System → Type 0 where
  here : Reach start
  next : {r s : System} → Reach r → Step r s → Reach s
