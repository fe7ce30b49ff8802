-- ===== src/Guard/Tests.antt =====
-- include/zthread/Guard.h: tests.
use zthread.Base.{ℕ, ◌≡◌, refl, Bool, true, false, if◌then◌else◌}
use zthread.Exceptions.{Exception, Result, ok, throw}
use zthread.Guard.{
  Lock, locked_scope, unlocked_scope, timed_locked_scope, scoped, shared, scoped_within, Pair,
  transfer_scope, end_both,
}
use zthread.Guard.Sharing.{shared_restores}
use zthread.Guard.Scopes.{
  IsLock, OneHeld, Acquired, Tried, guard_restores, unlocked_restores, overlap_restores,
}

-- A lock that is the flag whether it is held.
abbrev flag : Lock Bool
flag = record {
  acquire = λ l. if l then (throw Exception.deadlock, l) else (ok tt, true);
  try_acquire = λ _ l. (ok (if l then false else true), true);
  release = λ l. if l then (ok tt, false) else (throw Exception.invalid_op, l);
}

abbrev Free : Bool → Type 0
Free l = l ≡ false

abbrev Held : Bool → Type 0
Held l = l ≡ true

abbrev body : Bool → Result ℕ × Bool
body l = (ok 7, l)

flag-acquires : (l : Bool) → Free l → Acquired Free Held (flag.acquire l)
flag-acquires false h = refl
flag-acquires true h = cc

flag-tries : (ms : ℕ) (l : Bool) → Free l → Tried Free Held (flag.try_acquire ms l)
flag-tries ms false h = refl
flag-tries ms true h = cc

flag-releases : (l : Bool) → Held l → ((flag.release l).0 ≡ ok tt) × Free (flag.release l).1
flag-releases false h = cc
flag-releases true h = (refl, refl)

flag-IsLock : IsLock Free Held flag
flag-IsLock = record { acquires = flag-acquires; tries = flag-tries; releases = flag-releases }

guard_restores_example :
    ((scoped (locked_scope flag) body false).1 ≡ false)
    × ((scoped_within flag.try_acquire flag.release 10 body false).1 ≡ false)
    × ((scoped (timed_locked_scope 10 flag) body false).1 ≡ false)
guard_restores_example = guard_restores Free Held flag flag-IsLock body 10 false refl (λ m h. h)

flag-acquire_ok : (m : Bool) → Free m → (flag.acquire m).0 ≡ ok tt
flag-acquire_ok false h = refl
flag-acquire_ok true h = cc

unlocked_restores_example :
    ((scoped (unlocked_scope flag) body true).1 ≡ true)
    × ((scoped (unlocked_scope flag) body true).0 ≡ ok 7)
unlocked_restores_example =
    unlocked_restores Free Held flag flag-IsLock body true refl (λ m h. h) flag-acquire_ok

abbrev pair : Pair Bool
pair = record { old = true; new = false; enabled = true }

overlap_restores_example :
    OneHeld Free Held (transfer_scope flag pair)
    × ((end_both flag (transfer_scope flag pair)).old ≡ false)
    × ((end_both flag (transfer_scope flag pair)).new ≡ false)
overlap_restores_example = overlap_restores Free Held flag flag-IsLock pair refl refl refl

shared_restores_example :
    ((flag.release (flag.acquire false).1).1 ≡ false)
    × ((shared (locked_scope flag) (unlocked_scope flag) body false).1 ≡ false)
    × ((shared (locked_scope flag) (unlocked_scope flag) body false).0 ≡ ok 7)
shared_restores_example =
    shared_restores Free Held flag flag-IsLock body false refl (λ m h. h) flag-acquire_ok
