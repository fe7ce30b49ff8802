-- ===== src/Guard.antt =====
-- include/zthread/Guard.h: the guards and their locking policies. The lock is an argument: its state and
-- its functions, each of which may throw. A block with a guard in it is `scoped`, of what the rest
-- of the block does.
pub mod Scopes
pub mod Sharing
pub mod Tests
use zthread.Base.{ℕ, Bool, true, false, if◌then◌else◌}
use zthread.Exceptions.{Exception, Result, ok, throw}

pub record Lock (L : Type 0) : Type 0 where
  pub acquire : L → Result (Unit {0}) × L
  pub try_acquire : ℕ → L → Result Bool × L
  pub release : L → Result (Unit {0}) × L

-- `createScope` and `destroyScope` of a locking policy; for a guard that shares the lock of another,
-- `shareScope` in place of the first.
pub record Policy (L : Type 0) : Type 0 where
  pub create : L → Result (Unit {0}) × L
  pub destroy : L → Result (Unit {0}) × L

-- The locks of a guard and of one that takes over from it, and whether the first guard is enabled.
pub record Pair (L : Type 0) : Type 0 where
  pub old : L
  pub new : L
  pub enabled : Bool

module _ {L : Type 0} where
  -- One statement after another: an exception of the first ends both.
  abbrev pub chain : {A B : Type 0} → Result A × L → (A → L → Result B × L) → Result B × L
  chain (throw e, l) f = (throw e, l)
  chain (ok a, l) f = f a l

  abbrev pub in_time : Bool → L → Result (Unit {0}) × L
  in_time got l = ((if got then ok tt else throw Exception.timeout), l)

  abbrev pub locked_scope : Lock L → Policy L
  locked_scope k = record { create = k.acquire; destroy = k.release }

  abbrev pub unlocked_scope : Lock L → Policy L
  unlocked_scope k = record { create = k.release; destroy = k.acquire }

  abbrev pub timed_locked_scope : ℕ → Lock L → Policy L
  timed_locked_scope timeout k = record {
    create = λ l. chain (k.try_acquire timeout l) in_time;
    destroy = k.release;
  }

  abbrev pub compound_scope : Policy L → Policy L → Policy L
  compound_scope p q = record {
    create = λ l. chain (p.create l) (λ _. q.create);
    destroy = λ l. chain (p.destroy l) (λ _. q.destroy);
  }

  -- `CompoundScope::createScope` with a timeout, of those of its two scopes and the first's `destroyScope`.
  unfoldable pub create_compound_within :
      (ℕ → L → Result Bool × L)
      → (ℕ → L → Result Bool × L)
      → (L → Result (Unit {0}) × L)
      → ℕ
      → L
      → Result Bool × L
  create_compound_within create1 create2 destroy1 ms l = chain (create1 ms l) (λ made1 l1.
      if made1
      then chain (create2 ms l1) (λ made2 l2.
        if made2 then (ok true, l2) else chain (destroy1 l2) (λ _ l3. (ok false, l3)))
      else (ok true, l1))

  -- The rest of a block, where the guard was made, and its destructor, which throws nothing.
  abbrev pub end_scope : {A : Type 0} → (L → Result (Unit {0}) × L) → Result A × L → Result A × L
  end_scope destroy (r, l) = (r, (destroy l).1)

  unfoldable pub scoped : {A : Type 0} → Policy L → (L → Result A × L) → L → Result A × L
  scoped p body l = chain (p.create l) (λ _ l1. end_scope p.destroy (body l1))

  -- A block with a guard, and with a second one that shares its lock.
  unfoldable pub shared : {A : Type 0} → Policy L → Policy L → (L → Result A × L) → L → Result A × L
  unfolding scoped
  shared p q body l = scoped p (scoped q body) l

  -- With a timeout.
  unfoldable pub scoped_within :
      {A : Type 0}
      → (ℕ → L → Result Bool × L)
      → (L → Result (Unit {0}) × L)
      → ℕ
      → (L → Result A × L)
      → L
      → Result A × L
  scoped_within create_within destroy timeout body l =
      chain (create_within timeout l)
        (λ made l1. if made then end_scope destroy (body l1) else (throw Exception.timeout, l1))

  -- `OverlappedScope::transferScope`: whether it ends without an exception.
  abbrev pub transferred : Pair L → Result (Unit {0}) × L → Result (Unit {0}) × Pair L
  transferred s (throw e, l) = (throw e, record s { old = l })
  transferred s (ok _, l) = (ok tt, record s { old = l; enabled = false })

  abbrev pub acquired : Lock L → Pair L → Result (Unit {0}) × L → Result (Unit {0}) × Pair L
  acquired k s (throw e, l) = (throw e, record s { new = l })
  acquired k s (ok _, l) = transferred (record s { new = l }) (k.release s.old)

  unfoldable pub transfer_scope : Lock L → Pair L → Result (Unit {0}) × Pair L
  transfer_scope k s = acquired k s (k.acquire s.new)

  -- The end of the block of both guards; the second exists if the transfer did not throw.
  abbrev pub end_new : Lock L → Result (Unit {0}) × Pair L → Pair L
  end_new k (ok _, s) = record s { new = (k.release s.new).1 }
  end_new k (throw _, s) = s

  abbrev pub end_old : Lock L → Pair L → Pair L
  end_old k s = if s.enabled then record s { old = (k.release s.old).1 } else s

  abbrev pub end_both : Lock L → Result (Unit {0}) × Pair L → Pair L
  end_both k x = end_old k (end_new k x)
