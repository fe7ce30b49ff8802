-- ===== src/Guard/Sharing.antt =====
-- include/zthread/Guard.h: a guard that gives a lock back for a while within the block of another.
use zthread.Base.{◌≡◌, refl, ◌∙◌}
use zthread.Exceptions.{Result, ok, throw}
use zthread.Guard.{Lock, chain, locked_scope, unlocked_scope, end_scope, scoped, shared}
use zthread.Guard.Scopes.{IsLock, Acquired, guard_restores, unlocked_restores}

module _ {L : Type 0} (Free Held : L → Type 0) (k : Lock L) (law : IsLock Free Held k)
    {A : Type 0} where
  chain-ok :
      (x : Result (Unit {0}) × L)
      → Acquired Free Held x
      → x.0 ≡ ok tt
      → (inner : L → Result A × L)
      → Held x.1 × ((chain x (λ _ l1. end_scope k.release (inner l1))).0 ≡ (inner x.1).0)
  chain-ok (ok _, l) h e inner = (h, refl)
  chain-ok (throw _, l) h e inner = cc

  -- Where a lock is held after it was acquired, is free after `release`, and its `acquire` does not throw:
  -- a guard locks a free lock, and a second one, of UnlockedScope, shares it. The rest of the block is
  -- then run with the lock free, which it must leave so, and how it ends is how the whole block ends; the
  -- second guard locks the lock again, and the first leaves it free.
  pub shared_restores :
      (body : L → Result A × L) (l : L)
      → Free l
      → ((m : L) → Free m → Free (body m).1)
      → ((m : L) → Free m → (k.acquire m).0 ≡ ok tt)
      → (Free (k.release (k.acquire l).1).1)
        × (Free (shared (locked_scope k) (unlocked_scope k) body l).1)
        × ((shared (locked_scope k) (unlocked_scope k) body l).0
            ≡ (body (k.release (k.acquire l).1).1).0)
  unfolding shared scoped
  shared_restores body l f b t =
      let inner = scoped (unlocked_scope k) body in
      let (h, e) = chain-ok (k.acquire l) (law.acquires l f) (t l f) inner in
      (
        (law.releases (k.acquire l).1 h).1,
        (guard_restores Free Held k law inner 0 l f
            (λ m g. (unlocked_restores Free Held k law body m g b t).0)).0,
        e ∙ (unlocked_restores Free Held k law body (k.acquire l).1 h b t).1,
      )
