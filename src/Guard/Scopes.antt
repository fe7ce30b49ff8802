-- ===== src/Guard/Scopes.antt =====
-- include/zthread/Guard.h: the locks when the guards are gone.
use zthread.Base.{ℕ, ◌≡◌, refl, Bool, true, false, if◌then◌else◌}
use zthread.Exceptions.{Exception, Result, ok, throw}
use zthread.Guard.{
  Lock, chain, in_time, locked_scope, unlocked_scope, timed_locked_scope, create_compound_within,
  end_scope, scoped, scoped_within, Pair, transferred, acquired, transfer_scope, end_both,
}

module _ {L : Type 0} (Free Held : L → Type 0) where
  -- What `acquire` and `tryAcquire` leave of a lock that was free.
  abbrev pub Acquired : Result (Unit {0}) × L → Type 0
  Acquired (ok _, l) = Held l
  Acquired (throw _, l) = Free l

  abbrev pub Tried : Result Bool × L → Type 0
  Tried (ok b, l) = if b then Held l else Free l
  Tried (throw _, l) = Free l

  -- A lock that is held when it was acquired, and free again when it is released.
  pub record IsLock (k : Lock L) : Type 0 where
    pub acquires : (l : L) → Free l → Acquired (k.acquire l)
    pub tries : (ms : ℕ) (l : L) → Free l → Tried (k.try_acquire ms l)
    pub releases : (l : L) → Held l → ((k.release l).0 ≡ ok tt) × Free (k.release l).1

  module _ (k : Lock L) (law : IsLock k) {A : Type 0} (body : L → Result A × L) where
    after_acquire :
        (x : Result (Unit {0}) × L)
        → Acquired x
        → ((l : L) → Held l → Held (body l).1)
        → Free (chain x (λ _ l1. end_scope k.release (body l1))).1
    after_acquire (ok _, l) h b = (law.releases (body l).1 (b l h)).1
    after_acquire (throw e, l) h b = h

    after_try :
        (x : Result Bool × L)
        → Tried x
        → ((l : L) → Held l → Held (body l).1)
        → (Free
            (chain x (λ made l1.
              if made then end_scope k.release (body l1) else (throw Exception.timeout, l1))).1)
          × (Free (chain (chain x in_time) (λ _ l1. end_scope k.release (body l1))).1)
    after_try (ok true, l) h b =
        ((law.releases (body l).1 (b l h)).1, (law.releases (body l).1 (b l h)).1)
    after_try (ok false, l) h b = (h, h)
    after_try (throw e, l) h b = (h, h)

    -- Where a lock is held after it was acquired, is free after `release`, and is left free by an attempt
    -- that fails: a block with a guard leaves the lock free, if it was free before, whether the lock could be
    -- acquired, or in time, and whether the rest of the block, which must leave the lock held, returns
    -- or throws; for LockedScope with and without a timeout, and for TimedLockedScope.
    pub guard_restores :
        (timeout : ℕ) (l : L)
        → Free l
        → ((m : L) → Held m → Held (body m).1)
        → Free (scoped (locked_scope k) body l).1
          × Free (scoped_within k.try_acquire k.release timeout body l).1
          × Free (scoped (timed_locked_scope timeout k) body l).1
    unfolding scoped scoped_within
    guard_restores timeout l f b =
        let (within, timed) = after_try (k.try_acquire timeout l) (law.tries timeout l f) b in
        (after_acquire (k.acquire l) (law.acquires l f) b, within, timed)

  -- A block with a guard that unlocks a held lock has the lock held again at its end, and ends as the rest
  -- of the block does, which must leave the lock free, if the lock's `acquire` does not throw.
  pub unlocked_restores :
      (k : Lock L)
      → IsLock k
      → {A : Type 0} (body : L → Result A × L) (l : L) → Held l
      → ((m : L) → Free m → Free (body m).1)
      → ((m : L) → Free m → (k.acquire m).0 ≡ ok tt)
      → (Held (scoped (unlocked_scope k) body l).1)
        × ((scoped (unlocked_scope k) body l).0 ≡ (body (k.release l).1).0)
  unfolding scoped
  unlocked_restores k law {A} body l h b t =
      let (released, free) = law.releases l h in inside (k.release l) released free
    where
      held : (x : Result (Unit {0}) × L) → Acquired x → x.0 ≡ ok tt → Held x.1
      held (ok _, m) a e = a
      held (throw _, m) a e = cc

      inside :
          (x : Result (Unit {0}) × L)
          → x.0 ≡ ok tt
          → Free x.1
          → (Held (chain x (λ _ l1. end_scope k.acquire (body l1))).1)
            × ((chain x (λ _ l1. end_scope k.acquire (body l1))).0 ≡ (body x.1).0)
      inside (ok _, m) e f =
          let f' = b m f in
          (held (k.acquire (body m).1) (law.acquires (body m).1 f') (t (body m).1 f'), refl)
      inside (throw _, m) e f = cc

  -- The lock that is held while both guards exist.
  abbrev pub OneHeld : Result (Unit {0}) × Pair L → Type 0
  OneHeld (ok _, s) = Held s.new
  OneHeld (throw _, s) = Held s.old

  -- Where one guard takes over from another, for two such locks, which are held after they were acquired,
  -- free after `release`, and left free by an attempt that fails, the first held and the second free: while both guards exist one of the locks is held, the second if it could be acquired and
  -- the first otherwise; and at the end of the block both locks are free.
  pub overlap_restores :
      (k : Lock L)
      → IsLock k
      → (s : Pair L) → s.enabled ≡ true
      → Held s.old
      → Free s.new
      → OneHeld (transfer_scope k s)
        × (Free (end_both k (transfer_scope k s)).old)
        × (Free (end_both k (transfer_scope k s)).new)
  unfolding transfer_scope
  overlap_restores k law s e h f = after (k.acquire s.new) (law.acquires s.new f)
    where
      let_go :
          (m : L)
          → Held m
          → (y : Result (Unit {0}) × L) → y.0 ≡ ok tt
          → Free y.1
          → OneHeld (transferred (record s { new = m }) y)
            × (Free (end_both k (transferred (record s { new = m }) y)).old)
            × (Free (end_both k (transferred (record s { new = m }) y)).new)
      let_go m h' (ok _, o) q f' = (h', f', (law.releases m h').1)
      let_go m h' (throw _, o) q f' = cc

      after :
          (x : Result (Unit {0}) × L)
          → Acquired x
          → OneHeld (acquired k s x)
            × (Free (end_both k (acquired k s x)).old)
            × (Free (end_both k (acquired k s x)).new)
      after (ok _, m) a = let (q, f') = law.releases s.old h in let_go m a (k.release s.old) q f'
      after (throw _, m) a = rw e (h, (law.releases s.old h).1, a)

-- A compound scope with a timeout answers true where its first scope could not be made in time, so the
-- rest of the block is run although nothing is locked.
pub compound_unlocked :
    {L A : Type 0} (create1 create2 : ℕ → L → Result Bool × L)
    (destroy1 destroy2 : L → Result (Unit {0}) × L) (timeout : ℕ) (body : L → Result A × L)
    (l m : L)
    → create1 timeout l ≡ (ok false, m)
    → scoped_within (create_compound_within create1 create2 destroy1) destroy2 timeout body l
      ≡ end_scope destroy2 (body m)
unfolding scoped_within create_compound_within
compound_unlocked create1 create2 destroy1 destroy2 timeout body l m e = rw e refl
