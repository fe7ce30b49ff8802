-- ===== src/Platform/Spin.antt =====
-- src/linux/AtomicFastLock.h: a spin lock on the kernel's atomic counter, used by any number of threads.
-- Each atomic operation is one step. `failed` are the threads between a failed decrement and the
-- increment that undoes it, in `acquire` or in `tryAcquire`; the release build, without `_owner`.
pub mod Exclusion
use zthread.Base.{ℕ, suc, ◌≡◌, Bool, false, List, [], ◌∷◌, ◌++◌, if◌then◌else◌}
use zthread.Base.Int.{ℤ, pos, suc_ℤ, pred_ℤ, is_zero}

pub record System : Type 0 where
  pub value : ℤ
  pub holders : List ℕ
  pub failed : List ℕ

-- `ATOMIC_INIT(1)`
abbrev pub start : System
start = record { value = pos 1; holders = []; failed = [] }

-- `atomic_dec_and_test`: whether the new value is zero, and the new value.
abbrev pub dec_and_test : ℤ → Bool × ℤ
dec_and_test v = (is_zero (pred_ℤ v), pred_ℤ v)

-- One decrement of `acquire` or `tryAcquire`.
unfoldable pub attempt : ℕ → System → System
attempt t s =
    let (was_locked, v) = dec_and_test s.value in
    if was_locked
    then record s { value = v; holders = t ∷ s.holders }
    else record s { value = v; failed = t ∷ s.failed }

-- The increment after a failed decrement; `acquire` then starts again, `tryAcquire` answers false.
abbrev pub undo : List ℕ → System → System
undo others s = record s { value = suc_ℤ s.value; failed = others }

abbrev pub release : List ℕ → System → System
release others s = record s { value = suc_ℤ s.value; holders = others }

pub data Step (s : System) : System → Type 0 where
  attempts : (t : ℕ) → Step s (attempt t s)
  undoes :
      (t : ℕ) (before after : List ℕ)
      → s.failed ≡ before ++ t ∷ after
      → Step s (undo (before ++ after) s)
  releases :
      (t : ℕ) (before after : List ℕ)
      → s.holders ≡ before ++ t ∷ after
      → Step s (release (before ++ after) s)

pub data Reach : System → Type 0 where
  here : Reach start
  next : {r s : System} → Reach r → Step r s → Reach s

-- What a spinning thread does: a decrement that fails, or the increment that undoes it.
pub data Act : Type 0 where
  fails : ℕ → Act
  undoes_own : ℕ → Act

-- These acts, one after the other, none of which takes the lock, while nobody holds it.
pub data Spins : System → List Act → System → Type 0 where
  stop : {r : System} → Spins r [] r
  fails_then :
      {r s : System} {acts : List Act} (t : ℕ)
      → r.holders ≡ []
      → (dec_and_test r.value).0 ≡ false
      → Spins (attempt t r) acts s
      → Spins r (fails t ∷ acts) s
  undoes_then :
      {r s : System} {acts : List Act} (t : ℕ) (before after : List ℕ)
      → r.holders ≡ []
      → r.failed ≡ before ++ t ∷ after
      → Spins (undo (before ++ after) r) acts s
      → Spins r (undoes_own t ∷ acts) s
