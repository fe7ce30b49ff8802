-- ===== src/ThreadLocal.antt =====
-- include/zthread/ThreadLocal.h, include/zthread/ThreadLocalImpl.h and src/ThreadLocalImpl.cxx: values of
-- which each thread has its own, and how ThreadImpl::start of src/ThreadImpl.cxx hands them down.
-- A thread and a ThreadLocal are numbers. A `Value` is in one map only, so it is the value.
pub mod Laws
pub mod Tests
use zthread.Base.{ℕ, Bool, true, false, Option, none, some, ◌&&◌, ◌==◌, if◌then◌else◌}

-- The policies of a ThreadLocal that `ThreadImpl::start` uses: `ChildValueT()`, a function, and whether
-- `InheritableValueT()(ChildValueT())`. What `InitialValueT()()` returns, which may be another value at
-- each call, is an argument of the operations that may call it.
pub record Policies {ℓ} (T : Type ℓ) : Type ℓ where
  pub child_value : T → T
  pub inheritable : Bool

-- The map of each thread.
abbrev pub Values {ℓ} : Type ℓ → Type ℓ
Values T = ℕ → ℕ → Option T

module _ {ℓ} {T : Type ℓ} where
  abbrev pub put : ℕ → ℕ → Option T → Values T → Values T
  put t l v m u k = if (t == u) && (l == k) then v else m u k

  abbrev pub found : T → Option T → T
  found a none = a
  found a (some v) = v

  -- The value, which is made if the thread has none, and the maps.
  unfoldable pub value : T → ℕ → ℕ → Values T → T × Values T
  value initial t l m =
      let v = found initial (m t l) in (v, elim (m t l) [ none ↦ put t l (some v) m | some _ ↦ m ])

  unfoldable pub get : T → ℕ → ℕ → Values T → T × Values T
  unfolding value
  get initial t l m = value initial t l m

  unfoldable pub set : T → ℕ → ℕ → T → Values T → Values T
  unfolding value
  set initial t l v m = put t l (some v) (value initial t l m).1

  unfoldable pub clear : ℕ → ℕ → Values T → Values T
  clear t l m = put t l none m

  unfoldable pub clear_all : ℕ → Values T → Values T
  clear_all t m u k = if t == u then none else m u k

  -- The loop over the parent's map in `ThreadImpl::start`.
  abbrev pub cloned : Policies T → Option T → Option T → Option T
  cloned p none own = own
  cloned p (some v) own = if p.inheritable then some (p.child_value v) else own

  unfoldable pub inherit : (ℕ → Policies T) → ℕ → ℕ → Values T → Values T
  inherit p parent child m u k = if child == u then cloned (p k) (m parent k) (m u k) else m u k
