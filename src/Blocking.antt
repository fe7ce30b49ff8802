-- ===== src/Blocking.antt =====
-- What the queues, the barrier and the read-write locks of include/zthread take from
-- include/zthread/Condition.h, and the outcome of one go of a method that may wait.
use zthread.Base.{ℕ, List, [], ◌∷◌, ◌++◌}
use zthread.Exceptions.{Exception}

-- A Condition as its users see it: the threads that wait on it, longest first, and those that were
-- woken and will ask for the lock again. `signal` wakes one, `broadcast` all.
pub record Condition : Type 0 where
  pub waiting : List ℕ
  pub woken : List ℕ

abbrev pub quiet : Condition
quiet = record { waiting = []; woken = [] }

abbrev pub signal : Condition → Condition
signal c = elim c.waiting [ [] ↦ c | t ∷ ts ↦ record { waiting = ts; woken = c.woken ++ t ∷ [] } ]

abbrev pub broadcast : Condition → Condition
broadcast c = record { waiting = []; woken = c.woken ++ c.waiting }

abbrev pub sleep : ℕ → Condition → Condition
sleep t c = record c { waiting = c.waiting ++ t ∷ [] }

-- One go of a method, from the moment that it holds the lock to the moment that it lets go of it: it
-- returns a value, throws, or waits on a condition, after which it tests its loop's condition again.
pub data Outcome {ℓ κ} (Q : Type ℓ) (A : Type κ) : Type (ℓ ⊔ κ) where
  returns : A → Q → Outcome Q A
  throws : Exception → Q → Outcome Q A
  waits : Q → Outcome Q A

abbrev pub state {ℓ κ} : {Q : Type ℓ} {A : Type κ} → Outcome Q A → Q
state (returns a q) = q
state (throws e q) = q
state (waits q) = q

abbrev pub map_state {ℓ κ μ} :
    {Q : Type ℓ} {R : Type κ} {A : Type μ} → (Q → R) → Outcome Q A → Outcome R A
map_state f (returns a q) = returns a (f q)
map_state f (throws e q) = throws e (f q)
map_state f (waits q) = waits (f q)
