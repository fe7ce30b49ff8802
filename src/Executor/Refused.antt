-- ===== src/Executor/Refused.antt =====
-- src/PoolExecutor.cxx: a task that is refused, and a thread that ends.
use zthread.Base.{ℕ, ◌+◌, zero, suc, ◌≤◌, ◌≡◌, ◌∙◌, List, [], ◌∷◌, arith, length, length-append}
use zthread.Queue.Monitored
use zthread.Executor.Pool.{Pool, std_remove, without, drop}

length-drop : (n : ℕ) (ts : List ℕ) → n ≤ length ts → n + length (drop n ts) ≡ length ts
length-drop zero ts h = omega arith
length-drop (suc n) [] h = omega arith
length-drop (suc n) (t ∷ ts) h = omega (arith, length-drop n ts (omega arith))

length-without : (t : ℕ) (ts : List ℕ) → length (without t ts) ≤ length ts
length-without t [] = omega arith
length-without t (u ∷ us) = ground (arith, length-without t us)

-- `unregisterThread` does not shorten the list of threads.
pub unregistered-length : (t : ℕ) (ts : List ℕ) → length (std_remove t ts) ≡ length ts
unfolding std_remove
unregistered-length t ts =
    length-append (without t ts) (drop (length (without t ts)) ts)
    ∙ length-drop (length (without t ts)) ts (length-without t ts)
