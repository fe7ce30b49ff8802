-- ===== src/Scheduling.antt =====
-- src/Scheduling.h: how the lists of waiting threads are ordered.
pub mod Tests
use zthread.Base.{
  ℕ, ◌≡◌, ◌≢◌, ◌⊎◌, inl, inr, refl, Bool, true, false, ◌&&◌, List, [], ◌∷◌, ◌++◌, arith, ltb,
  if◌then◌else◌,
}

-- `fifo_list::insert`
abbrev pub push_back : ℕ → List ℕ → List ℕ
push_back t ts = ts ++ t ∷ []

-- `priority_order`: the threads' priorities are an argument, and `std::less` on the addresses is the
-- order of the numbers.
unfoldable pub priority_order : (ℕ → ℕ) → ℕ → ℕ → Bool
priority_order priority t0 t1 =
    if ltb (priority t1) (priority t0)
    then true
    else if ltb (priority t0) (priority t1)
    then false
    else ltb t0 t1

-- `priority_list::insert`; `sort` is `std::sort` with an order.
unfoldable pub priority_insert : ((ℕ → ℕ → Bool) → List ℕ → List ℕ) → (ℕ → ℕ) → ℕ → List ℕ → List ℕ
priority_insert sort priority t ts = sort (priority_order priority) (push_back t ts)

-- `priority_order` is what `std::sort` needs, a strict order, and total: no thread comes before itself,
-- two threads never come before each other, the order is transitive, and of two threads one
-- comes before the other.
pub priority_order_strict :
    (priority : ℕ → ℕ) (a b c : ℕ)
    → let before = priority_order priority in
      (before a a ≡ false)
      × (before a b ≡ true → before b a ≡ false)
      × (before a b ≡ true → before b c ≡ true → before a c ≡ true)
      × (a ≢ b → (before a b ≡ true) ⊎ (before b a ≡ true))
unfolding priority_order
priority_order_strict priority a b c = (ground arith, ground arith, ground arith, ground arith)
