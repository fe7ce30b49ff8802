-- ===== src/Counted.antt =====
-- include/zthread/CountedPtr.h: shared ownership by counting. A `CountT*` is the number of a counter;
-- every counter that was ever made has its own. The counter is a `size_t`.
pub mod Once
pub mod Atomic
pub mod Tests
use zthread.Base.{
  ℕ, ◌+◌, ◌-◌, ◌%◌, ◌^◌, Bool, true, false, not, Option, none, some, List, [], ◌∷◌, ◌==◌, ltb,
  if◌then◌else◌,
}

pub record CountedPtr : Type 0 where
  pub counter : Option ℕ
  pub instance_ : ℕ

-- The values of the counters, the number of the next one, and the pointers whose end deleted their
-- counter and their instance, 0 being none, latest first.
pub record Heap : Type 0 where
  pub counts : ℕ → ℕ
  pub next : ℕ
  pub freed : List CountedPtr

abbrev pub init : Heap
init = record { counts = λ _. 0; next = 0; freed = [] }

abbrev pub null : CountedPtr
null = record { counter = none; instance_ = 0 }

abbrev pub u64 : ℕ → ℕ
u64 n = n % 2 ^ 64

abbrev pub set_count : ℕ → ℕ → Heap → Heap
set_count c n h = record h { counts = λ d. if c == d then n else h.counts d }

unfoldable pub create : ℕ → Heap → CountedPtr × Heap
create raw h =
    let made = set_count h.next 0 (record h { next = h.next + 1 }) in
    (
      record { counter = some h.next; instance_ = raw },
      set_count h.next (u64 (made.counts h.next + 1)) made,
    )

unfoldable pub copy : CountedPtr → Heap → CountedPtr × Heap
copy p h = (p, elim p.counter [ none ↦ h | some c ↦ set_count c (u64 (h.counts c + 1)) h ])

unfoldable pub destroy : CountedPtr → Heap → Heap
destroy p h = elim p.counter [
  | none ↦ h
  | some c ↦
      let n = u64 (h.counts c + 2 ^ 64 - 1) in
      let lowered = set_count c n h in
      if n == 0 then record lowered { freed = p ∷ lowered.freed } else lowered
]

-- `ThisT(ptr).swap(*this)`: a copy of `ptr` and what the pointer was before change places, and the
-- latter is destroyed. The pointer afterwards, and the heap.
unfoldable pub assign : CountedPtr → CountedPtr → Heap → CountedPtr × Heap
unfolding copy destroy
assign ptr this h = let (made, h') = copy ptr h in (made, destroy this h')

-- `ThisT().swap(*this)`
unfoldable pub reset : CountedPtr → Heap → CountedPtr × Heap
unfolding destroy
reset this h = (null, destroy this h)

abbrev pub equal : CountedPtr → CountedPtr → Bool
equal p q = elim p.counter [
  | none ↦ elim q.counter [ none ↦ true | some d ↦ false ]
  | some c ↦ elim q.counter [ none ↦ false | some d ↦ c == d ]
]

abbrev pub less : CountedPtr → CountedPtr → Bool
less p q = ltb p.instance_ q.instance_

-- `operator bool`
abbrev pub is_set : CountedPtr → Bool
is_set p = not (p.instance_ == 0)
