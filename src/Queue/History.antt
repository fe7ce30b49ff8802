-- ===== src/Queue/History.antt =====
-- include/zthread/BoundedQueue.h: any interleaving of the goes of its methods.
use zthread.Base.{
  ℕ, ◌≤◌, ◌≡◌, refl, Bool, true, false, List, [], ◌∷◌, ◌++◌, append_assoc, arith, length,
  length-append, if◌then◌else◌,
}
use zthread.Blocking.{Outcome, returns, throws, waits, state}
use zthread.Queue.Bounded.{
  BoundedQueue, init, add, add_within, next, next_within, cancel, empty, empty_within,
}

-- One go of a method, by a thread.
pub data Go {ℓ} (T : Type ℓ) : Type ℓ where
  adds : ℕ → T → Go T
  adds_within : Bool → ℕ → T → Go T
  takes : ℕ → Go T
  takes_within : Bool → ℕ → Go T
  awaits_empty : ℕ → Go T
  awaits_empty_within : Bool → Bool → ℕ → Go T
  cancels : Go T

-- The queue, with every item that was ever added and every item that was ever taken, in order.
pub record Log {ℓ} (T : Type ℓ) : Type ℓ where
  pub queue : BoundedQueue T
  pub added : List T
  pub taken : List T

module _ {ℓ} {T : Type ℓ} where
  abbrev pub start : ℕ → Log T
  start capacity = record { queue = init capacity; added = []; taken = [] }

  -- What a producer's go adds to the log: its item, if it returned without an exception.
  abbrev pub log_added : T → Log T → Outcome (BoundedQueue T) (Unit {0}) → Log T
  log_added item l (returns a q) = record l { queue = q; added = l.added ++ item ∷ [] }
  log_added item l (throws e q) = record l { queue = q }
  log_added item l (waits q) = record l { queue = q }

  abbrev pub log_added_within : T → Log T → Outcome (BoundedQueue T) Bool → Log T
  log_added_within item l (returns done q) = record l {
    queue = q;
    added = if done then l.added ++ item ∷ [] else l.added;
  }
  log_added_within item l (throws e q) = record l { queue = q }
  log_added_within item l (waits q) = record l { queue = q }

  abbrev pub log_taken : Log T → Outcome (BoundedQueue T) T → Log T
  log_taken l (returns item q) = record l { queue = q; taken = l.taken ++ item ∷ [] }
  log_taken l (throws e q) = record l { queue = q }
  log_taken l (waits q) = record l { queue = q }

  unfoldable pub step : Go T → Log T → Log T
  unfolding add add_within next next_within cancel empty empty_within
  step (adds t item) l = log_added item l (add t item l.queue)
  step (adds_within b t item) l = log_added_within item l (add_within b t item l.queue)
  step (takes t) l = log_taken l (next t l.queue)
  step (takes_within b t) l = log_taken l (next_within b t l.queue)
  step (awaits_empty t) l = record l { queue = state (empty t l.queue) }
  step (awaits_empty_within b c t) l = record l { queue = state (empty_within b c t l.queue) }
  step cancels l = record l { queue = cancel l.queue }

  unfoldable pub run : List (Go T) → Log T → Log T
  run [] l = l
  run (g ∷ gs) l = run gs (step g l)

  -- The items that left, then those that are there, are those that came, in their order; and the
  -- capacity is not passed.
  pub record Inv (c : ℕ) (l : Log T) : Type ℓ where
    pub order : l.taken ++ l.queue.queue ≡ l.added
    pub fixed : l.queue.capacity ≡ c
    pub fits : length l.queue.queue ≤ c

  snoc : (xs ys : List T) (item : T) → (xs ++ item ∷ []) ++ ys ≡ xs ++ item ∷ ys
  snoc xs ys item = append_assoc xs (item ∷ []) ys

  add-Inv :
      (c t : ℕ) (item : T) (l : Log T) → Inv c l → Inv c (log_added item l (add t item l.queue))
  unfolding add
  add-Inv c t item l v = ground (
    arith,
    append_assoc l.taken l.queue.queue (item ∷ []),
    length-append l.queue.queue (item ∷ []),
  )

  add_within-Inv :
      (c t : ℕ) (b : Bool) (item : T) (l : Log T)
      → Inv c l
      → Inv c (log_added_within item l (add_within b t item l.queue))
  unfolding add_within
  add_within-Inv c t b item l v = ground (
    arith,
    append_assoc l.taken l.queue.queue (item ∷ []),
    length-append l.queue.queue (item ∷ []),
  )

  next-Inv :
      (c t : ℕ) (l : Log T) (xs : List T)
      → l.queue.queue ≡ xs
      → Inv c l
      → Inv c (log_taken l (next t l.queue))
  unfolding next
  next-Inv c t l [] e v = ground arith
  next-Inv c t l (item ∷ rest) e v = ground (arith, snoc l.taken rest item)

  next_within-Inv :
      (c t : ℕ) (b : Bool) (l : Log T) → Inv c l → Inv c (log_taken l (next_within b t l.queue))
  unfolding next_within
  next_within-Inv c t true l v = next-Inv c t l l.queue.queue refl v
  next_within-Inv c t false l v = v

  empty-Inv : (c t : ℕ) (l : Log T) → Inv c l → Inv c (record l { queue = state (empty t l.queue) })
  unfolding empty
  empty-Inv c t l v = ground arith

  step-Inv : (c : ℕ) (g : Go T) (l : Log T) → Inv c l → Inv c (step g l)
  unfolding step
  step-Inv c (adds t item) l v = add-Inv c t item l v
  step-Inv c (adds_within b t item) l v = add_within-Inv c t b item l v
  step-Inv c (takes t) l v = next-Inv c t l l.queue.queue refl v
  step-Inv c (takes_within b t) l v = next_within-Inv c t b l v
  step-Inv c (awaits_empty t) l v = empty-Inv c t l v
  step-Inv c (awaits_empty_within true c' t) l v = empty-Inv c t l v
  step-Inv c (awaits_empty_within false c' t) l v = v
  step-Inv c cancels l v = ground arith

  run-Inv : (c : ℕ) (gs : List (Go T)) (l : Log T) → Inv c l → Inv c (run gs l)
  unfolding run
  run-Inv c [] l v = v
  run-Inv c (g ∷ gs) l v = run-Inv c gs (step g l) (step-Inv c g l v)

  -- After any interleaving of goes of any methods by any threads, in which waits may end in time or
  -- not, the items taken so far followed by the items in the queue are the items added so far, in the
  -- order of their addition, each as often; and the queue never holds more than its capacity.
  pub run-start-Inv : (c : ℕ) (gs : List (Go T)) → Inv c (run gs (start c))
  run-start-Inv c gs =
      run-Inv c gs (start c) (record { order = refl; fixed = refl; fits = omega arith })
