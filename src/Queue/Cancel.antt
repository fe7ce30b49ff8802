-- ===== src/Queue/Cancel.antt =====
-- include/zthread/BoundedQueue.h after its `cancel`.
use zthread.Base.{
  ℕ, ◌≡◌, refl, sym, ap, ◌∙◌, Bool, true, false, List, [], ◌∷◌, ◌++◌, append_assoc, append-nil,
  arith,
}
use zthread.Exceptions.{Exception}
use zthread.Blocking.{Outcome, returns, throws, signal}
use zthread.Queue.Bounded.{BoundedQueue, wake_empty, next, cancel}
use zthread.Queue.History.{
  Go, adds, adds_within, takes, takes_within, awaits_empty, awaits_empty_within, cancels, Log,
  log_taken, step, run,
}

module _ {ℓ} {T : Type ℓ} where
  -- Goes of all methods but `next`.
  abbrev pub is_take : Go T → Bool
  is_take (takes t) = true
  is_take (takes_within b t) = true
  is_take _ = false

  next-canceled :
      (t : ℕ) (l : Log T) (xs : List T)
      → l.queue.queue ≡ xs
      → l.queue.canceled ≡ true
      → ((log_taken l (next t l.queue)).queue.canceled ≡ true)
        × ((log_taken l (next t l.queue)).added ≡ l.added)
  unfolding next
  next-canceled t l [] e h = ground arith
  next-canceled t l (x ∷ xs) e h = ground arith

  step-canceled :
      (g : Go T) (l : Log T)
      → l.queue.canceled ≡ true
      → ((step g l).queue.canceled ≡ true) × ((step g l).added ≡ l.added)
  unfolding step
  step-canceled (adds t item) l h = ground arith
  step-canceled (adds_within b t item) l h = ground arith
  step-canceled (takes t) l h = next-canceled t l l.queue.queue refl h
  step-canceled (takes_within true t) l h = next-canceled t l l.queue.queue refl h
  step-canceled (takes_within false t) l h = (h, refl)
  step-canceled (awaits_empty t) l h = ground arith
  step-canceled (awaits_empty_within b c t) l h = ground arith
  step-canceled cancels l h = ground arith

  run-canceled :
      (gs : List (Go T)) (l : Log T)
      → l.queue.canceled ≡ true
      → ((run gs l).queue.canceled ≡ true) × ((run gs l).added ≡ l.added)
  unfolding run
  run-canceled [] l h = (h, refl)
  run-canceled (g ∷ gs) l h =
      let (c, a) = step-canceled g l h in
      let (c', a') = run-canceled gs (step g l) c in (c', a' ∙ a)

  cancels-canceled :
      (l : Log T) → ((step cancels l).queue.canceled ≡ true) × ((step cancels l).added ≡ l.added)
  unfolding step
  cancels-canceled l = (refl, refl)

  -- From the one state to the other, items were taken from the front of the queue and none came.
  abbrev pub OnlyTaken : Log T → Log T → Type ℓ
  OnlyTaken l l' =
      (xs : List T) × (l.queue.queue ≡ xs ++ l'.queue.queue) × (l'.taken ≡ l.taken ++ xs)

  none_taken : (l l' : Log T) → l.queue.queue ≡ l'.queue.queue → l'.taken ≡ l.taken → OnlyTaken l l'
  none_taken l l' e t = ([], e, t ∙ sym (append-nil l.taken))

  OnlyTaken-trans : (l m r : Log T) → OnlyTaken l m → OnlyTaken m r → OnlyTaken l r
  OnlyTaken-trans l m r (xs, e, t) (ys, f, u) = (
    xs ++ ys,
    e ∙ ap (λ zs. xs ++ zs) f ∙ sym (append_assoc xs ys r.queue.queue),
    u ∙ ap (λ zs. zs ++ ys) t ∙ append_assoc l.taken xs ys,
  )

  next-OnlyTaken :
      (t : ℕ) (l : Log T) (xs : List T)
      → l.queue.queue ≡ xs
      → OnlyTaken l (log_taken l (next t l.queue))
  unfolding next
  next-OnlyTaken t l [] e =
      none_taken l (log_taken l (next t l.queue)) (ground arith) (ground arith)
  next-OnlyTaken t l (x ∷ xs) e = (x ∷ [], ground arith, ground arith)

  step-OnlyTaken : (g : Go T) (l : Log T) → l.queue.canceled ≡ true → OnlyTaken l (step g l)
  unfolding step
  step-OnlyTaken (adds t item) l h =
      none_taken l (step (adds t item) l) (ground arith) (ground arith)
  step-OnlyTaken (adds_within b t item) l h =
      none_taken l (step (adds_within b t item) l) (ground arith) (ground arith)
  step-OnlyTaken (takes t) l h = next-OnlyTaken t l l.queue.queue refl
  step-OnlyTaken (takes_within true t) l h = next-OnlyTaken t l l.queue.queue refl
  step-OnlyTaken (takes_within false t) l h = none_taken l (step (takes_within false t) l) refl refl
  step-OnlyTaken (awaits_empty t) l h = none_taken l (step (awaits_empty t) l) (ground arith) refl
  step-OnlyTaken (awaits_empty_within b c t) l h =
      none_taken l (step (awaits_empty_within b c t) l) (ground arith) refl
  step-OnlyTaken cancels l h = none_taken l (step cancels l) refl refl

  run-OnlyTaken : (gs : List (Go T)) (l : Log T) → l.queue.canceled ≡ true → OnlyTaken l (run gs l)
  unfolding run
  run-OnlyTaken [] l h = none_taken l l refl refl
  run-OnlyTaken (g ∷ gs) l h =
      OnlyTaken-trans l (step g l) (run gs (step g l)) (step-OnlyTaken g l h)
        (run-OnlyTaken gs (step g l) (step-canceled g l h).0)

  cancels-OnlyTaken : (l : Log T) → OnlyTaken l (step cancels l)
  unfolding step
  cancels-OnlyTaken l = none_taken l (step cancels l) refl refl

  -- The outcome is the first of these items, which leaves the others, or the Cancellation_Exception if
  -- there is none.
  abbrev pub FirstOf : List T → Outcome (BoundedQueue T) T → Type ℓ
  FirstOf [] o = (q : BoundedQueue T) × (o ≡ throws Exception.cancellation q)
  FirstOf (x ∷ xs) o = (q : BoundedQueue T) × (o ≡ returns x q) × (q.queue ≡ xs)

  next-FirstOf :
      (t : ℕ) (q : BoundedQueue T) (xs : List T)
      → q.queue ≡ xs
      → q.canceled ≡ true
      → FirstOf xs (next t q)
  unfolding next
  next-FirstOf t q [] e h = (q, rw (e, h) refl)
  next-FirstOf t q (x ∷ xs) e h =
      (wake_empty (record q { queue = xs; not_full = signal q.not_full }), rw e refl, ground arith)

  -- Once `cancel` has been called, whatever goes of whatever methods follow, no item comes into the
  -- queue any more: what was in it when `cancel` was called is what has been taken since, followed by
  -- what is still there. And no go of `next` waits: it returns the first item that is there and leaves
  -- the others, or, if there is none, throws a Cancellation_Exception.
  pub cancel_closes :
      (gs : List (Go T)) (l : Log T) (t : ℕ)
      → let l' = run gs (step cancels l) in
        (l'.queue.canceled ≡ true)
        × (l'.added ≡ l.added)
        × OnlyTaken l l'
        × FirstOf l'.queue.queue (next t l'.queue)
  cancel_closes gs l t =
      let (c, a) = cancels-canceled l in
      let (c', a') = run-canceled gs (step cancels l) c in
      (
        c',
        a' ∙ a,
        OnlyTaken-trans l (step cancels l) (run gs (step cancels l)) (cancels-OnlyTaken l)
            (run-OnlyTaken gs (step cancels l) c),
        next-FirstOf t (run gs (step cancels l)).queue _ refl c',
      )

  step-not_full :
      (g : Go T) (l : Log T)
      → l.queue.canceled ≡ true
      → is_take g ≡ false
      → (step g l).queue.not_full ≡ l.queue.not_full
  unfolding step
  step-not_full (adds t item) l h n = ground arith
  step-not_full (adds_within b t item) l h n = ground arith
  step-not_full (takes t) l h n = cc
  step-not_full (takes_within b t) l h n = cc
  step-not_full (awaits_empty t) l h n = ground arith
  step-not_full (awaits_empty_within b c t) l h n = ground arith
  step-not_full cancels l h n = ground arith

  abbrev pub NoTakes : List (Go T) → Type 0
  NoTakes [] = Unit {0}
  NoTakes (g ∷ gs) = (is_take g ≡ false) × NoTakes gs

  run-not_full :
      (gs : List (Go T)) (l : Log T)
      → l.queue.canceled ≡ true
      → NoTakes gs
      → (run gs l).queue.not_full ≡ l.queue.not_full
  unfolding run
  run-not_full [] l h n = refl
  run-not_full (g ∷ gs) l h (n, ns) =
      run-not_full gs (step g l) (step-canceled g l h).0 ns ∙ step-not_full g l h n

  -- `cancel` wakes every consumer that waits, and no producer: the threads that wait for room when
  -- the queue is canceled still wait after any goes of any methods but `next`, however many times
  -- `cancel` is called, with nothing having woken them.
  pub cancel_strands :
      (gs : List (Go T)) (l : Log T)
      → NoTakes gs
      → ((step cancels l).queue.not_empty.waiting ≡ [])
        × ((run gs (step cancels l)).queue.not_full ≡ l.queue.not_full)
  unfolding step cancel
  cancel_strands gs l n = (refl, run-not_full gs (step cancels l) refl n)
