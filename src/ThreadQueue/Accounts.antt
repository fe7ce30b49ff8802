-- ===== src/ThreadQueue/Accounts.antt =====
-- src/ThreadQueue.cxx: no thread is lost, and none is reclaimed twice.
use zthread.Base.{
  ℕ, ◌+◌, ◌≡◌, refl, ◌∙◌, inl, inr, Bool, true, List, [], ◌∷◌, ◌++◌, ◌==◌, ==_iff, arith,
  if◌then◌else◌, Bool-cases, is_empty,
}
use zthread.Waiters.{Monitors, remove}
use zthread.Waiters.Stay.{Shared, on_object}
use zthread.ThreadQueue.{
  Waiter, ThreadQueue, init, end_user, insert_pending_thread, insert_reference_thread,
  insert_user_thread, begin_shutdown, poll_pending_threads, listed, tell_waiter,
}

abbrev pub count : ℕ → List ℕ → ℕ
count t [] = 0
count t (u ∷ us) = if u == t then 1 + count t us else count t us

count-append : (t : ℕ) (us vs : List ℕ) → count t (us ++ vs) ≡ count t us + count t vs
count-append t [] vs = omega arith
count-append t (u ∷ us) vs = ground (arith, count-append t us vs)

-- What the queue does when threads start and end, and when `main` ends: the threads that were started
-- so far, the queue, and those that were reclaimed.
pub data Reach (auto : ℕ → Bool) (monitors : Monitors)
    : List ℕ → Shared ThreadQueue → List ℕ → Type 0 where
  here : Reach auto monitors [] (record { object = init; monitors = monitors }) []
  starts :
      {started reclaimed : List ℕ} {s : Shared ThreadQueue} (t : ℕ)
      → Reach auto monitors started s reclaimed
      → Reach auto monitors
          (t ∷ started)
          (insert_user_thread auto t s).1
          (reclaimed ++ (insert_user_thread auto t s).0)
  ends :
      {started reclaimed : List ℕ} {s : Shared ThreadQueue} (t : ℕ)
      → listed t s.object.users ≡ true
      → Reach auto monitors started s reclaimed
      → Reach auto monitors started (insert_pending_thread t s) reclaimed
  discovers :
      {started reclaimed : List ℕ} {s : Shared ThreadQueue} (t : ℕ)
      → Reach auto monitors started s reclaimed
      → Reach auto monitors started (on_object (insert_reference_thread t) s) reclaimed
  shuts_down :
      {started reclaimed : List ℕ} {s : Shared ThreadQueue} (self : ℕ)
      → Reach auto monitors started s reclaimed
      → Reach auto monitors started (begin_shutdown auto self s).1 reclaimed

abbrev held : ℕ → ThreadQueue → ℕ
held t q = count t q.users + count t q.pending

count-remove :
    (t u : ℕ) (us : List ℕ)
    → listed u us ≡ true
    → count t (remove u us) + count t (u ∷ []) ≡ count t us
unfolding remove
count-remove t u [] h = cc
count-remove t u (v ∷ vs) h = elim (Bool-cases (v == u)) [
  | inl e ↦ let same : v ≡ u = (==_iff v u).0 e in rw e (ground arith)
  | inr e ↦ rw e (ground (arith, count-remove t u vs (rw e at h)))
]

held-end_user :
    (t u : ℕ) (q : ThreadQueue) → listed u q.users ≡ true → held t (end_user u q) ≡ held t q
held-end_user t u q h = omega (arith, count-append t q.pending (u ∷ []), count-remove t u q.users h)

held-tell_waiter :
    (t : ℕ) (w : Waiter) (s : Shared ThreadQueue)
    → held t (tell_waiter w s).object ≡ held t s.object
held-tell_waiter t Waiter.nobody s = refl
held-tell_waiter t Waiter.marked s = refl
held-tell_waiter t (Waiter.thread w) s = refl

held-insert_pending_thread :
    (t u : ℕ) (s : Shared ThreadQueue)
    → listed u s.object.users ≡ true
    → held t (insert_pending_thread u s).object ≡ held t s.object
unfolding insert_pending_thread
held-insert_pending_thread t u s h = elim (Bool-cases (is_empty (end_user u s.object).users)) [
  | inl e ↦
      rw e (
        held-tell_waiter t s.object.waiter (on_object (end_user u) s)
        ∙ held-end_user t u s.object h)
  | inr e ↦ rw e (held-end_user t u s.object h)
]

held-insert_user_thread :
    (t u : ℕ) (auto : ℕ → Bool) (s : Shared ThreadQueue)
    → held t (insert_user_thread auto u s).1.object + count t (insert_user_thread auto u s).0
      ≡ count t (u ∷ []) + held t s.object
unfolding insert_user_thread poll_pending_threads
held-insert_user_thread t u auto s = omega (arith, count-append t s.object.users (u ∷ []))

-- Every thread that was started is at each time either a user thread, a pending one, or reclaimed,
-- as often as it was started, and a thread that was not started is none of these, whatever threads
-- start and end, in any order, before and after the destructor begins.
pub Reach-accounts :
    {auto : ℕ → Bool} {monitors : Monitors} {started reclaimed : List ℕ} {s : Shared ThreadQueue}
    (t : ℕ)
    → Reach auto monitors started s reclaimed
    → count t started ≡ count t s.object.users + count t s.object.pending + count t reclaimed
unfolding begin_shutdown insert_reference_thread
Reach-accounts t here = refl
Reach-accounts {auto = auto} t (starts {started = started} {reclaimed = reclaimed} {s = s} u r) =
    omega (
      arith,
      Reach-accounts t r,
      held-insert_user_thread t u auto s,
      count-append t (u ∷ []) started,
      count-append t reclaimed (insert_user_thread auto u s).0,
    )
Reach-accounts t (ends {s = s} u h r) =
    omega (arith, Reach-accounts t r, held-insert_pending_thread t u s h)
Reach-accounts t (discovers u r) = Reach-accounts t r
Reach-accounts t (shuts_down self r) = Reach-accounts t r
