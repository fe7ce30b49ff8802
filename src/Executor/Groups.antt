-- ===== src/Executor/Groups.antt =====
-- `WaiterQueue`, which src/PoolExecutor.cxx and src/ThreadedExecutor.cxx both define: groups of tasks
-- that execute, with the threads that wait for them. A `size_t` has 64 bits; the sum of the counts is
-- taken not to overflow.
use zthread.Base.{
  ℕ, ◌+◌, ◌-◌, ◌%◌, ◌^◌, Bool, true, false, ◌&&◌, Option, none, some, List, [], ◌∷◌, ◌++◌, ◌==◌,
  if◌then◌else◌, is_empty,
}
use zthread.Exceptions.{Exception, Result, ok, throw}
use zthread.Status.{State}
use zthread.Waiters.{Monitors, remove}
use zthread.Waiters.Passes.{wake_all}
use zthread.Waiters.Stay.{Shared, During, on_object, stay}

pub record Group : Type 0 where
  pub id : ℕ
  pub count : ℕ
  pub waiters : List ℕ

pub record WaiterQueue : Type 0 where
  pub groups : List Group
  pub next_id : ℕ
  pub generation : ℕ

abbrev pub u64 : ℕ → ℕ
u64 n = n % 2 ^ 64

abbrev pub empty_group : ℕ → Group
empty_group n = record { id = n; count = 0; waiters = [] }

abbrev pub init : WaiterQueue
init = record { groups = empty_group 0 ∷ []; next_id = 1; generation = 0 }

-- `std::for_each(_list.begin(), _list.end(), counter())`
abbrev pub total : List Group → ℕ
total [] = 0
total (g ∷ gs) = g.count + total gs

-- `_list.back()`, which there always is.
abbrev pub on_last : (Group → Group) → List Group → List Group
on_last f [] = []
on_last f (g ∷ []) = f g ∷ []
on_last f (g ∷ h ∷ gs) = g ∷ on_last f (h ∷ gs)

abbrev pub last_or : Group → List Group → Group
last_or g [] = g
last_or g (h ∷ gs) = last_or h gs

abbrev pub back : WaiterQueue → Group
back q = last_or (empty_group 0) q.groups

-- The first group with the given identity, if there is one.
abbrev pub on_group : ℕ → (Group → Group) → List Group → List Group
on_group n f [] = []
on_group n f (g ∷ gs) = if g.id == n then f g ∷ gs else g ∷ on_group n f gs

abbrev pub join : ℕ → WaiterQueue → WaiterQueue
join self q = record q {
  groups = on_last (λ g. record g { waiters = g.waiters ++ self ∷ [] }) q.groups;
}

abbrev pub leave : ℕ → ℕ → WaiterQueue → WaiterQueue
leave n self q = record q {
  groups = on_group n (λ g. record g { waiters = remove self g.waiters }) q.groups;
}

-- The `switch` of `wait`.
abbrev pub finish : State → Result Bool
finish State.signaled = ok true
finish State.timedout = ok false
finish State.interrupted = throw Exception.interrupted
finish State.invalid = throw Exception.synchronization

abbrev pub resume :
    ℕ → ℕ → Option (State × Shared WaiterQueue) → Option (Result Bool × Shared WaiterQueue)
resume n self none = none
resume n self (some (state, s)) = some (finish state, on_object (leave n self) s)

unfoldable pub wait :
    ℕ → ℕ → During WaiterQueue → Shared WaiterQueue → Option (Result Bool × Shared WaiterQueue)
wait self timeout d s =
    if total s.object.groups == 0
    then some (ok true, s)
    else resume (back s.object).id self (stay self timeout d (on_object (join self) s))

-- The group and the generation of the task, and the queue.
unfoldable pub increment : WaiterQueue → (ℕ × ℕ) × WaiterQueue
increment q =
    let counted = on_last (λ g. record g { count = u64 (g.count + 1) }) q.groups in
    (
      ((back q).id, q.generation),
      (if is_empty (back q).waiters then record q { groups = counted } else record q {
        groups = counted ++ empty_group q.next_id ∷ [];
        next_id = u64 (q.next_id + 1);
      }),
    )

abbrev pub lower : Group → Group
lower g = record g { count = u64 (g.count + 2 ^ 64 - 1) }

-- `i != _list.end() && i->count == 0`, for the first group.
abbrev pub first_done : List Group → Bool
first_done [] = false
first_done (g ∷ gs) = g.count == 0

abbrev pub is_first : ℕ → List Group → Bool
is_first n [] = false
is_first n (g ∷ gs) = g.id == n

-- The loop of `decrement` up to its first backoff: whether it is left, and the groups and monitors.
unfoldable pub sweep : List Group → Monitors → Bool × List Group × Monitors
sweep [] ms = (true, [], ms)
sweep (g ∷ gs) ms =
    let p = wake_all g.waiters ms in
    let rest = sweep gs p.monitors in
    if is_empty p.waiters
    then (if first_done gs then rest else (true, gs, p.monitors))
    else (false, record g { waiters = p.waiters } ∷ gs, p.monitors)

unfoldable pub sweep_pass : Shared WaiterQueue → Bool × Shared WaiterQueue
sweep_pass s =
    let (done, groups, ms) = sweep s.object.groups s.monitors in
    (done, record { object = record (s.object) { groups = groups }; monitors = ms })

-- The whole loop: each entry of the list is what other threads do while it backs off, with the lock
-- free; `none` when the list is at its end and the loop still goes on.
unfoldable pub sweep_loop :
    List (Shared WaiterQueue → Shared WaiterQueue)
    → Shared WaiterQueue
    → Option (Shared WaiterQueue)
sweep_loop [] s = let (done, s') = sweep_pass s in if done then some s' else none
sweep_loop (others ∷ rest) s =
    let (done, s') = sweep_pass s in
    let again = sweep_loop rest (others s') in
    if done
    then some s'
    else if first_done (others s').object.groups
    then again
    else some (others s')

-- `if(_list.empty()) _list.push_back( Group(++_id) );`
abbrev pub ensure_group : WaiterQueue → WaiterQueue
ensure_group q =
    if is_empty q.groups
    then record q { groups = empty_group (u64 (q.next_id + 1)) ∷ []; next_id = u64 (q.next_id + 1) }
    else q

abbrev pub ensured : Option (Shared WaiterQueue) → Option (Shared WaiterQueue)
ensured none = none
ensured (some s) = some (on_object ensure_group s)

-- A group with the given identity is there.
unfoldable pub decrement :
    List (Shared WaiterQueue → Shared WaiterQueue)
    → ℕ
    → Shared WaiterQueue
    → Option (Shared WaiterQueue)
decrement others n s =
    let lowered = on_object (λ q. record q { groups = on_group n lower q.groups }) s in
    if is_first n s.object.groups && first_done lowered.object.groups
    then ensured (sweep_loop others lowered)
    else some lowered

-- `generation(true)`
abbrev pub next_generation : WaiterQueue → WaiterQueue
next_generation q = record q { generation = u64 (q.generation + 1) }
