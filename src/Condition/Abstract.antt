-- ===== src/Condition/Abstract.antt =====
-- src/ConditionImpl.h as include/zthread/Condition.h promises it: threads that wait, longest first, and
-- threads that were woken, which is what the queues, the barrier and the read-write locks build on.
use zthread.Base.{
  ℕ, ◌≡◌, refl, sym, subst, ap, ◌∙◌, false, Option, none, some, List, [], ◌∷◌, ◌++◌, is_empty,
}
use zthread.Blocking
use zthread.Waiters.{Monitors, update}
use zthread.Waiters.Passes.{wake_first, wake_all}
use zthread.Waiters.Stay.{Shared, on_object}
use zthread.Waiters.Laws.{
  IsReady, deaf, notified, busy_of, wake_first-none, notified-free, attempt-ready, wake_all-free,
}
use zthread.Waiters.Broadcast.{
  Told, AllFree, Told-update, deaf-update, notified-Told, wake_all-keeps, wake_all-AllFree,
}
use zthread.Condition.{
  Condition, enter, set_waiters, signal, broadcast, signal_pass, broadcast_pass,
}
use zthread.Condition.Signals.{repeat-done, pass-woke, signal_wakes}

-- What is done to a condition.
pub data Op : Type 0 where
  signals broadcasts : Op
  sleeps : (t : ℕ) → Op

abbrev pub abstract_op : Op → Blocking.Condition → Blocking.Condition
abstract_op signals c = Blocking.signal c
abstract_op broadcasts c = Blocking.broadcast c
abstract_op (sleeps t) c = Blocking.sleep t c

abbrev pub abstract_ops : List Op → Blocking.Condition → Blocking.Condition
abstract_ops [] c = c
abstract_ops (o ∷ os) c = abstract_ops os (abstract_op o c)

-- The insertion of fifo_list.
abbrev pub push_back : ℕ → List ℕ → List ℕ
push_back t ts = ts ++ t ∷ []

abbrev NoneDeaf : Monitors → Type 0
NoneDeaf ms = (t : ℕ) → deaf (ms t) ≡ false

abbrev pub AllTold : Monitors → List ℕ → Type 0
AllTold ms [] = Unit {0}
AllTold ms (t ∷ ts) = Told (ms t) × AllTold ms ts

AllTold-append :
    (ms : Monitors) (ts us : List ℕ) → AllTold ms ts → AllTold ms us → AllTold ms (ts ++ us)
AllTold-append ms [] us a b = b
AllTold-append ms (t ∷ ts) us a b = (a.0, AllTold-append ms ts us a.1 b)

-- Signals stay where they are in other monitors.
AllTold-kept :
    (ms ns : Monitors) (ts : List ℕ)
    → ((t : ℕ) → Told (ms t) → Told (ns t))
    → AllTold ms ts
    → AllTold ns ts
AllTold-kept ms ns [] k a = tt
AllTold-kept ms ns (t ∷ ts) k a = (k t a.0, AllTold-kept ms ns ts k a.1)

wake_all-step :
    (u : ℕ) (ts : List ℕ) (ms : Monitors)
    → IsReady (ms u)
    → wake_all (u ∷ ts) ms ≡ wake_all ts (update ms u (notified (ms u)))
unfolding wake_all
wake_all-step u ts ms r = rw (attempt-ready u ms r) refl

-- A pass of `broadcast` tells all.
wake_all-AllTold :
    (ts : List ℕ) (ms : Monitors)
    → AllFree ms
    → NoneDeaf ms
    → AllTold (wake_all ts ms).monitors ts × NoneDeaf (wake_all ts ms).monitors
unfolding wake_all
wake_all-AllTold [] ms n d = (tt, d)
wake_all-AllTold (u ∷ ts) ms n d =
    let woken = update ms u (notified (ms u)) in
    let free = notified-free ms u n in
    let (told, hear) = wake_all-AllTold ts woken free (λ t. deaf-update ms u t (d t)) in
    subst (λ p. AllTold p.monitors (u ∷ ts) × NoneDeaf p.monitors)
      (sym (wake_all-step u ts ms (n u, d u)))
      ((wake_all-keeps ts woken u free (notified-Told ms u), told), hear)

signal-nobody : (c : Blocking.Condition) → c.waiting ≡ [] → Blocking.signal c ≡ c
signal-nobody c e = rw e

signal-first :
    (c : Blocking.Condition) {t : ℕ} {ts : List ℕ}
    → c.waiting ≡ t ∷ ts
    → Blocking.signal c ≡ record { waiting = ts; woken = c.woken ++ t ∷ [] }
signal-first c e = rw e

module _ {L : Type 0} where
  unfoldable pub run_op : Op → Shared (Condition L) → Option (Shared (Condition L))
  run_op signals s = signal [] s
  run_op broadcasts s = broadcast [] s
  run_op (sleeps t) s = some (on_object (enter push_back t) s)

  unfoldable pub run_ops : List Op → Shared (Condition L) → Option (Shared (Condition L))
  run_ops [] s = some s
  run_ops (o ∷ os) s = elim (run_op o s) [ none ↦ none | some s' ↦ run_ops os s' ]

  -- The threads that wait are listed in their order, those that were woken hold a signal, no monitor's
  -- lock is held and none refuses a notification.
  pub record Shows (s : Shared (Condition L)) (c : Blocking.Condition) : Type 0 where
    pub listed : s.object.waiters ≡ c.waiting
    pub told : AllTold s.monitors c.woken
    pub free : AllFree s.monitors
    pub hear : NoneDeaf s.monitors

  abbrev Refines : Op → Shared (Condition L) → Blocking.Condition → Type 0
  Refines o s c = (s' : Shared (Condition L)) × (run_op o s ≡ some s') × Shows s' (abstract_op o c)

  signal-Refines :
      (s : Shared (Condition L)) (c : Blocking.Condition) (ts : List ℕ)
      → c.waiting ≡ ts
      → Shows s c
      → Refines signals s c
  unfolding run_op signal busy_of wake_first
  signal-Refines s c [] e h =
      let p =
        pass-woke s
          (ap (λ ws. wake_first ws s.monitors) (h.listed ∙ e) ∙ wake_first-none [] s.monitors tt) in
      (
        set_waiters [] s.monitors s,
        repeat-done signal_pass [] s (ap (λ x. x.0) p) ∙ ap (λ x. some x.1) p,
        subst (Shows (set_waiters [] s.monitors s)) (sym (signal-nobody c e))
            (record { listed = sym e; told = h.told; free = h.free; hear = h.hear }),
      )
  signal-Refines s c (t ∷ ts) e h =
      let woken = update s.monitors t (notified (s.monitors t)) in
      (
        set_waiters ts woken s,
        signal_wakes [] s [] ts t (h.listed ∙ e) tt (h.free t, h.hear t),
        subst (Shows (set_waiters ts woken s)) (sym (signal-first c e)) (record {
          listed = refl;
          told =
              AllTold-append woken c.woken (t ∷ [])
                (AllTold-kept s.monitors woken c.woken (Told-update s.monitors t) h.told)
                (notified-Told s.monitors t, tt);
          free = notified-free s.monitors t h.free;
          hear = λ u. deaf-update s.monitors t u (h.hear u);
        }),
      )

  broadcast-Refines :
      (s : Shared (Condition L)) (c : Blocking.Condition) → Shows s c → Refines broadcasts s c
  unfolding run_op broadcast broadcast_pass
  broadcast-Refines s c h =
      let (told, hear) = wake_all-AllTold s.object.waiters s.monitors h.free h.hear in
      let after = (wake_all s.object.waiters s.monitors).monitors in
      let empty = wake_all-free s.object.waiters s.monitors h.free in
      (
        (broadcast_pass s).1,
        repeat-done broadcast_pass [] s (ap is_empty empty),
        record {
          listed = empty;
          told =
              AllTold-append after c.woken c.waiting
                (AllTold-kept s.monitors after c.woken
                  (λ t. wake_all-keeps s.object.waiters s.monitors t h.free) h.told)
                (subst (AllTold after) h.listed told);
          free = wake_all-AllFree s.object.waiters s.monitors h.free;
          hear = hear;
        },
      )

  op-Refines :
      (o : Op) (s : Shared (Condition L)) (c : Blocking.Condition) → Shows s c → Refines o s c
  unfolding run_op
  op-Refines signals s c h = signal-Refines s c c.waiting refl h
  op-Refines broadcasts s c h = broadcast-Refines s c h
  op-Refines (sleeps t) s c h = (
    on_object (enter push_back t) s,
    refl,
    record { listed = ap (push_back t) h.listed; told = h.told; free = h.free; hear = h.hear },
  )

  -- The condition does what its users see: where no thread holds a monitor's lock and no interruption
  -- of interest is pending for any, every sequence of `signal`, `broadcast` and entries of waiting
  -- threads comes to an end, each call in the first round of its loop; afterwards the threads that
  -- still wait by the abstract condition are those listed, in its order, and every thread that it has
  -- woken holds a signal.
  pub condition_refines :
      (os : List Op) (s : Shared (Condition L)) (c : Blocking.Condition)
      → Shows s c
      → (s' : Shared (Condition L)) × (run_ops os s ≡ some s') × Shows s' (abstract_ops os c)
  unfolding run_ops
  condition_refines [] s c h = (s, refl, h)
  condition_refines (o ∷ os) s c h =
      let (s1, e, h1) = op-Refines o s c h in
      let (s2, f, h2) = condition_refines os s1 (abstract_op o c) h1 in (s2, rw (e, run_ops) f, h2)
