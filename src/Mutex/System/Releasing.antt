-- ===== src/Mutex/System/Releasing.antt =====
-- The steps of `MutexImpl::release` keep the invariant of `Mutex.System`.
use zthread.Base.{
  ℕ, ◌≡◌, refl, sym, ap, subst, ◌∙◌, ◌⊎◌, inl, inr, Bool, true, false, Option, none, some, [],
  arith, ◌==◌, ==_iff, Bool-cases, Option-cases, is_empty,
}
use zthread.Monitor.{Monitor}
use zthread.Waiters.{update}
use zthread.Waiters.Laws.{deaf, notified}
use zthread.Waiters.Stay.{Shared}
use zthread.Mutex.{Mutex, release_pass}
use zthread.Mutex.System.{System, Pc, passed, shared, give_up}
use zthread.Mutex.System.Listed.{listed, split}
use zthread.Mutex.System.Steps.{Local, LocalAt, Inv, holds_token, release_pass-calm, has_token}
use zthread.Mutex.System.Acquiring.{same}

-- The thread that has the token, when it is in `release`: the owner that gives it up, or one that backed
-- off before.
abbrev Releases : (t : ℕ) (s : System) → Inv s → Type 0
Releases t s v = (holds_token v.holder t ≡ true) × ((s.pc t ≡ Pc.owning) ⊎ (s.pc t ≡ Pc.releasing))

one_holder : (h : Option ℕ) (t j : ℕ) → holds_token h t ≡ true → holds_token h j ≡ true → j ≡ t
one_holder none t j a b = cc
one_holder (some x) t j a b = sym ((==_iff x j).0 b) ∙ (==_iff x t).0 a

-- At most one thread has the token.
pub one_token :
    (s : System) (v : Inv s) (t j : ℕ)
    → has_token (s.pc t) (s.monitors t) ≡ true
    → has_token (s.pc j) (s.monitors j) ≡ true
    → j ≡ t
one_token s v t j a b =
    one_holder v.holder t j (sym (v.locals t).holds ∙ a) (sym (v.locals j).holds ∙ b)

unlocked_waits :
    (p : Pc) (m : Monitor) {in_list mine held empty : Bool}
    → Local p m in_list mine held empty
    → in_list ≡ true
    → m.locked ≡ false
    → has_token p m ≡ false
    → p ≡ Pc.waiting
unlocked_waits p m v l f h = ground arith

-- A listed thread is another one than that which is in `release`.
apart :
    (t u : ℕ) (s : System)
    → Inv s
    → (s.pc t ≡ Pc.owning) ⊎ (s.pc t ≡ Pc.releasing)
    → listed u s.mutex.waiters ≡ true
    → (t == u) ≡ false
apart t u s v h w = elim (Bool-cases (t == u)) [
  | inl e ↦ let same_pc = ap s.pc ((==_iff t u).0 e) in let l = v.locals u in absurd (ground arith)
  | inr e ↦ e
]

ne_self : (t u : ℕ) → (t == u) ≡ false → u ≡ t → ⊥
ne_self t u n e = ground arith

module _ (t : ℕ) (s : System) (v : Inv s) where
  none_woken :
      Releases t s v → Inv (passed t (is_empty s.mutex.waiters) (shared (give_up s.mutex) s) s)
  none_woken r = elim (Bool-cases (is_empty s.mutex.waiters)) [
    | inl e ↦ record {
      holder = none;
      locals =
          split t (LocalAt after none) (let l = v.locals t in ground (arith, same t, r))
            (λ i n. let l = v.locals i in let k = v.locals t in ground (arith, r));
      distinct = v.distinct;
      awake = ground arith;
    }
    | inr e ↦ record {
      holder = some t;
      locals =
          split t (LocalAt after (some t)) (let l = v.locals t in ground (arith, same t, r))
            (λ i n. let l = v.locals i in let k = v.locals t in ground (arith, r));
      distinct = v.distinct;
      awake = refl;
    }
  ]
    where
      after : System
      after = passed t (is_empty s.mutex.waiters) (shared (give_up s.mutex) s) s

  one_woken :
      (u : ℕ)
      → Releases t s v
      → listed u s.mutex.waiters ≡ true
      → (s.monitors u).locked ≡ false
      → Inv (
          passed t true
            (record (shared (give_up s.mutex) s) {
              monitors = update s.monitors u (notified (s.monitors u));
            })
            s)
  one_woken u r l f = record {
    holder = some u;
    locals =
        split u (LocalAt after (some u)) (let l' = v.locals u in ground (arith, same u, n', w))
          (λ i n. let l' = v.locals i in let k = v.locals t in ground (arith, r));
    distinct = v.distinct;
    awake = refl;
  }
    where
      n' : (t == u) ≡ false
      n' = apart t u s v r.1 l

      untold : has_token (s.pc u) (s.monitors u) ≡ false
      untold = elim (Bool-cases (has_token (s.pc u) (s.monitors u))) [
        | inl e ↦
            let k = v.locals t in absurd (ne_self t u n' (one_token s v t u (k.holds ∙ r.0) e))
        | inr e ↦ e
      ]

      w : s.pc u ≡ Pc.waiting
      w = unlocked_waits (s.pc u) (s.monitors u) (v.locals u) l f untold

      after : System
      after =
          passed t true
            (record (shared (give_up s.mutex) s) {
              monitors = update s.monitors u (notified (s.monitors u));
            })
            s

calm : (s : System) → Inv s → (i : ℕ) → deaf (s.monitors i) ≡ false
calm s v i = let l = v.locals i in ground arith

-- A round of `release` from the state in which the mutex has no owner.
round-Inv :
    (t : ℕ) (s : System) (done : Bool) (sh : Shared Mutex) (v : Inv s)
    → Releases t s v
    → release_pass [] (shared (give_up s.mutex) s) ≡ some (done, sh)
    → Inv (passed t done sh s)
round-Inv t s done sh v r h = elim (release_pass-calm (shared (give_up s.mutex) s) (calm s v) h) [
  | inl (a, b) ↦ rw (a, b) (none_woken t s v r)
  | inr (u, l, f, a, b) ↦ rw (a, b) (one_woken t s v u r l f)
]

pub releases-Inv :
    (t : ℕ) (s : System) (done : Bool) (sh : Shared Mutex)
    → s.pc t ≡ Pc.owning
    → release_pass [] (shared (give_up s.mutex) s) ≡ some (done, sh)
    → Inv s
    → Inv (passed t done sh s)
releases-Inv t s done sh p h v =
    round-Inv t s done sh v (let l = v.locals t in ground arith, inl p) h

-- A thread in `release` finds the mutex without an owner.
unowned : (t : ℕ) (s : System) → s.pc t ≡ Pc.releasing → Inv s → s.mutex ≡ give_up s.mutex
unowned t s p v = elim (Option-cases s.mutex.owner) [
  | inl e ↦ λ i. record { waiters = s.mutex.waiters; owner = e i }
  | inr (j, e) ↦
      let l = v.locals j in
      let k = v.locals t in
      let q : s.pc j ≡ Pc.owning = ground (arith, same j) in
      let same_pc = ap s.pc (one_token s v t j (ground arith) (ground arith)) in
      absurd (ground arith)
]

pub retries-Inv :
    (t : ℕ) (s : System) (done : Bool) (sh : Shared Mutex)
    → s.pc t ≡ Pc.releasing
    → release_pass [] (shared s.mutex s) ≡ some (done, sh)
    → Inv s
    → Inv (passed t done sh s)
retries-Inv t s done sh p h v =
    round-Inv t s done sh v (let l = v.locals t in ground arith, inr p)
      (subst (λ o. release_pass [] (shared o s) ≡ some (done, sh)) (unowned t s p v) h)
