-- ===== src/Platform/Recursive/Agreement.antt =====
-- The three recursive locks answer alike.
use zthread.Base.{
  ℕ, ◌+◌, ◌≡◌, refl, ap, inl, inr, Bool, true, false, Option, none, some, List, [], ◌∷◌, ◌==◌,
  ==_iff, Bool-cases,
}
use zthread.Platform.Recursive.{
  Simple, Atomic, Conditional, may_enter, up, down, simple_try, simple_release, atomic_try,
  atomic_release, conditional_try, conditional_release,
}

-- What threads do with a lock: a thread tries to acquire it, and its holder releases it.
pub data Op : Type 0 where
  tries : (self : ℕ) → Op
  releases : Op

-- The answers of the attempts, and the lock after all.
module _ {L : Type 0} (try : ℕ → L → Bool × L) (release : L → L) where
  abbrev pub run : List Op → L → List Bool × L
  run [] l = ([], l)
  run (tries self ∷ os) l =
      let (answer, m) = try self l in let (answers, n) = run os m in (answer ∷ answers, n)
  run (releases ∷ os) l = run os (release l)

abbrev pub simple_run : List Op → Simple → List Bool × Simple
simple_run = run simple_try simple_release

abbrev pub atomic_run : List Op → Atomic → List Bool × Atomic
atomic_run = run atomic_try atomic_release

abbrev pub conditional_run : List Op → Conditional → List Bool × Conditional
conditional_run = run conditional_try conditional_release

-- No thread is the number 0.
abbrev pub Proper : List Op → Type 0
Proper [] = Unit {0}
Proper (tries self ∷ os) = ((self == 0) ≡ false) × Proper os
Proper (releases ∷ os) = Proper os

abbrev pub ProperOwner : Option ℕ → Type 0
ProperOwner none = Unit {0}
ProperOwner (some t) = (t == 0) ≡ false

abbrev pub word : Option ℕ → ℕ
word none = 0
word (some t) = t

-- The same lock on Windows and on POSIX.
abbrev pub atomic : Simple → Atomic
atomic l = record { lock = word l.owner; count = l.count }

abbrev pub conditional : Simple → ℕ → Conditional
conditional l n = record { owner = word l.owner; count = l.count; signals = n }

-- One attempt, and one release.
ProperOwner-try :
    (self : ℕ) (l : Simple)
    → (self == 0) ≡ false
    → ProperOwner l.owner
    → ProperOwner (simple_try self l).1.owner
unfolding simple_try
ProperOwner-try self l h p = elim (Bool-cases (may_enter self l)) [
  | inl e ↦ rw e h
  | inr e ↦ rw e p
]

ProperOwner-release : (l : Simple) → ProperOwner l.owner → ProperOwner (simple_release l).owner
unfolding simple_release
ProperOwner-release l p = elim (Bool-cases (down l.count == 0)) [ inl e ↦ rw e tt | inr e ↦ rw e p ]

atomic-try :
    (self : ℕ) (o : Option ℕ) (n : ℕ)
    → ProperOwner o
    → let l : Simple = record { owner = o; count = n } in
      atomic_try self (atomic l) ≡ ((simple_try self l).0, atomic (simple_try self l).1)
unfolding simple_try atomic_try
atomic-try self none n p = refl
atomic-try self (some t) n p = elim (Bool-cases (t == self)) [
  | inl e ↦ rw (e, p) (ap (λ x. (true, record { lock = x; count = up n })) ((==_iff t self).0 e))
  | inr e ↦ rw (e, p) refl
]

conditional-try :
    (self : ℕ) (o : Option ℕ) (n k : ℕ)
    → ProperOwner o
    → let l : Simple = record { owner = o; count = n } in
      conditional_try self (conditional l k)
      ≡ ((simple_try self l).0, conditional (simple_try self l).1 k)
unfolding simple_try conditional_try
conditional-try self none n k p = refl
conditional-try self (some t) n k p = elim (Bool-cases (t == self)) [
  | inl e ↦ rw (e, p) refl
  | inr e ↦ rw (e, p) refl
]

atomic-release : (l : Simple) → atomic_release (atomic l) ≡ atomic (simple_release l)
unfolding simple_release atomic_release
atomic-release l = elim (Bool-cases (down l.count == 0)) [ inl e ↦ rw e refl | inr e ↦ rw e refl ]

conditional-release :
    (l : Simple) (k : ℕ)
    → (j : ℕ) × (conditional_release (conditional l k) ≡ conditional (simple_release l) j)
unfolding simple_release conditional_release
conditional-release l k = elim (Bool-cases (down l.count == 0)) [
  | inl e ↦ (k + 1, rw e refl)
  | inr e ↦ (k, rw e refl)
]

-- A run goes on alike.
abbrev Alike : List Op → Simple → ℕ → Type 0
Alike os l k =
    (atomic_run os (atomic l) ≡ ((simple_run os l).0, atomic (simple_run os l).1))
    × ((j : ℕ) × (conditional_run os (conditional l k)
          ≡ ((simple_run os l).0, conditional (simple_run os l).1 j)))

-- The three recursive locks are one: for threads that are not 0, every sequence of attempts and releases
-- gets the same answers from the lock of Windows and from that of POSIX as from the portable one, and
-- leaves the same owner and count.
pub recursive_locks_agree :
    (os : List Op) (l : Simple) (k : ℕ) → Proper os → ProperOwner l.owner → Alike os l k
recursive_locks_agree [] l k h p = (refl, (k, refl))
recursive_locks_agree (tries self ∷ os) l k h p =
    let (a, (j, b)) =
      recursive_locks_agree os (simple_try self l).1 k h.1 (ProperOwner-try self l h.0 p) in
    (
      rw (atomic-try self l.owner l.count p) (ap (λ x. ((simple_try self l).0 ∷ x.0, x.1)) a),
      (
        j,
        rw (conditional-try self l.owner l.count k p)
            (ap (λ x. ((simple_try self l).0 ∷ x.0, x.1)) b),
      ),
    )
recursive_locks_agree (releases ∷ os) l k h p =
    let (m, e) = conditional-release l k in
    let (a, (j, b)) = recursive_locks_agree os (simple_release l) m h (ProperOwner-release l p) in
    (rw (atomic-release l) a, (j, rw e b))
