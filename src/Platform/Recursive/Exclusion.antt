-- ===== src/Platform/Recursive/Exclusion.antt =====
-- src/vanilla/SimpleRecursiveLock.h: any number of threads on one lock.
use zthread.Base.{
  ℕ, ◌+◌, ◌-◌, ◌^◌, ◌<◌, ◌≡◌, refl, sym, ap, ◌∙◌, inl, inr, true, false, none, some, ◌==◌, ==_iff,
  arith, if◌then◌else◌, Bool-cases,
}
use zthread.Platform.Recursive.{
  Simple, simple_init, may_enter, up, down, simple_try, simple_release,
}

-- With how often each thread holds the lock.
pub record System : Type 0 where
  pub lock : Simple
  pub depth : ℕ → ℕ

abbrev pub start : System
start = record { lock = simple_init; depth = λ _. 0 }

abbrev pub set : (ℕ → ℕ) → ℕ → ℕ → ℕ → ℕ
set f t n u = if t == u then n else f u

abbrev pub tried : ℕ → System → System
tried t s =
    let (was_locked, l) = simple_try t s.lock in
    record { lock = l; depth = (if was_locked then set s.depth t (s.depth t + 1) else s.depth) }

abbrev pub released : ℕ → System → System
released t s = record { lock = simple_release s.lock; depth = set s.depth t (s.depth t - 1) }

-- A round of `acquire`, or `tryAcquire`; and `release` of a thread that holds the lock. No thread holds it
-- 2 ^ 32 times.
pub data Step (s : System) : System → Type 0 where
  tries : (t : ℕ) → s.depth t + 1 < 2 ^ 32 → Step s (tried t s)
  releases : (t : ℕ) → 0 < s.depth t → Step s (released t s)

pub data Reach : System → Type 0 where
  here : Reach start
  next : {r s : System} → Reach r → Step r s → Reach s

data Inv (s : System) : Type 0 where
  free : s.lock.owner ≡ none → s.lock.count ≡ 0 → ((u : ℕ) → s.depth u ≡ 0) → Inv s
  held :
      (t : ℕ)
      → s.lock.owner ≡ some t
      → s.lock.count ≡ s.depth t
      → 0 < s.depth t
      → s.depth t < 2 ^ 32
      → ((u : ℕ) → (t == u) ≡ false → s.depth u ≡ 0)
      → Inv s

may_enter-owner : (t v : ℕ) (l : Simple) → l.owner ≡ some v → may_enter t l ≡ (v == t)
may_enter-owner t v l o = rw o refl

may_enter-free : (t : ℕ) (l : Simple) → l.owner ≡ none → may_enter t l ≡ true
may_enter-free t l o = rw o refl

set-here : (f : ℕ → ℕ) (t n : ℕ) → set f t n t ≡ n
set-here f t n = ground arith

set-there : (f : ℕ → ℕ) (t n u : ℕ) → (t == u) ≡ false → set f t n u ≡ f u
set-there f t n u e = rw e refl

wraps_not : (n : ℕ) → n + 1 < 2 ^ 32 → up n ≡ n + 1
wraps_not n h = omega arith

lowers : (n : ℕ) → 0 < n → n < 2 ^ 32 → down n ≡ n - 1
lowers n h k = omega arith

-- The thread that entered.
entered :
    (t : ℕ) (s : System)
    → s.lock.count ≡ s.depth t
    → s.depth t + 1 < 2 ^ 32
    → ((u : ℕ) → (t == u) ≡ false → s.depth u ≡ 0)
    → Inv (record {
      lock = record { owner = some t; count = up s.lock.count };
      depth = set s.depth t (s.depth t + 1);
    })
entered t s c b w =
    let here = set-here s.depth t (s.depth t + 1) in
    held t refl (ap up c ∙ wraps_not (s.depth t) b ∙ sym here) (rw here (omega arith)) (rw here b)
      (λ u e. set-there s.depth t (s.depth t + 1) u e ∙ w u e)

Inv-tried : (t : ℕ) (s : System) → s.depth t + 1 < 2 ^ 32 → Inv s → Inv (tried t s)
unfolding simple_try
Inv-tried t s b (free o c w) =
    rw (may_enter-free t s.lock o) (entered t s (c ∙ sym (w t)) b (λ u _. w u))
Inv-tried t s b (held v o c p l w) = elim (Bool-cases (v == t)) [
  | inl e ↦
      let same : v ≡ t = (==_iff v t).0 e in
      rw (may_enter-owner t v s.lock o ∙ e)
        (entered t s (c ∙ ap s.depth same) b (λ u f. w u (rw same f)))
  | inr e ↦ rw (may_enter-owner t v s.lock o ∙ e) (held v o c p l w)
]

holder :
    (t v : ℕ) (s : System) → 0 < s.depth t → ((u : ℕ) → (v == u) ≡ false → s.depth u ≡ 0) → v ≡ t
holder t v s d w = elim (Bool-cases (v == t)) [
  | inl e ↦ (==_iff v t).0 e
  | inr e ↦ let none_held : s.depth t ≡ 0 = w t e in omega arith
]

positive : {n m : ℕ} → n ≡ m → (n == 0) ≡ false → 0 < m
positive h e = ground arith

Inv-released : (t : ℕ) (s : System) → 0 < s.depth t → Inv s → Inv (released t s)
unfolding simple_release
Inv-released t s d (free o c w) = let none_held : s.depth t ≡ 0 = w t in ground arith
Inv-released t s d (held v o c p l w) =
    let same : v ≡ t = holder t v s d w in
    let depth : s.depth v ≡ s.depth t = ap s.depth same in
    let n : down s.lock.count ≡ s.depth t - 1 =
      ap down (c ∙ depth) ∙ lowers (s.depth t) d (omega arith) in
    let here = set-here s.depth t (s.depth t - 1) in
    elim (Bool-cases (down s.lock.count == 0)) [
      | inl e ↦ rw e (
          free refl ((==_iff _ _).0 e) (λ u. elim (Bool-cases (t == u)) [
            | inl f ↦ rw f (sym n ∙ (==_iff _ _).0 e)
            | inr f ↦ rw f (w u (rw same f))
          ]))
      | inr e ↦ rw e (
          held t (o ∙ ap some same) (n ∙ sym here) (rw here (positive n e)) (rw here (omega arith))
            (λ u f. set-there s.depth t (s.depth t - 1) u f ∙ w u (rw same f)))
    ]

Reach-Inv : {s : System} → Reach s → Inv s
Reach-Inv here = free refl refl (λ _. refl)
Reach-Inv (next {r} k (tries t b)) = Inv-tried t r b (Reach-Inv k)
Reach-Inv (next {r} k (releases t d)) = Inv-released t r d (Reach-Inv k)

inside :
    {s : System} (t : ℕ)
    → Inv s
    → 0 < s.depth t
    → (s.lock.owner ≡ some t) × (s.lock.count ≡ s.depth t)
inside t (free o c w) d = let none_held = w t in ground arith
inside {s} t (held v o c p l w) d =
    let same : v ≡ t = holder t v s d w in (o ∙ ap some same, c ∙ ap s.depth same)

some_inj : {t u : ℕ} → some t ≡ some u → t ≡ u
some_inj h = cc

refused :
    {s : System} (t : ℕ)
    → Inv s
    → (simple_try t s.lock).0 ≡ false
    → (u : ℕ) × (0 < s.depth u) × ((u == t) ≡ false)
unfolding simple_try
refused {s} t (free o c w) h = let clash : true ≡ false = rw (may_enter-free t s.lock o) at h in cc
refused {s} t (held v o c p l w) h = elim (Bool-cases (v == t)) [
  | inl e ↦ let clash : true ≡ false = rw (may_enter-owner t v s.lock o ∙ e) at h in cc
  | inr e ↦ (v, p, e)
]

-- However the rounds of `acquire`, the attempts and the releases of any number of threads interleave, two
-- threads never hold the lock at once: the owner is the thread that holds it, and the count is how
-- often, while no thread holds it 2 ^ 32 times.
pub recursive_exclusion :
    {s : System}
    → Reach s
    → (t u : ℕ) → 0 < s.depth t
    → 0 < s.depth u
    → (t ≡ u) × (s.lock.owner ≡ some t) × (s.lock.count ≡ s.depth t)
recursive_exclusion r t u d e =
    let (a, b) = inside t (Reach-Inv r) d in
    let (a', _) = inside u (Reach-Inv r) e in (some_inj (sym a ∙ a'), a, b)

-- The lock refuses a thread only while another thread holds it.
pub refused_by_holder :
    {s : System}
    → Reach s
    → (t : ℕ) → (simple_try t s.lock).0 ≡ false
    → (u : ℕ) × (0 < s.depth u) × ((u == t) ≡ false)
refused_by_holder r t h = refused t (Reach-Inv r) h
