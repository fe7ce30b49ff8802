-- ===== src/RecursiveLock/Exclusion.antt =====
-- src/vanilla/DualMutexRecursiveLock.h: one thread at a time.
use zthread.Base.{
  ℕ, ◌+◌, ◌-◌, ◌^◌, ◌<◌, ◌≡◌, ◌⊎◌, inl, inr, refl, sym, ap, ◌∙◌, Bool, true, false, none, some,
  ◌==◌, ==_iff, arith, Bool-cases,
}
use zthread.RecursiveLock.{
  Place, System, u32, set, owned_by, moved, locked, again, marked, released, Step, tries_free,
  tries_locked, enters_again, must_wait, gives_up, unblocks, marks, releases, Reach, here, next,
}

abbrev is_marking : Place → Bool
is_marking Place.marking = true
is_marking _ = false

abbrev is_blocked : Place → Bool
is_blocked Place.blocked = true
is_blocked _ = false

-- A thread that neither holds the lock nor is about to.
abbrev Away : System → ℕ → Type 0
Away s u = (s.depth u ≡ 0) × (is_marking (s.place u) ≡ false)

abbrev OthersAway : System → ℕ → Type 0
OthersAway s t = (u : ℕ) → (t == u) ≡ false → Away s u

data Inv (s : System) : Type 0 where
  free : s.blocking ≡ false → s.owner ≡ none → s.count ≡ 0 → ((u : ℕ) → Away s u) → Inv s
  taken :
      (t : ℕ)
      → s.blocking ≡ true
      → s.owner ≡ none
      → s.count ≡ 0
      → s.depth t ≡ 0
      → s.place t ≡ Place.marking
      → OthersAway s t
      → Inv s
  held :
      (t : ℕ)
      → s.blocking ≡ true
      → s.owner ≡ some t
      → s.count ≡ s.depth t
      → 0 < s.depth t
      → s.depth t < 2 ^ 32
      → is_marking (s.place t) ≡ false
      → is_blocked (s.place t) ≡ false
      → OthersAway s t
      → Inv s

differs :
    (f : ℕ → Place) (t v : ℕ) → is_marking (f t) ≡ false → f v ≡ Place.marking → (t == v) ≡ false
differs f t v n q = elim (Bool-cases (t == v)) [
  | inl e ↦
      let same : t ≡ v = (==_iff t v).0 e in
      let clash : true ≡ false =
        sym (ap is_marking q) ∙ ap (λ u. is_marking (f u)) (sym same) ∙ n in
      cc
  | inr e ↦ e
]

owned_by-owner : (t v : ℕ) (s : System) → s.owner ≡ some v → owned_by t s ≡ (v == t)
owned_by-owner t v s o = rw o refl

symmetric : (t v : ℕ) → (t == v) ≡ (v == t)
symmetric t v = ground arith

-- What holds of a place set for `t` holds of the place of `v`.
at :
    (P : Place → Bool) (f : ℕ → Place) (t v : ℕ) (p : Place)
    → ((t == v) ≡ true → P p ≡ false)
    → P (f v) ≡ false
    → P (set f t p v) ≡ false
at P f t v p a b = elim (Bool-cases (t == v)) [ inl e ↦ rw e (a e) | inr e ↦ rw e b ]

-- A step of a thread to a place where it holds nothing new.
Inv-moved :
    (t : ℕ) (p : Place) (s : System)
    → is_marking p ≡ false
    → (is_blocked p ≡ false) ⊎ (owned_by t s ≡ false)
    → is_marking (s.place t) ≡ false
    → Inv s
    → Inv (moved t p s)
Inv-moved t p s m b n (free a o c w) =
    free a o c (λ u. ((w u).0, at is_marking s.place t u p (λ _. m) (w u).1))
Inv-moved t p s m b n (taken v a o c d q w) =
    taken v a o c d (rw (differs s.place t v n q) q)
      (λ u e. ((w u e).0, at is_marking s.place t u p (λ _. m) (w u e).1))
Inv-moved t p s m b n (held v a o c d l q r w) =
    held v a o c d l (at is_marking s.place t v p (λ _. m) q)
      (at is_blocked s.place t v p unblocked r)
      (λ u e. ((w u e).0, at is_marking s.place t u p (λ _. m) (w u e).1))
  where
    unblocked : (t == v) ≡ true → is_blocked p ≡ false
    unblocked e = elim b [
      | inl f ↦ f
      | inr f ↦
          let clash : true ≡ false = sym e ∙ symmetric t v ∙ sym (owned_by-owner t v s o) ∙ f in cc
    ]

Inv-locked : (t : ℕ) (s : System) → s.blocking ≡ false → Inv s → Inv (locked t s)
Inv-locked t s f (free a o c w) =
    taken t refl o c (w t).0 (ground arith)
      (λ u e. ((w u).0, at is_marking s.place t u Place.marking (λ h. clash (sym h ∙ e)) (w u).1))
  where
    clash : true ≡ false → true ≡ false
    clash h = h
Inv-locked t s f (taken v a o c d q w) = cc
Inv-locked t s f (held v a o c d l q r w) = cc

kept : (f : ℕ → ℕ) (t u n : ℕ) → (t == u) ≡ false → f u ≡ 0 → set f t n u ≡ 0
kept f t u n e h = rw e h

set-here : (f : ℕ → ℕ) (t n : ℕ) → set f t n t ≡ n
set-here f t n = ground arith

Inv-again :
    (t : ℕ) (s : System) → owned_by t s ≡ true → s.depth t + 1 < 2 ^ 32 → Inv s → Inv (again t s)
Inv-again t s h b (free a o c w) = let clash : false ≡ true = rw o at h in cc
Inv-again t s h b (taken v a o c d q w) = let clash : false ≡ true = rw o at h in cc
Inv-again t s h b (held v a o c d l q r w) =
    let same : v ≡ t = (==_iff v t).0 (sym (owned_by-owner t v s o) ∙ h) in
    let count : s.count ≡ s.depth t = c ∙ ap s.depth same in
    let small : u32 (s.count + 1) ≡ s.depth t + 1 = omega arith in
    held t a (o ∙ ap some same) (small ∙ sym (set-here s.depth t (s.depth t + 1))) (ground arith)
      (ground arith) (ground arith) (ground arith)
      (λ u e. (
        kept s.depth t u (s.depth t + 1) e (w u (rw same e)).0,
        at is_marking s.place t u Place.idle (λ _. refl) (w u (rw same e)).1,
      ))

-- The thread that holds the blocking lock, from one that cannot be away.
the_thread : (s : System) (t v : ℕ) → (Away s t → true ≡ false) → OthersAway s v → v ≡ t
the_thread s t v n w = elim (Bool-cases (v == t)) [
  | inl e ↦ (==_iff v t).0 e
  | inr e ↦ let clash : true ≡ false = n (w t e) in cc
]

marking_clash : (t : ℕ) (s : System) → s.place t ≡ Place.marking → Away s t → true ≡ false
marking_clash t s m w = sym (ap is_marking m) ∙ w.1

Inv-marked : (t : ℕ) (s : System) → s.place t ≡ Place.marking → Inv s → Inv (marked t s)
Inv-marked t s m (free a o c w) = let clash : true ≡ false = marking_clash t s m (w t) in cc
Inv-marked t s m (taken v a o c d q w) =
    let same : v ≡ t = the_thread s t v (marking_clash t s m) w in
    let zero : s.depth t ≡ 0 = sym (ap s.depth same) ∙ d in
    let small : u32 (s.count + 1) ≡ s.depth t + 1 = omega arith in
    held t a refl (small ∙ sym (set-here s.depth t (s.depth t + 1))) (ground arith) (ground arith)
      (ground arith) (ground arith)
      (λ u e. (
        kept s.depth t u (s.depth t + 1) e (w u (rw same e)).0,
        at is_marking s.place t u Place.idle (λ _. refl) (w u (rw same e)).1,
      ))
Inv-marked t s m (held v a o c d l q r w) =
    let same : v ≡ t = the_thread s t v (marking_clash t s m) w in
    let clash : true ≡ false =
      sym (ap is_marking m) ∙ sym (ap (λ u. is_marking (s.place u)) same) ∙ q in
    cc

positive_zero : {n : ℕ} → n ≡ 0 → 0 < n → true ≡ false
positive_zero h p = grind arith

positive-Away : (t : ℕ) (s : System) → 0 < s.depth t → Away s t → true ≡ false
positive-Away t s d w = positive_zero w.0 d

positive : {n m : ℕ} → n ≡ m → (n == 0) ≡ false → 0 < m
positive h e = ground arith

all_away :
    (t : ℕ) (s : System)
    → s.place t ≡ Place.idle
    → s.depth t - 1 ≡ 0
    → OthersAway s t
    → (u : ℕ) → (set s.depth t (s.depth t - 1) u ≡ 0) × (is_marking (s.place u) ≡ false)
all_away t s m z w u = elim (Bool-cases (t == u)) [
  | inl e ↦
      let same : t ≡ u = (==_iff t u).0 e in
      (rw e z, ap (λ v. is_marking (s.place v)) (sym same) ∙ ap is_marking m)
  | inr e ↦ (rw e (w u e).0, (w u e).1)
]

Inv-released :
    (t : ℕ) (s : System) → s.place t ≡ Place.idle → 0 < s.depth t → Inv s → Inv (released t s)
unfolding released
Inv-released t s m d (free a o c w) = let clash : true ≡ false = positive_zero (w t).0 d in cc
Inv-released t s m d (taken v a o c z q w) =
    let same : v ≡ t = the_thread s t v (positive-Away t s d) w in
    let clash : true ≡ false = positive_zero (sym (ap s.depth same) ∙ z) d in cc
Inv-released t s m d (held v a o c p l q r w) =
    let same : v ≡ t = the_thread s t v (positive-Away t s d) w in
    let depth : s.depth v ≡ s.depth t = ap s.depth same in
    let n : u32 (s.count + 2 ^ 32 - 1) ≡ s.depth t - 1 = omega arith in
    elim (Bool-cases (u32 (s.count + 2 ^ 32 - 1) == 0)) [
      | inl e ↦
          let none_left : u32 (s.count + 2 ^ 32 - 1) ≡ 0 = (==_iff _ _).0 e in
          rw e
            (free refl refl none_left (all_away t s m (sym n ∙ none_left) (λ u f. w u (rw same f))))
      | inr e ↦
          let left : 0 < s.depth t - 1 = positive n e in
          let here : set s.depth t (s.depth t - 1) t ≡ s.depth t - 1 =
            set-here s.depth t (s.depth t - 1) in
          rw e (
            held t a (o ∙ ap some same) (n ∙ sym (set-here s.depth t (s.depth t - 1)))
              (rw here left) (rw here (omega arith)) (rw m refl) (rw m refl)
              (λ u f.
                (kept s.depth t u (s.depth t - 1) f (w u (rw same f)).0, (w u (rw same f)).1)))
    ]

Step-Inv : {r s : System} → Step r s → Inv r → Inv s
Step-Inv {r} (tries_free t p f) i = Inv-locked t r f i
Step-Inv {r} (tries_locked t p f) i =
    Inv-moved t Place.checking r refl (inl refl) (ap is_marking p) i
Step-Inv {r} (enters_again t p o b) i = Inv-again t r o b i
Step-Inv {r} (must_wait t p o) i = Inv-moved t Place.blocked r refl (inr o) (ap is_marking p) i
Step-Inv {r} (gives_up t p o) i = Inv-moved t Place.idle r refl (inl refl) (ap is_marking p) i
Step-Inv {r} (unblocks t p f) i = Inv-locked t r f i
Step-Inv {r} (marks t p) i = Inv-marked t r p i
Step-Inv {r} (releases t p d) i = Inv-released t r p d i

Reach-Inv : {s : System} → Reach s → Inv s
Reach-Inv here = free refl refl refl (λ u. (refl, refl))
Reach-Inv (next r st) = Step-Inv st (Reach-Inv r)

inside : {s : System} (t : ℕ) → Inv s → 0 < s.depth t → (s.owner ≡ some t) × (s.count ≡ s.depth t)
inside t (free a o c w) d = let clash : true ≡ false = positive_zero (w t).0 d in cc
inside {s} t (taken v a o c z q w) d =
    let same : v ≡ t = the_thread s t v (positive-Away t s d) w in
    let clash : true ≡ false = positive_zero (sym (ap s.depth same) ∙ z) d in cc
inside {s} t (held v a o c p l q r w) d =
    let same : v ≡ t = the_thread s t v (positive-Away t s d) w in
    (o ∙ ap some same, c ∙ ap s.depth same)

some_inj : {t u : ℕ} → some t ≡ some u → t ≡ u
some_inj h = cc

-- However the steps of any number of threads interleave, two threads never hold the lock at once; the
-- owner is the thread that holds it, and the count is the number of times that it does, while no
-- thread holds it 2 ^ 32 times.
pub dual_exclusion :
    {s : System}
    → Reach s
    → (t u : ℕ) → 0 < s.depth t
    → 0 < s.depth u
    → (t ≡ u) × (s.owner ≡ some t) × (s.count ≡ s.depth t)
dual_exclusion r t u d e =
    let (a, b) = inside t (Reach-Inv r) d in
    let (a', _) = inside u (Reach-Inv r) e in (some_inj (sym a ∙ a'), a, b)
